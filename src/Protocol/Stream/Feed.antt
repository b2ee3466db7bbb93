-- ===== src/Protocol/Stream/Feed.antt =====
-- `feed` as the loop with enough fuel, its bound, and whole frames through any chunks.
use alorair_home_assistant.Base.{
  ℕ, zero, suc, ◌+◌, ◌<◌, ◌≡◌, ◌≢◌, refl, sym, ap, ◌∙◌, List, [], ◌∷◌, ◌++◌, append_assoc, length,
  take, drop, bytes_eq, false, Option, ltb, Bool-cases, inl, inr, Result, ok, err, raise_if, ◌>>=◌,
  ◌>>◌, arith, length-drop,
}
use alorair_home_assistant.Protocol.Frame.{
  Frame, ProtocolError, unbounded_partial, out_of_fuel, decode, header, max_data,
}
use alorair_home_assistant.Protocol.Stream.{FrameStream, Cut, attach, declared, feed}
use alorair_home_assistant.Protocol.Stream.Chunks.{
  cut, cut_short, cut_bad, cut_large, cut_partial, cut_full, cut-append, resume,
}

-- A run of the loop that leaves less than a frame, or raises what `decode` and the loop raise.
abbrev IsTidy : Result ProtocolError Cut → Type 0
IsTidy (ok c) = length c.1 < 285
IsTidy (err e) = (e ≢ out_of_fuel) × (e ≢ unbounded_partial)

decode_errors :
    (raw : List ℕ) (mac : Option (List ℕ)) (e : ProtocolError)
    → decode raw mac ≡ err e
    → (e ≢ out_of_fuel) × (e ≢ unbounded_partial)
unfolding decode
decode_errors raw mac e h = ground arith

module _ (mac : Option (List ℕ)) where
  decoded-IsTidy :
      (raw : List ℕ) (d : Result ProtocolError Frame) (m : Result ProtocolError Cut)
      → decode raw mac ≡ d
      → IsTidy m
      → IsTidy (d >>= λ f. attach ((raw, f) ∷ []) m)
  decoded-IsTidy raw (ok f) (ok c) h t = t
  decoded-IsTidy raw (ok f) (err e) h t = t
  decoded-IsTidy raw (err e) m h t = decode_errors raw mac e h

  cut-IsTidy_fuel : (fuel : ℕ) (b : List ℕ) → length b < fuel → IsTidy (cut mac b)
  cut-IsTidy_fuel zero b h = absurd (omega arith)
  cut-IsTidy_fuel (suc fuel) b h = elim (Bool-cases (ltb (length b) 20)) [
    | inl short ↦ rw (cut_short mac b short) (ground arith)
    | inr long ↦ elim (Bool-cases (bytes_eq (take 8 b) header)) [
      | inr bad ↦ rw (cut_bad mac b long bad) (λ e. cc, λ e. cc)
      | inl good ↦ elim (Bool-cases (ltb 285 (declared b))) [
        | inl large ↦ rw (cut_large mac b long good large) (λ e. cc, λ e. cc)
        | inr small ↦ elim (Bool-cases (ltb (length b) (declared b))) [
          | inl part ↦ rw (cut_partial mac b long good small part) (ground arith)
          | inr whole ↦ rw (cut_full mac b long good small whole) (
              decoded-IsTidy (take (declared b) b) _ _ refl (
                cut-IsTidy_fuel fuel (drop (declared b) b)
                  (ground (arith, length-drop (declared b) b))))
        ]
      ]
    ]
  ]

  cut-IsTidy : (b : List ℕ) → IsTidy (cut mac b)
  cut-IsTidy b = cut-IsTidy_fuel (suc (length b)) b (omega arith)

abbrev pub keep : FrameStream → Cut → List (List ℕ × Frame) × FrameStream
keep s c = (c.0, record s { buffer = c.1 })

bounded :
    (s : FrameStream) (m : Result ProtocolError Cut)
    → IsTidy m
    → (m >>= λ c. raise_if (ltb (max_data + 29) (length c.1)) unbounded_partial >> ok (keep s c))
      ≡ (m >>= λ c. ok (keep s c))
bounded s (ok c) t = let small : ltb (max_data + 29) (length c.1) ≡ false = ground arith in rw small
bounded s (err e) t = refl

pub feed-cut :
    (s : FrameStream) (chunk : List ℕ)
    → feed s chunk ≡ (cut s.expected_mac (s.buffer ++ chunk) >>= λ c. ok (keep s c))
unfolding feed
feed-cut s chunk = bounded s _ (cut-IsTidy s.expected_mac (s.buffer ++ chunk))

-- The loop's fuel never runs out and the last check of `feed` never fires: what a call leaves in
-- the buffer is shorter than the largest frame, and no call raises either error.
feed-bounded :
    (s : FrameStream) (chunk : List ℕ)
    → (feed s chunk ≢ err out_of_fuel)
      × (feed s chunk ≢ err unbounded_partial)
      × ((fs : List (List ℕ × Frame)) (s' : FrameStream)
          → feed s chunk ≡ ok (fs, s')
          → length s'.buffer < max_data + 29)
feed-bounded s chunk =
    rw (feed-cut s chunk) (outcome s _ (cut-IsTidy s.expected_mac (s.buffer ++ chunk)))
  where
    outcome :
        (s : FrameStream) (m : Result ProtocolError Cut)
        → IsTidy m
        → ((m >>= λ c. ok (keep s c)) ≢ err out_of_fuel)
          × ((m >>= λ c. ok (keep s c)) ≢ err unbounded_partial)
          × ((fs : List (List ℕ × Frame)) (s' : FrameStream)
              → (m >>= λ c. ok (keep s c)) ≡ ok (fs, s')
              → length s'.buffer < max_data + 29)
    outcome s (ok c) t = (λ e. cc, λ e. cc, λ fs s' e. ground arith)
    outcome s (err x) t = (λ e. ground arith, λ e. ground arith, λ fs s' e. cc)

-- The loop's fuel never runs out, and the last check of `feed` never fires.
pub feed-checks :
    (s : FrameStream) (chunk : List ℕ)
    → (feed s chunk ≢ err out_of_fuel) × (feed s chunk ≢ err unbounded_partial)
feed-checks s chunk = let (fueled, whole, _) = feed-bounded s chunk in (fueled, whole)

-- What a call of `feed` leaves in the buffer is shorter than the largest frame.
pub feed-buffer :
    (s s' : FrameStream) (chunk : List ℕ) (fs : List (List ℕ × Frame))
    → feed s chunk ≡ ok (fs, s')
    → length s'.buffer < max_data + 29
feed-buffer s s' chunk fs = let (_, _, small) = feed-bounded s chunk in small fs s'

feed-append_lem :
    (s : FrameStream) (ys : List ℕ) (m : Result ProtocolError Cut)
    → ((m >>= resume s.expected_mac ys) >>= λ c. ok (keep s c))
      ≡ ((m >>= λ c. ok (keep s c)) >>= λ r. feed r.1 ys >>= λ q. ok (r.0 ++ q.0, q.1))
feed-append_lem s ys (err e) = refl
feed-append_lem s ys (ok c) =
    rw (feed-cut (record s { buffer = c.1 }) ys) (rest (cut s.expected_mac (c.1 ++ ys)))
  where
    rest :
        (m : Result ProtocolError Cut)
        → (attach c.0 m >>= λ d. ok (keep s d))
          ≡ ((m >>= λ d. ok (keep s d)) >>= λ q. ok (c.0 ++ q.0, q.1))
    rest (ok d) = refl
    rest (err e) = refl

-- Feeding two chunks one after the other finds the frames, leaves the buffer and raises the error
-- that feeding them at once does.
pub feed-append :
    (s : FrameStream) (xs ys : List ℕ)
    → feed s (xs ++ ys) ≡ (feed s xs >>= λ r. feed r.1 ys >>= λ q. ok (r.0 ++ q.0, q.1))
feed-append s xs ys =
    feed-cut s (xs ++ ys)
    ∙ ap (λ (b : List ℕ). cut s.expected_mac b >>= λ c. ok (keep s c))
        (sym (append_assoc s.buffer xs ys))
    ∙ ap (λ (m : Result ProtocolError Cut). m >>= λ c. ok (keep s c))
        (cut-append s.expected_mac (s.buffer ++ xs) ys)
    ∙ feed-append_lem s ys (cut s.expected_mac (s.buffer ++ xs))
    ∙ ap
        (λ (m : Result ProtocolError (List (List ℕ × Frame) × FrameStream)).
          m >>= λ r. feed r.1 ys >>= λ q. ok (r.0 ++ q.0, q.1))
        (sym (feed-cut s xs))
