-- ===== src/Protocol/Stream/Chunks.antt =====
-- How the stream is cut into chunks does not matter.
use alorair_home_assistant.Base.{
  ℕ, zero, suc, ◌+◌, ◌<◌, ◌≡◌, refl, sym, ap, ◌∙◌, List, [], ◌∷◌, ◌++◌, length, take, drop,
  bytes_eq, true, false, Option, ltb, Bool-cases, inl, inr, Result, ok, err, ◌>>=◌, arith,
  length-append, length-drop, take-append_le, drop-append_le, slice-append_le,
}
use alorair_home_assistant.Protocol.Bytes.{from_bytes}
use alorair_home_assistant.Protocol.Frame.{
  Frame, ProtocolError, unexpected_stream_header, frame_too_large, decode, header,
}
use alorair_home_assistant.Protocol.Stream.{Cut, attach, declared, cut_frames}

module _ (mac : Option (List ℕ)) where
  -- More fuel than bytes gives the same result, whatever its amount.
  cut_frames-fuel :
      (m n : ℕ) (buffer : List ℕ)
      → length buffer < m
      → length buffer < n
      → cut_frames m mac buffer ≡ cut_frames n mac buffer
  unfolding cut_frames
  cut_frames-fuel zero n buffer h k = absurd (omega arith)
  cut_frames-fuel (suc m) zero buffer h k = absurd (omega arith)
  cut_frames-fuel (suc m) (suc n) buffer h k = elim (Bool-cases (ltb (length buffer) 20)) [
    | inl short ↦ rw short
    | inr long ↦ rw (
        cut_frames-fuel m n (drop (declared buffer) buffer)
          (ground (arith, length-drop (declared buffer) buffer))
          (ground (arith, length-drop (declared buffer) buffer)))
  ]

  -- The loop with enough fuel.
  abbrev pub cut : List ℕ → Result ProtocolError Cut
  cut buffer = cut_frames (suc (length buffer)) mac buffer

  -- One round of the loop, by the test that decides it.
  pub cut_short : (b : List ℕ) → ltb (length b) 20 ≡ true → cut b ≡ ok ([], b)
  unfolding cut_frames
  cut_short b short = rw short

  pub cut_bad :
      (b : List ℕ)
      → ltb (length b) 20 ≡ false
      → bytes_eq (take 8 b) header ≡ false
      → cut b ≡ err unexpected_stream_header
  unfolding cut_frames
  cut_bad b long bad = rw (long, bad)

  pub cut_large :
      (b : List ℕ)
      → ltb (length b) 20 ≡ false
      → bytes_eq (take 8 b) header ≡ true
      → ltb 285 (declared b) ≡ true
      → cut b ≡ err frame_too_large
  unfolding cut_frames
  cut_large b long good large = rw (long, good, large)

  pub cut_partial :
      (b : List ℕ)
      → ltb (length b) 20 ≡ false
      → bytes_eq (take 8 b) header ≡ true
      → ltb 285 (declared b) ≡ false
      → ltb (length b) (declared b) ≡ true
      → cut b ≡ ok ([], b)
  unfolding cut_frames
  cut_partial b long good small part = rw (long, good, small, part)

  pub cut_full :
      (b : List ℕ)
      → ltb (length b) 20 ≡ false
      → bytes_eq (take 8 b) header ≡ true
      → ltb 285 (declared b) ≡ false
      → ltb (length b) (declared b) ≡ false
      → cut b ≡ (
          decode (take (declared b) b) mac >>= λ f.
          attach ((take (declared b) b, f) ∷ []) (cut (drop (declared b) b)))
  unfolding cut_frames
  cut_full b long good small whole = rw (
    long,
    good,
    small,
    whole,
    cut_frames-fuel (length b) (suc (length (drop (declared b) b))) (drop (declared b) b)
        (ground (arith, length-drop (declared b) b)) (omega arith),
  )

  pub attach_nil : (m : Result ProtocolError Cut) → attach [] m ≡ m
  attach_nil (ok c) = refl
  attach_nil (err e) = refl

  pub attach_cons :
      (x : List ℕ × Frame) (fs : List (List ℕ × Frame)) (m : Result ProtocolError Cut)
      → attach (x ∷ fs) m ≡ attach (x ∷ []) (attach fs m)
  attach_cons x fs (ok c) = refl
  attach_cons x fs (err e) = refl

  -- What follows the first frames is cut behind them.
  abbrev pub resume : List ℕ → Cut → Result ProtocolError Cut
  resume ys c = attach c.0 (cut (c.1 ++ ys))

  attach-resume :
      (ys : List ℕ) (x : List ℕ × Frame) (m : Result ProtocolError Cut)
      → (attach (x ∷ []) m >>= resume ys) ≡ attach (x ∷ []) (m >>= resume ys)
  attach-resume ys x (ok c) = attach_cons x c.0 (cut (c.1 ++ ys))
  attach-resume ys x (err e) = refl

  decoded_resume :
      (ys raw : List ℕ) (d : Result ProtocolError Frame) (m : Result ProtocolError Cut)
      → ((d >>= λ f. attach ((raw, f) ∷ []) m) >>= resume ys)
        ≡ (d >>= λ f. attach ((raw, f) ∷ []) (m >>= resume ys))
  decoded_resume ys raw (ok f) m = attach-resume ys (raw, f) m
  decoded_resume ys raw (err e) m = refl

  -- The tests of a round see no more than the first 20 bytes and the declared size.
  module _ (b ys : List ℕ) (long : ltb (length b) 20 ≡ false) where
    long_append : ltb (length (b ++ ys)) 20 ≡ false
    long_append = ground (arith, length-append b ys)

    head_append : take 8 (b ++ ys) ≡ take 8 b
    head_append = take-append_le 8 b ys (ground arith)

    declared_append : declared (b ++ ys) ≡ declared b
    declared_append =
        ap (λ (t : List ℕ). 29 + from_bytes t)
          (slice-append_le 18 20 b ys (omega arith) (ground arith))

  cut-append_step :
      (b ys : List ℕ)
      → (cut (drop (declared b) b ++ ys) ≡ (cut (drop (declared b) b) >>= resume ys))
      → cut (b ++ ys) ≡ (cut b >>= resume ys)
  cut-append_step b ys ih = elim (Bool-cases (ltb (length b) 20)) [
    | inl short ↦ rw (cut_short b short) (sym (attach_nil (cut (b ++ ys))))
    | inr long ↦ elim (Bool-cases (bytes_eq (take 8 b) header)) [
      | inr bad ↦ rw (
        cut_bad b long bad,
        cut_bad (b ++ ys) (long_append b ys long)
            (ap (λ (t : List ℕ). bytes_eq t header) (head_append b ys long) ∙ bad),
      )
      | inl good ↦
          let good' : bytes_eq (take 8 (b ++ ys)) header ≡ true =
            ap (λ (t : List ℕ). bytes_eq t header) (head_append b ys long) ∙ good in
          let same : declared (b ++ ys) ≡ declared b = declared_append b ys long in
          elim (Bool-cases (ltb 285 (declared b))) [
            | inl large ↦ rw (
              cut_large b long good large,
              cut_large (b ++ ys) (long_append b ys long) good' (ap (ltb 285) same ∙ large),
            )
            | inr small ↦ elim (Bool-cases (ltb (length b) (declared b))) [
              | inl part ↦
                  rw (cut_partial b long good small part) (sym (attach_nil (cut (b ++ ys))))
              | inr whole ↦
                  let whole' : ltb (length (b ++ ys)) (declared (b ++ ys)) ≡ false =
                    ground (arith, length-append b ys) in
                  cut_full (b ++ ys) (long_append b ys long) good' (ap (ltb 285) same ∙ small)
                    whole'
                  ∙ rw
                      (
                        same,
                        take-append_le (declared b) b ys (ground arith),
                        drop-append_le (declared b) b ys (ground arith),
                        ih,
                        cut_full b long good small whole,
                      )
                      (sym (
                        decoded_resume ys (take (declared b) b) (decode (take (declared b) b) mac)
                          (cut (drop (declared b) b))))
            ]
          ]
    ]
  ]

  cut-append_fuel :
      (fuel : ℕ) (b ys : List ℕ) → length b < fuel → cut (b ++ ys) ≡ (cut b >>= resume ys)
  cut-append_fuel zero b ys h = absurd (omega arith)
  cut-append_fuel (suc fuel) b ys h = elim (Bool-cases (ltb (length b) 20)) [
    | inl short ↦ rw (cut_short b short) (sym (attach_nil (cut (b ++ ys))))
    | inr long ↦
        cut-append_step b ys (
          cut-append_fuel fuel (drop (declared b) b) ys
            (ground (arith, length-drop (declared b) b)))
  ]

  pub cut-append : (b ys : List ℕ) → cut (b ++ ys) ≡ (cut b >>= resume ys)
  cut-append b ys = cut-append_fuel (suc (length b)) b ys (omega arith)
