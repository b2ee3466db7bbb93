-- ===== src/Protocol/Stream/Reassembly.antt =====
-- Whole frames come back from the stream however it is cut into chunks.
use alorair_home_assistant.Base.{
  concat, ℕ, ◌+◌, ◌≤◌, ◌≡◌, refl, sym, ap, ◌∙◌, List, [], ◌∷◌, ◌++◌, append-nil, length, take,
  slice, bytes_eq, true, or_false, not-false, ltb-false, ==-true, not, Option, some, ltb, ◌==◌,
  ◌||◌, Bool-cases, inl, inr, Result, ok, err, ◌>>=◌, arith, length-append, take-append_le,
  take-append_length, drop-append_length, slice-append_le,
}
use alorair_home_assistant.Protocol.Bytes.{from_bytes}
use alorair_home_assistant.Protocol.Frame.{
  Frame, ProtocolError, decode, encode, IsFrame, header, max_data,
}
use mathlib.Core.Path.{fun_ext}
use alorair_home_assistant.Protocol.Frame.RoundTrip.{decode-encode}
use alorair_home_assistant.Protocol.Stream.{FrameStream, Cut, attach, declared, feed}
use alorair_home_assistant.Protocol.Stream.Chunks.{cut, cut_short, cut_full}
use alorair_home_assistant.Protocol.Stream.Feed.{feed-cut, feed-append, keep}

-- What the loop tests of a whole frame.
record IsWhole (raw : List ℕ) : Type 0 where
  long : 29 ≤ length raw
  starts : bytes_eq (take 8 raw) header ≡ true
  sized : length raw ≡ declared raw
  small : declared raw ≤ 285

decode-IsWhole :
    (raw : List ℕ) (mac : Option (List ℕ)) (f : Frame) → decode raw mac ≡ ok f → IsWhole raw
unfolding decode
decode-IsWhole raw mac f h =
    elim (Bool-cases (ltb (length raw) 29 || not (bytes_eq (take 8 raw) header))) [
      | inl bad ↦ cc (rw bad at h)
      | inr good ↦
          let n : ℕ = from_bytes (slice 18 20 raw) in
          elim (Bool-cases (ltb max_data n || not (length raw == 29 + n))) [
            | inl bad ↦ cc (rw (good, bad) at h)
            | inr fits ↦
                let (g₁, g₂) = or_false _ _ good in
                let (f₁, f₂) = or_false _ _ fits in
                let bound : n ≤ 256 = ltb-false _ _ f₁ in
                record {
                  long = ltb-false _ _ g₁;
                  starts = not-false _ g₂;
                  sized = ==-true _ _ (not-false _ f₂);
                  small = omega arith;
                }
          ]
    ]

module _ (mac : Option (List ℕ)) where
  cut-frame :
      (raw more : List ℕ) (f : Frame)
      → decode raw mac ≡ ok f
      → cut mac (raw ++ more) ≡ attach ((raw, f) ∷ []) (cut mac more)
  cut-frame raw more f h =
      let w : IsWhole raw = decode-IsWhole raw mac f h in
      let same : declared (raw ++ more) ≡ declared raw =
        ap (λ (t : List ℕ). 29 + from_bytes t)
          (slice-append_le 18 20 raw more (omega arith) (omega (arith, w.long))) in
      let head : take 8 (raw ++ more) ≡ take 8 raw =
        take-append_le 8 raw more (omega (arith, w.long)) in
      cut_full mac (raw ++ more) (ground (arith, length-append raw more, w.long))
        (ap (λ (t : List ℕ). bytes_eq t header) head ∙ w.starts) (ground (arith, same, w.small))
        (ground (arith, length-append raw more, same, w.sized))
      ∙ rw (
        same,
        take-append_length (declared raw) raw more (sym w.sized),
        drop-append_length (declared raw) raw more (sym w.sized),
        h,
      )

-- The bytes of a list of frames, one behind the other.
abbrev pub wire : List (List ℕ × Frame) → List ℕ
wire [] = []
wire ((raw, f) ∷ fs) = raw ++ wire fs

-- Each is a valid frame of the appliance beside its encoding.
abbrev pub AreEncoded : List ℕ → List (List ℕ × Frame) → Type 0
AreEncoded mac [] = Unit
AreEncoded mac ((raw, f) ∷ fs) =
    (IsFrame f × (encode f ≡ ok raw) × (f.mac ≡ mac)) × AreEncoded mac fs

-- The chunks in turn, as the connection's reader feeds them.
unfoldable pub feed_all :
    FrameStream → List (List ℕ) → Result ProtocolError (List (List ℕ × Frame) × FrameStream)
feed_all s [] = ok ([], s)
feed_all s (x ∷ xs) = feed s x >>= λ r. feed_all r.1 xs >>= λ q. ok (r.0 ++ q.0, q.1)

encoded-decodes :
    (mac raw : List ℕ) (f : Frame)
    → IsFrame f
    → encode f ≡ ok raw
    → f.mac ≡ mac
    → decode raw (some mac) ≡ ok f
encoded-decodes mac raw f v e m =
    let (raw', e', _, d) = decode-encode f v in
    let same : raw' ≡ raw = cc (sym e' ∙ e) in rw (sym m, sym same) d

module _ (mac : List ℕ) where
  cut-wire :
      (fs : List (List ℕ × Frame)) → AreEncoded mac fs → cut (some mac) (wire fs) ≡ ok (fs, [])
  cut-wire [] v = cut_short (some mac) [] (ground arith)
  cut-wire ((raw, f) ∷ fs) ((a, e, m), v) =
      cut-frame (some mac) raw (wire fs) f (encoded-decodes mac raw f a e m)
      ∙ ap (attach ((raw, f) ∷ [])) (cut-wire fs v)

  abbrev pub fresh : FrameStream
  fresh = record { buffer = []; expected_mac = some mac }

  feed-wire :
      (fs : List (List ℕ × Frame)) → AreEncoded mac fs → feed fresh (wire fs) ≡ ok (fs, fresh)
  feed-wire fs v =
      feed-cut fresh (wire fs)
      ∙ ap (λ (m : Result ProtocolError Cut). m >>= λ c. ok (keep fresh c)) (cut-wire fs v)

bind_nil :
    (m : Result ProtocolError (List (List ℕ × Frame) × FrameStream))
    → (m >>= λ r. ok (r.0 ++ [], r.1)) ≡ m
bind_nil (ok r) = rw append-nil
bind_nil (err e) = refl

-- Feeding all the chunks is feeding their bytes at once, as soon as there is a chunk.
feed_all-concat :
    (s : FrameStream) (x : List ℕ) (xs : List (List ℕ))
    → feed_all s (x ∷ xs) ≡ feed s (x ++ concat xs)
unfolding feed_all
feed_all-concat s x [] = bind_nil (feed s x) ∙ ap (feed s) (sym (append-nil x))
feed_all-concat s x (y ∷ ys) =
    ap
      (λ (k : List (List ℕ × Frame) × FrameStream
          → Result ProtocolError (List (List ℕ × Frame) × FrameStream)).
        feed s x >>= k)
      (fun_ext λ r.
        ap
          (λ (m : Result ProtocolError (List (List ℕ × Frame) × FrameStream)).
            m >>= λ q. ok (r.0 ++ q.0, q.1))
          (feed_all-concat r.1 y ys))
    ∙ sym (feed-append s x (y ++ concat ys))

-- A connection's reader that expects this appliance gets back every frame that was encoded for it,
-- in order and with nothing left over, however the bytes are cut into chunks.
pub feed_all-wire :
    (mac : List ℕ) (fs : List (List ℕ × Frame)) (chunks : List (List ℕ))
    → AreEncoded mac fs
    → concat chunks ≡ wire fs
    → feed_all (fresh mac) chunks ≡ ok (fs, fresh mac)
feed_all-wire mac fs (x ∷ xs) v e =
    feed_all-concat (fresh mac) x xs ∙ ap (feed (fresh mac)) e ∙ feed-wire mac fs v
feed_all-wire mac [] [] v e = unfold feed_all in refl
feed_all-wire mac ((raw, f) ∷ fs) [] v e =
    let ((a, enc, m), _) = v in
    let w : IsWhole raw = decode-IsWhole raw (some mac) f (encoded-decodes mac raw f a enc m) in
    absurd (omega (arith, ap (length {A = ℕ}) e, length-append raw (wire fs), w.long))
