-- ===== src/Protocol/Frame/Canonical.antt =====
-- `encode` after `decode`.
use alorair_home_assistant.Base.{
  ℕ, zero, suc, ◌+◌, ◌-◌, ◌%◌, ◌^◌, ◌≤◌, ◌<◌, ◌≡◌, refl, sym, ap, ◌∙◌, List, [], ◌∷◌, ◌++◌, All,
  All-take, All-drop, length, get_or, take, drop, slice, Bool-cases, inl, inr, bytes_eq,
  bytes_eq→eq, true, not-false, ltb-false, Option, some, ltb, ok, arith, take-append-drop,
  length-take, length-drop,
}
use alorair_home_assistant.Protocol.Bytes.{
  IsByte, to_bytes, from_bytes, sum, to_bytes-from_bytes_2, to_bytes-from_bytes_4,
}
use alorair_home_assistant.Protocol.Frame.{Frame, encode, decode, prefix, header, trailer, IsFrame}
use alorair_home_assistant.Protocol.Frame.Parts.{
  decode_parts_lem, cut, Accepted, decode_parts-Accepted,
}

three : (ys : List ℕ) → length ys ≡ 3 → (a : ℕ) × (b : ℕ) × (c : ℕ) × (ys ≡ a ∷ b ∷ c ∷ [])
three (a ∷ b ∷ c ∷ []) h = (a, b, c, refl)
three _ h = absurd (omega arith)

-- A body whose header and length are right is what `encode` writes for the frame cut out of it.
prefix-cut :
    (p : List ℕ)
    → bytes_eq (take 8 p) header ≡ true
    → length p ≡ 26 + from_bytes (slice 18 20 p)
    → All IsByte p
    → prefix (cut p) ≡ p
prefix-cut
      (x0 ∷ x1 ∷ x2 ∷ x3 ∷ x4 ∷ x5 ∷ x6 ∷ x7 ∷ m0 ∷ m1 ∷ m2 ∷ m3 ∷ m4 ∷ m5 ∷ t0 ∷ t1 ∷ t2 ∷ t3 ∷ n0
        ∷ n1 ∷ fn ∷ op ∷ r0 ∷ r1 ∷ r2 ∷ r3 ∷ rest)
      starts sized bytes =
    let head : x0 ∷ x1 ∷ x2 ∷ x3 ∷ x4 ∷ x5 ∷ x6 ∷ x7 ∷ [] ≡ header = bytes_eq→eq _ header starts in
    let time : to_bytes 4 (from_bytes (t0 ∷ t1 ∷ t2 ∷ t3 ∷ [])) ≡ t0 ∷ t1 ∷ t2 ∷ t3 ∷ [] =
      to_bytes-from_bytes_4 t0 t1 t2 t3 (omega arith) (omega arith) (omega arith) (omega arith) in
    let size : to_bytes 2 (length rest) ≡ n0 ∷ n1 ∷ [] =
      ap (to_bytes 2) (omega arith) ∙ to_bytes-from_bytes_2 n0 n1 (omega arith) (omega arith) in
    ap
      (λ (h : List ℕ).
        h ++ after (to_bytes 4 (from_bytes (t0 ∷ t1 ∷ t2 ∷ t3 ∷ []))) (to_bytes 2 (length rest)))
      (sym head)
    ∙ ap
        (λ (t : List ℕ).
          (x0 ∷ x1 ∷ x2 ∷ x3 ∷ x4 ∷ x5 ∷ x6 ∷ x7 ∷ []) ++ after t (to_bytes 2 (length rest)))
        time
    ∙ ap
        (λ (n : List ℕ).
          (x0 ∷ x1 ∷ x2 ∷ x3 ∷ x4 ∷ x5 ∷ x6 ∷ x7 ∷ []) ++ after (t0 ∷ t1 ∷ t2 ∷ t3 ∷ []) n)
        size
  where
    after : List ℕ → List ℕ → List ℕ
    after t n =
        (m0 ∷ m1 ∷ m2 ∷ m3 ∷ m4 ∷ m5 ∷ []) ++ (t ++ (n ++ (fn ∷ op ∷ r0 ∷ r1 ∷ r2 ∷ r3 ∷ rest)))
prefix-cut _ starts sized bytes = absurd (omega arith)

from_bytes_4-bound : (xs : List ℕ) → length xs ≡ 4 → All IsByte xs → from_bytes xs < 2 ^ 32
from_bytes_4-bound (a ∷ b ∷ c ∷ d ∷ []) h bytes = omega arith
from_bytes_4-bound _ h bytes = absurd (omega arith)

All-get_or : (xs : List ℕ) (i : ℕ) → All IsByte xs → IsByte (get_or xs i 0)
All-get_or [] i h = omega arith
All-get_or (x ∷ xs) zero h = h.0
All-get_or (x ∷ xs) (suc i) h = All-get_or xs i h.1

All-slice : (i j : ℕ) (xs : List ℕ) → All IsByte xs → All IsByte (slice i j xs)
All-slice i j xs h = All-take IsByte (j - i) (drop i xs) (All-drop IsByte i xs h)

length-slice : (i j : ℕ) (xs : List ℕ) → i ≤ j → j ≤ length xs → length (slice i j xs) ≡ j - i
length-slice i j xs h k = length-take (j - i) (drop i xs) ∙ omega (arith, length-drop i xs)

cut-IsFrame :
    (p : List ℕ)
    → from_bytes (slice 18 20 p) ≤ 256
    → length p ≡ 26 + from_bytes (slice 18 20 p)
    → All IsByte p
    → IsFrame (cut p)
cut-IsFrame p bounded sized bytes = record {
  mac_length = length-slice 8 14 p (omega arith) (omega arith);
  reserved_length = length-slice 22 26 p (omega arith) (omega arith);
  payload_bound = omega (arith, length-drop 26 p);
  timestamp_bound =
      from_bytes_4-bound (slice 14 18 p) (length-slice 14 18 p (omega arith) (omega arith))
        (All-slice 14 18 p bytes);
  function_byte = All-get_or p 20 bytes;
  opcode_byte = All-get_or p 21 bytes;
  mac_bytes = All-slice 8 14 p bytes;
  payload_bytes = All-drop IsByte 26 p bytes;
  reserved_bytes = All-slice 22 26 p bytes;
}

-- An accepted text is a body and three bytes, and these pass the tests.
decode-long :
    (raw : List ℕ) (expected : Option (List ℕ)) (f : Frame)
    → decode raw expected ≡ ok f
    → 29 ≤ length raw
unfolding decode
decode-long raw expected f h = elim (Bool-cases (ltb (length raw) 29)) [
  | inl short ↦ cc (rw short at h)
  | inr long ↦ ltb-false _ _ long
]

pub decode-Accepted :
    (raw : List ℕ) (expected : Option (List ℕ)) (f : Frame)
    → decode raw expected ≡ ok f
    → (p : List ℕ) × (c₁ : ℕ) × (c₂ : ℕ) × (t : ℕ) × (raw ≡ p ++ (c₁ ∷ c₂ ∷ t ∷ []))
      × Accepted p (from_bytes (c₁ ∷ c₂ ∷ [])) t expected f
decode-Accepted raw expected f h =
    let n : ℕ = length raw - 3 in
    let p : List ℕ = take n raw in
    let long : 29 ≤ length raw = decode-long raw expected f h in
    let (c₁, c₂, t, e) = three (drop n raw) (length-drop n raw ∙ omega arith) in
    let split : raw ≡ p ++ (c₁ ∷ c₂ ∷ t ∷ []) =
      sym (take-append-drop n raw) ∙ ap (λ (ys : List ℕ). p ++ ys) e in
    let body : decode (p ++ (c₁ ∷ c₂ ∷ t ∷ [])) expected ≡ ok f =
      sym (ap (λ (ys : List ℕ). decode ys expected) split) ∙ h in
    (
      p,
      c₁,
      c₂,
      t,
      split,
      decode_parts-Accepted p _ t expected f
          (sym (decode_parts_lem p c₁ c₂ t (omega (arith, length-take n raw)) expected) ∙ body),
    )

All-append : (xs ys : List ℕ) → All IsByte (xs ++ ys) → All IsByte xs × All IsByte ys
All-append [] ys h = (tt, h)
All-append (x ∷ xs) ys h = let (a, b) = All-append xs ys h.1 in ((h.0, a), b)

encode-wire : (f : Frame) → IsFrame f → encode f ≡ ok (prefix f ++ trailer (prefix f))
unfolding encode
encode-wire f v = ground arith

-- Bytes that are decoded are exactly what `encode` writes for the frame that was read, and that
-- frame is well formed: a frame has one form on the wire.
pub encode-decode :
    (raw : List ℕ) (expected : Option (List ℕ)) (f : Frame)
    → All IsByte raw
    → decode raw expected ≡ ok f
    → IsFrame f × (encode f ≡ ok raw)
encode-decode raw expected f bytes h =
    let (p, c₁, c₂, t, split, a) = decode-Accepted raw expected f h in
    let (in_body, in_tail) = All-append p _ (rw split at bytes) in
    let v : IsFrame (cut p) = cut-IsFrame p a.bounded a.sized in_body in
    let whole : prefix (cut p) ≡ p = prefix-cut p a.starts a.sized in_body in
    let check : to_bytes 2 (sum p % 2 ^ 16) ≡ c₁ ∷ c₂ ∷ [] =
      ap (to_bytes 2) a.summed ∙ to_bytes-from_bytes_2 c₁ c₂ (omega arith) (omega arith) in
    let wire : encode (cut p) ≡ ok (p ++ trailer p) =
      encode-wire (cut p) v ∙ ap (λ (q : List ℕ). ok (q ++ trailer q)) whole in
    rw (a.same) (
      v,
      wire
          ∙ ap (λ (q : List ℕ). ok (p ++ (q ++ (0x16 ∷ [])))) check
          ∙ ap (λ (q : ℕ). ok (p ++ (c₁ ∷ c₂ ∷ q ∷ []))) (sym a.ended)
          ∙ ap ok (sym split),
    )

-- A reader that expects an appliance returns frames of that appliance alone.
pub decode-mac : (raw mac : List ℕ) (f : Frame) → decode raw (some mac) ≡ ok f → f.mac ≡ mac
decode-mac raw mac f h =
    let (p, c₁, c₂, t, split, a) = decode-Accepted raw (some mac) f h in
    rw (a.same) (bytes_eq→eq _ mac (not-false _ a.selected))
