-- ===== src/Protocol/Frame/Parts.antt =====
-- `decode` as a test of the body and of the three bytes behind it.
use alorair_home_assistant.Base.{
  ℕ, ◌+◌, ◌-◌, ◌%◌, ◌^◌, ◌≤◌, ◌≡◌, refl, sym, ap, List, [], ◌∷◌, ◌++◌, length, get_or, take, drop,
  slice, bytes_eq, Bool, not-false, or_false, ltb-false, ==-true, true, false, not, ◌||◌, Option,
  ltb, ◌==◌, Result, ok, raise_if, ◌>>◌, arith, length-append, length-drop, take-append_le,
  take-append_length, drop-append_length, drop-append_le, slice-append_le, get_or-append_lt,
  get_or-append_length,
}
use alorair_home_assistant.Protocol.Bytes.{from_bytes, sum}
use alorair_home_assistant.Protocol.Frame.{
  Frame, ProtocolError, invalid_header, invalid_length, invalid_checksum, unexpected_identity,
  decode, differs, header, max_data,
}

-- `decode` on a body and a trailer that are apart.
abbrev pub decode_parts : List ℕ → ℕ → ℕ → Option (List ℕ) → Result ProtocolError Frame
decode_parts p check t expected = do
  raise_if (not (bytes_eq (take 8 p) header)) invalid_header
  let n = from_bytes (slice 18 20 p)
  raise_if (ltb max_data n || not (length p == 26 + n)) invalid_length
  raise_if (not (t == 0x16) || not (sum p % 2 ^ 16 == check)) invalid_checksum
  raise_if (differs expected (slice 8 14 p)) unexpected_identity
  ok (record {
    mac = slice 8 14 p;
    timestamp = from_bytes (slice 14 18 p);
    function = get_or p 20 0;
    opcode = get_or p 21 0;
    payload = drop 26 p;
    reserved = slice 22 26 p;
  })

shift_header : (n m : ℕ) → (n + 3 == 29 + m) ≡ (n == 26 + m)
shift_header n m = ground arith

module _ (p : List ℕ) (c₁ c₂ t : ℕ) (h : 26 ≤ length p) where
  pub decode_parts_lem :
      (expected : Option (List ℕ))
      → decode (p ++ (c₁ ∷ c₂ ∷ t ∷ [])) expected
        ≡ decode_parts p (from_bytes (c₁ ∷ c₂ ∷ [])) t expected
  unfolding decode
  decode_parts_lem expected =
      let q : List ℕ = c₁ ∷ c₂ ∷ t ∷ [] in
      let n : ℕ = length p in
      let long : length (p ++ q) ≡ n + 3 = length-append p q in
      let back₁ : n + 3 - 1 ≡ n + 2 = omega arith in
      let back₃ : n + 3 - 3 ≡ n = omega arith in
      let short : ltb (n + 3) 29 ≡ false = ground arith in
      let head : take 8 (p ++ q) ≡ take 8 p = take-append_le 8 p q (omega arith) in
      let mac_part : slice 8 14 (p ++ q) ≡ slice 8 14 p =
        slice-append_le 8 14 p q (omega arith) (omega arith) in
      let time_part : slice 14 18 (p ++ q) ≡ slice 14 18 p =
        slice-append_le 14 18 p q (omega arith) (omega arith) in
      let size_part : slice 18 20 (p ++ q) ≡ slice 18 20 p =
        slice-append_le 18 20 p q (omega arith) (omega arith) in
      let reserved_part : slice 22 26 (p ++ q) ≡ slice 22 26 p =
        slice-append_le 22 26 p q (omega arith) (omega arith) in
      let function_part : get_or (p ++ q) 20 0 ≡ get_or p 20 0 =
        get_or-append_lt p q 20 0 (omega arith) in
      let opcode_part : get_or (p ++ q) 21 0 ≡ get_or p 21 0 =
        get_or-append_lt p q 21 0 (omega arith) in
      let end_part : get_or (p ++ q) (n + 2) 0 ≡ t = get_or-append_length p q 2 (n + 2) 0 refl in
      let body : take n (p ++ q) ≡ p = take-append_length n p q refl in
      let check : slice n (n + 2) (p ++ q) ≡ c₁ ∷ c₂ ∷ [] =
        rw (drop-append_length n p q refl)
          (ap (λ (k : ℕ). take k q) (let two : n + 2 - n ≡ 2 = omega arith in two)) in
      let data_part : slice 26 n (p ++ q) ≡ drop 26 p =
        rw (drop-append_le 26 p q h)
          (take-append_length (n - 26) (drop 26 p) q (sym (length-drop 26 p))) in
      rw (
        long,
        back₁,
        back₃,
        short,
        head,
        size_part,
        mac_part,
        time_part,
        reserved_part,
        function_part,
        opcode_part,
        end_part,
        body,
        check,
        data_part,
        shift_header n,
      )

-- The fields as `decode` cuts them out of a body.
abbrev pub cut : List ℕ → Frame
cut p = record {
  mac = slice 8 14 p;
  timestamp = from_bytes (slice 14 18 p);
  function = get_or p 20 0;
  opcode = get_or p 21 0;
  payload = drop 26 p;
  reserved = slice 22 26 p;
}

-- What a body and a trailer meet when they are decoded.
pub record Accepted (p : List ℕ) (check t : ℕ) (expected : Option (List ℕ)) (f : Frame)
    : Type 0 where
  pub starts : bytes_eq (take 8 p) header ≡ true
  pub bounded : from_bytes (slice 18 20 p) ≤ 256
  pub sized : length p ≡ 26 + from_bytes (slice 18 20 p)
  pub ended : t ≡ 0x16
  pub summed : sum p % 2 ^ 16 ≡ check
  pub selected : differs expected (slice 8 14 p) ≡ false
  pub same : f ≡ cut p

pub gates :
    (a b c d : Bool) (w x y z : ProtocolError) (f g : Frame)
    → (raise_if a w >> (raise_if b x >> (raise_if c y >> (raise_if d z >> ok f)))) ≡ ok g
    → (a ≡ false) × (b ≡ false) × (c ≡ false) × (d ≡ false) × (f ≡ g)
gates a b c d w x y z f g h = ground arith

pub decode_parts-Accepted :
    (p : List ℕ) (check t : ℕ) (expected : Option (List ℕ)) (f : Frame)
    → decode_parts p check t expected ≡ ok f
    → Accepted p check t expected f
decode_parts-Accepted p check t expected f h =
    let (g₁, g₂, g₃, g₄, same) = gates _ _ _ _ _ _ _ _ _ f h in
    record {
      starts = not-false _ g₁;
      bounded = ltb-false _ _ (or_false _ _ g₂).0;
      sized = ==-true _ _ (not-false _ (or_false _ _ g₂).1);
      ended = ==-true _ _ (not-false _ (or_false _ _ g₃).0);
      summed = ==-true _ _ (not-false _ (or_false _ _ g₃).1);
      selected = g₄;
      same = sym same;
    }
