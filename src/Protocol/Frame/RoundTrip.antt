-- ===== src/Protocol/Frame/RoundTrip.antt =====
-- `decode` after `encode`.
use alorair_home_assistant.Base.{
  ℕ, ◌+◌, ◌%◌, ◌^◌, ◌≤◌, ◌<◌, ◌≡◌, refl, ◌∙◌, List, [], ◌∷◌, ◌++◌, length, bytes_eq_refl, true,
  false, Option, none, some, ltb, ◌==◌, ok, arith, length-append,
}
use alorair_home_assistant.Protocol.Bytes.{
  to_bytes, from_bytes, sum, from_bytes-to_bytes_2, from_bytes-to_bytes_4,
}
use alorair_home_assistant.Protocol.Frame.{
  Frame, encode, decode, differs, prefix, trailer, max_data, IsFrame,
}
use alorair_home_assistant.Protocol.Frame.Parts.{decode_parts, decode_parts_lem}

==_refl : (n : ℕ) → (n == n) ≡ true
==_refl n = ground arith

-- `decode_parts` on the body that `encode` writes.
decode_parts-prefix :
    (mac reserved payload : List ℕ) (timestamp function opcode : ℕ) (expected : Option (List ℕ))
    → length mac ≡ 6
    → length reserved ≡ 4
    → length payload ≤ max_data
    → timestamp < 2 ^ 32
    → differs expected mac ≡ false
    → let f : Frame = record {
      mac = mac;
      timestamp = timestamp;
      function = function;
      opcode = opcode;
      payload = payload;
      reserved = reserved;
    } in
      decode_parts (prefix f) (from_bytes (to_bytes 2 (sum (prefix f) % 2 ^ 16))) 0x16 expected
      ≡ ok f
decode_parts-prefix (a ∷ b ∷ c ∷ d ∷ e ∷ g ∷ []) (r ∷ s ∷ t ∷ u ∷ []) payload timestamp function
      opcode expected hm hr hp ht same =
    let f : Frame = record {
      mac = a ∷ b ∷ c ∷ d ∷ e ∷ g ∷ [];
      timestamp = timestamp;
      function = function;
      opcode = opcode;
      payload = payload;
      reserved = r ∷ s ∷ t ∷ u ∷ [];
    } in
    let n : ℕ = length payload in
    let total : ℕ = sum (prefix f) in
    let size : from_bytes (to_bytes 2 n) ≡ n = from_bytes-to_bytes_2 n (omega arith) in
    let time : from_bytes (to_bytes 4 timestamp) ≡ timestamp = from_bytes-to_bytes_4 timestamp ht in
    let check : from_bytes (to_bytes 2 (total % 2 ^ 16)) ≡ total % 2 ^ 16 =
      from_bytes-to_bytes_2 (total % 2 ^ 16) (omega arith) in
    let fits : ltb 256 n ≡ false = ground arith in
    let whole : (length (prefix f) == 26 + n) ≡ true = ground arith in
    rw (check, size, time, fits, ==_refl (total % 2 ^ 16), same, whole)
decode_parts-prefix _ _ payload timestamp function opcode expected hm hr hp ht same =
    absurd (omega arith)

length-prefix :
    (f : Frame) → length (prefix f) ≡ 16 + length f.mac + length f.reserved + length f.payload
length-prefix f = omega (arith, length-append {0})

decode-wire :
    (f : Frame) (expected : Option (List ℕ))
    → IsFrame f
    → differs expected f.mac ≡ false
    → decode (prefix f ++ trailer (prefix f)) expected ≡ ok f
decode-wire f expected v same =
    decode_parts_lem (prefix f) _ _ 0x16 (rw (length-prefix f) (omega arith)) expected
    ∙ decode_parts-prefix f.mac f.reserved f.payload f.timestamp f.function f.opcode expected
        v.mac_length v.reserved_length v.payload_bound v.timestamp_bound same

-- What `encode` writes for a valid frame is decoded as that frame, by a reader that expects any
-- appliance and by one that expects this one.
pub decode-encode :
    (f : Frame)
    → IsFrame f
    → (raw : List ℕ) × (encode f ≡ ok raw)
      × (decode raw none ≡ ok f)
      × (decode raw (some f.mac) ≡ ok f)
unfolding encode
decode-encode f v = (
  prefix f ++ trailer (prefix f),
  ground arith,
  decode-wire f none v refl,
  decode-wire f (some f.mac) v (rw (bytes_eq_refl f.mac)),
)
