-- ===== src/Protocol/Frame.antt =====
-- `Frame`, its `encode` and its `decode`.
mod Parts
pub mod RoundTrip
pub mod Canonical
use alorair_home_assistant.Base.{
  ℕ, ◌+◌, ◌-◌, ◌*◌, ◌/◌, ◌%◌, ◌^◌, ◌≤◌, ◌<◌, ◌≡◌, List, [], ◌∷◌, ◌++◌, All, length, get_or, take,
  slice, bytes_eq, Bool, not, ◌&&◌, ◌||◌, Option, none, some, ltb, leb, ◌==◌, if◌then◌else◌, Result,
  ok, err, raise_if, ◌>>=◌, ◌>>◌,
}
use alorair_home_assistant.Protocol.Bytes.{IsByte, to_bytes, from_bytes, sum}

abbrev pub magic : List ℕ
magic = 0x0d ∷ 0x0e ∷ []

-- `MAGIC + bytes(6)`
abbrev pub header : List ℕ
header = magic ++ (0 ∷ 0 ∷ 0 ∷ 0 ∷ 0 ∷ 0 ∷ [])

abbrev pub max_data : ℕ
max_data = 256

pub record Frame : Type 0 where
  pub mac : List ℕ
  pub timestamp : ℕ
  pub function : ℕ
  pub opcode : ℕ
  pub payload : List ℕ
  pub reserved : List ℕ

-- The `ValueError`s, named for their messages. `byte_range` is the one of `bytes`, and
-- `out_of_fuel` is raised by no code: it marks the end of a loop's fuel.
pub data ProtocolError : Type 0 where
  invalid_identity exceeds_bounds byte_range : ProtocolError
  invalid_header invalid_length invalid_checksum unexpected_identity : ProtocolError
  unexpected_stream_header frame_too_large unbounded_partial partial_at_end : ProtocolError
  not_boolean bad_target not_status unknown_display : ProtocolError
  out_of_fuel : ProtocolError

-- What `encode` writes before the checksum.
abbrev pub prefix : Frame → List ℕ
prefix f =
    header
    ++ (f.mac
        ++ (to_bytes 4 f.timestamp
            ++ (to_bytes 2 (length f.payload)
                ++ (f.function ∷ f.opcode ∷ (f.reserved ++ f.payload)))))

-- `sum(prefix) & 0xFFFF` in two bytes, and the terminator.
abbrev pub trailer : List ℕ → List ℕ
trailer body = to_bytes 2 (sum body % 2 ^ 16) ++ (0x16 ∷ [])

unfoldable pub encode : Frame → Result ProtocolError (List ℕ)
encode f = do
  raise_if (not (length f.mac == 6) || not (length f.reserved == 4)) invalid_identity
  raise_if (ltb max_data (length f.payload) || not (leb f.timestamp 0xFFFFFFFF)) exceeds_bounds
  raise_if (not (ltb f.function 256 && ltb f.opcode 256)) byte_range
  ok (prefix f ++ trailer (prefix f))

-- `expected_mac is not None and raw[8:14] != expected_mac`
abbrev pub differs : Option (List ℕ) → List ℕ → Bool
differs none mac = Bool.false
differs (some expected) mac = not (bytes_eq mac expected)

unfoldable pub decode : List ℕ → Option (List ℕ) → Result ProtocolError Frame
decode raw expected = do
  raise_if (ltb (length raw) 29 || not (bytes_eq (take 8 raw) header)) invalid_header
  let data_length = from_bytes (slice 18 20 raw)
  raise_if (ltb max_data data_length || not (length raw == 29 + data_length)) invalid_length
  raise_if
      (not (get_or raw (length raw - 1) 0 == 0x16)
        || not (
            sum (take (length raw - 3) raw) % 2 ^ 16
            == from_bytes (slice (length raw - 3) (length raw - 1) raw)))
      invalid_checksum
  raise_if (differs expected (slice 8 14 raw)) unexpected_identity
  ok (record {
    mac = slice 8 14 raw;
    timestamp = from_bytes (slice 14 18 raw);
    function = get_or raw 20 0;
    opcode = get_or raw 21 0;
    payload = slice 26 (length raw - 3) raw;
    reserved = slice 22 26 raw;
  })

-- A frame that `encode` can write: fields of the right size, within the bounds, made of bytes.
pub record IsFrame (f : Frame) : Type 0 where
  pub mac_length : length f.mac ≡ 6
  pub reserved_length : length f.reserved ≡ 4
  pub payload_bound : length f.payload ≤ max_data
  pub timestamp_bound : f.timestamp < 2 ^ 32
  pub function_byte : f.function < 256
  pub opcode_byte : f.opcode < 256
  pub mac_bytes : All IsByte f.mac
  pub payload_bytes : All IsByte f.payload
  pub reserved_bytes : All IsByte f.reserved
