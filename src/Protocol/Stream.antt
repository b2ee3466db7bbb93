-- ===== src/Protocol/Stream.antt =====
-- `FrameStream`: frames cut out of a byte stream by their declared length.
pub mod Chunks
pub mod Feed
pub mod Reassembly
use alorair_home_assistant.Base.{
  ℕ, zero, suc, ◌+◌, List, [], ◌∷◌, ◌++◌, length, take, drop, slice, bytes_eq, not, Option, ltb,
  if◌then◌else◌, Result, ok, err, raise_if, ◌>>=◌, ◌>>◌,
}
use alorair_home_assistant.Protocol.Bytes.{from_bytes}
use alorair_home_assistant.Protocol.Frame.{
  Frame, ProtocolError, unexpected_stream_header, frame_too_large, unbounded_partial,
  partial_at_end, out_of_fuel, decode, header, max_data,
}

pub record FrameStream : Type 0 where
  pub buffer : List ℕ
  pub expected_mac : Option (List ℕ)

-- The frames that a call found, each with its bytes, and what is left in the buffer.
abbrev pub Cut : Type 0
Cut = List (List ℕ × Frame) × List ℕ

abbrev pub attach : List (List ℕ × Frame) → Result ProtocolError Cut → Result ProtocolError Cut
attach fs m = m >>= λ c. ok (fs ++ c.0, c.1)

-- The size that the buffer's first frame declares.
abbrev pub declared : List ℕ → ℕ
declared buffer = 29 + from_bytes (slice 18 20 buffer)

-- The `while` loop of `feed`, on fuel. Each round takes at least 29 bytes away.
unfoldable pub cut_frames : ℕ → Option (List ℕ) → List ℕ → Result ProtocolError Cut
cut_frames zero mac buffer = err out_of_fuel
cut_frames (suc fuel) mac buffer =
    let raw = take (declared buffer) buffer in
    let rest = cut_frames fuel mac (drop (declared buffer) buffer) in
    if ltb (length buffer) 20
    then ok ([], buffer)
    else if not (bytes_eq (take 8 buffer) header)
    then err unexpected_stream_header
    else if ltb (max_data + 29) (declared buffer)
    then err frame_too_large
    else if ltb (length buffer) (declared buffer)
    then ok ([], buffer)
    else (decode raw mac >>= λ f. attach ((raw, f) ∷ []) rest)

unfoldable pub feed :
    FrameStream → List ℕ → Result ProtocolError (List (List ℕ × Frame) × FrameStream)
unfolding cut_frames
feed s chunk = do
  let buffer = s.buffer ++ chunk
  c ← cut_frames (suc (length buffer)) s.expected_mac buffer
  raise_if (ltb (max_data + 29) (length c.1)) unbounded_partial
  ok (c.0, record s { buffer = c.1 })

unfoldable pub finish : FrameStream → Result ProtocolError (Unit {0})
finish s = raise_if (ltb 0 (length s.buffer)) partial_at_end
