-- ===== src/Protocol/Tests.antt =====
-- The theorems on frames and streams at concrete bytes.
use alorair_home_assistant.Base.{
  ℕ, ◌<◌, ◌≡◌, refl, List, [], ◌∷◌, ◌++◌, take, drop, none, some, ok, err, ◌>>=◌, ◌≢◌, true, arith,
  All,
}
use alorair_home_assistant.Protocol.Bytes.{IsByte}
use alorair_home_assistant.Protocol.Frame.{
  Frame, IsFrame, ProtocolError, decode, encode, prefix, trailer,
}
use alorair_home_assistant.Protocol.Frame.RoundTrip.{decode-encode}
use alorair_home_assistant.Protocol.Frame.Canonical.{encode-decode, decode-mac}
use alorair_home_assistant.Protocol.Stream.{feed, cut_frames}
use alorair_home_assistant.Protocol.Stream.Feed.{feed-append, feed-buffer, feed-checks}
use alorair_home_assistant.Protocol.Stream.Reassembly.{feed_all, feed_all-wire, fresh}
use alorair_home_assistant.Protocol.Command.{
  humidity_command, humidity_target, keepalive_response, power_command, temperature_command,
}
use alorair_home_assistant.Protocol.Command.Echo.{Reads, commands_read}
use alorair_home_assistant.Base.Value.{Value}

abbrev mac : List ℕ
mac = 1 ∷ 2 ∷ 3 ∷ 4 ∷ 5 ∷ 6 ∷ []

abbrev answer : Frame
answer = record {
  mac = mac;
  timestamp = 1700000000;
  function = 9;
  opcode = 1;
  payload = 0 ∷ [];
  reserved = 0 ∷ 0 ∷ 0 ∷ 0 ∷ [];
}

answer-IsFrame : IsFrame answer
answer-IsFrame = record {
  mac_length = refl;
  reserved_length = refl;
  payload_bound = omega arith;
  timestamp_bound = omega arith;
  function_byte = omega arith;
  opcode_byte = omega arith;
  mac_bytes = ground arith;
  reserved_bytes = ground arith;
  payload_bytes = ground arith;
}

abbrev raw : List ℕ
raw = prefix answer ++ trailer (prefix answer)

raw-decodes : decode raw (some mac) ≡ ok answer
unfolding decode
raw-decodes = refl

decode-encode_example :
    (r : List ℕ) × (encode answer ≡ ok r)
    × (decode r none ≡ ok answer)
    × (decode r (some mac) ≡ ok answer)
decode-encode_example = decode-encode answer answer-IsFrame

raw_bytes : All IsByte raw
raw_bytes = ground arith

encode-decode_example : IsFrame answer × (encode answer ≡ ok raw)
encode-decode_example = encode-decode raw (some mac) answer raw_bytes raw-decodes

decode-mac_example : answer.mac ≡ mac
decode-mac_example = decode-mac raw mac answer raw-decodes

encodes : encode answer ≡ ok raw
unfolding encode
encodes = refl

-- Two answers in three chunks.
feed_all-wire_example :
    feed_all (fresh mac) ((0x0d ∷ 0x0e ∷ []) ∷ (drop 2 raw ++ take 7 raw) ∷ drop 7 raw ∷ [])
    ≡ ok ((raw, answer) ∷ (raw, answer) ∷ [], fresh mac)
feed_all-wire_example =
    feed_all-wire mac ((raw, answer) ∷ (raw, answer) ∷ []) _
      ((answer-IsFrame, encodes, refl), ((answer-IsFrame, encodes, refl), tt)) refl

feed-append_example :
    feed (fresh mac) (take 9 raw ++ drop 9 raw)
    ≡ (feed (fresh mac) (take 9 raw) >>= λ r. feed r.1 (drop 9 raw) >>= λ q. ok (r.0 ++ q.0, q.1))
feed-append_example = feed-append (fresh mac) (take 9 raw) (drop 9 raw)

feed-checks_example :
    (feed (fresh mac) raw ≢ err ProtocolError.out_of_fuel)
    × (feed (fresh mac) raw ≢ err ProtocolError.unbounded_partial)
feed-checks_example = feed-checks (fresh mac) raw

feed_9 :
    feed (fresh mac) (take 9 raw) ≡ ok ([], record { buffer = take 9 raw; expected_mac = some mac })
unfolding feed cut_frames
feed_9 = refl

feed-buffer_example : 9 < 285
feed-buffer_example =
    feed-buffer (fresh mac) (record { buffer = take 9 raw; expected_mac = some mac }) (take 9 raw)
      [] feed_9

target_55 : humidity_target (Value.int 55) ≡ some 55
unfolding humidity_target
target_55 = refl

mac_bytes : All IsByte mac
mac_bytes = ground arith

commands_read_example :
    Reads mac 0x21 1 (power_command mac (Value.bool true) 1700000000) 1700000000
    × Reads mac 0x24 1 (temperature_command mac (Value.bool true) 1700000000) 1700000000
    × Reads mac 0x23 55 (humidity_command mac (Value.int 55) 1700000000) 1700000000
    × Reads mac 0x01 0 (keepalive_response mac 1700000000) 1700000000
commands_read_example =
    commands_read mac 1700000000 true (Value.int 55) 55 refl mac_bytes (omega arith) target_55
