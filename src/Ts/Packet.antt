-- ===== src/Ts/Packet.antt =====
-- ts/packet.go: the header fields of a transport-stream packet and its payload. The slices of Go
-- are values here; an index out of range is `panic`.
pub mod Fields
pub mod Total
use mahiron.Base.{
  ℕ, ◌+◌, ◌*◌, ◌/◌, ◌^◌, Bool, false, not, ◌||◌, bit_and, bit_or, [], length, ltb, leb, ◌==◌,
  if◌then◌else◌, Option, none, some,
}
use mahiron.Base.Result.{Result, ok, ◌>>=◌, index, slice, or_else, and_then}
use mahiron.Ts.Words.{Bytes, be13_at, flag}

abbrev pub packet_size : ℕ
packet_size = 188

abbrev pub sync_byte : ℕ
sync_byte = 0x47

abbrev pub Packet : Type 0
Packet = Bytes

unfoldable pub transport_error_indicator : Packet → Result Bool
transport_error_indicator p = do b ← index p 1; ok (flag b 0x80)

unfoldable pub payload_unit_start_indicator : Packet → Result Bool
payload_unit_start_indicator p = do b ← index p 1; ok (flag b 0x40)

unfoldable pub priority : Packet → Result Bool
priority p = do b ← index p 1; ok (flag b 0x20)

unfoldable pub pid : Packet → Result ℕ
pid p = be13_at p 1

-- `(p[3]>>4)&0x03`
abbrev pub adaptation_control : ℕ → ℕ
adaptation_control b = bit_and (b / 2 ^ 4) 0x03

unfoldable pub has_adaptation_field : Packet → Result Bool
has_adaptation_field p = do b ← index p 3; ok (leb 2 (adaptation_control b))

unfoldable pub has_payload : Packet → Result Bool
has_payload p = do b ← index p 3; ok (adaptation_control b == 1 || adaptation_control b == 3)

unfoldable pub continuity_counter : Packet → Result ℕ
continuity_counter p = do b ← index p 3; ok (bit_and b 0x0f)

unfoldable pub adaptation_field_length : Packet → Result ℕ
adaptation_field_length p = do
  none_left ← or_else (ltb (length p) packet_size) (do a ← has_adaptation_field p; ok (not a))
  if none_left then ok 0 else index p 4

unfoldable pub discontinuity_indicator : Packet → Result Bool
discontinuity_indicator p = and_then (leb packet_size (length p)) (do
  a ← has_adaptation_field p
  and_then a
      (do n ← adaptation_field_length p; and_then (leb 1 n) (do b ← index p 5; ok (flag b 0x80))))

unfoldable pub payload_offset : Packet → Result ℕ
payload_offset p = do
  a ← has_adaptation_field p
  if not a then ok 4 else (do n ← adaptation_field_length p; ok (5 + n))

unfoldable pub valid_payload_offset : Packet → Result Bool
valid_payload_offset p = if ltb (length p) packet_size then ok false else (do
  a ← has_adaptation_field p
  beyond ← and_then a (do off ← payload_offset p; ok (ltb packet_size off))
  ok (not beyond))

-- A nil slice and an empty one are both `[]`: the callers only test the length.
unfoldable pub payload : Packet → Result Bytes
payload p = do
  has ← has_payload p
  bare ← or_else (not has) (do v ← valid_payload_offset p; ok (not v))
  if bare then ok [] else (do off ← payload_offset p; slice p off (length p))

unfoldable pub is_null : Packet → Result Bool
is_null p = do n ← pid p; ok (n == 0x1fff)

unfoldable pub pcr_base : ℕ → ℕ → ℕ → ℕ → ℕ → ℕ
pcr_base b6 b7 b8 b9 b10 =
    bit_or (bit_or (bit_or (bit_or (b6 * 2 ^ 25) (b7 * 2 ^ 17)) (b8 * 2 ^ 9)) (b9 * 2 ^ 1))
      (b10 / 2 ^ 7)

-- The 33-bit base and the 9-bit extension; `none` for the third result `false`.
unfoldable pub program_clock_reference : Packet → Result (Option (ℕ × ℕ))
program_clock_reference p = do
  absent ← or_else (ltb (length p) packet_size) (do
    a ← has_adaptation_field p
    or_else (not a) (do
      n ← adaptation_field_length p
      or_else (ltb n 7) (do b ← index p 5; ok (not (flag b 0x10)))))
  if absent then ok none else (do
    b6 ← index p 6
    b7 ← index p 7
    b8 ← index p 8
    b9 ← index p 9
    b10 ← index p 10
    b11 ← index p 11
    ok (some (pcr_base b6 b7 b8 b9 b10, bit_or (bit_and b10 1 * 2 ^ 8) b11)))
