-- ===== src/Ts/Packet/Fields.antt =====
-- What the accessors of ts/packet.go return on a whole packet, in plain arithmetic.
use mahiron.Base.{
  ℕ, ◌+◌, ◌*◌, ◌/◌, ◌%◌, ◌^◌, ◌<◌, ◌≤◌, ◌≡◌, refl, ap, ◌∙◌, true, false, ◌||◌, bit_and, bit_or, [],
  length, drop, ltb, leb, leb→le, ◌&&◌, ◌==◌, if◌then◌else◌, Option, none, some, arith, Bool-cases,
  inl, inr, length-drop, drop_of_length-le, take_of_length-le,
}
use mahiron.Base.Bits.{and_03, or_fields, and_01}
use mahiron.Base.Result.{ok, index, slice, index-eq_ok, slice-eq_ok}
use mahiron.Ts.Words.{Bytes, IsBytes, at, at-IsByte, be13_at, be13, be13_lt, flag}
use mahiron.Ts.Packet.{
  packet_size, Packet, adaptation_control, pid, has_adaptation_field, has_payload,
  adaptation_field_length, payload_offset, valid_payload_offset, payload, program_clock_reference,
  pcr_base,
}

-- The payload as ISO/IEC 13818-1 defines it: by the two bits of adaptation_field_control, and
-- behind the adaptation field where there is one.
unfoldable pub payload_of : Packet → Bytes
payload_of p =
    let control = at p 3 / 16 % 4 in
    if control == 1 then drop 4 p else if control == 3 then drop (5 + at p 4) p else []

-- `p[3]>>4 & 3`, the two bits that say what follows the header.
abbrev pub control : Packet → ℕ
control p = adaptation_control (at p 3)

module _ (p : Packet) (whole : packet_size ≤ length p) where
  at_3 : index p 3 ≡ ok (at p 3)
  at_3 = index-eq_ok p 3 0 (omega arith)

  at_4 : index p 4 ≡ ok (at p 4)
  at_4 = index-eq_ok p 4 0 (omega arith)

  short : ltb (length p) packet_size ≡ false
  short = ground arith

  pub has_payload-eq : has_payload p ≡ ok (control p == 1 || control p == 3)
  unfolding has_payload
  has_payload-eq = rw at_3

  pub has_adaptation-eq : has_adaptation_field p ≡ ok (leb 2 (control p))
  unfolding has_adaptation_field
  has_adaptation-eq = rw at_3

  pub adaptation_length-eq :
      adaptation_field_length p ≡ ok (if leb 2 (control p) then at p 4 else 0)
  unfolding adaptation_field_length
  adaptation_length-eq = ground (arith, has_adaptation-eq, at_4)

  pub payload_offset-eq : payload_offset p ≡ ok (if leb 2 (control p) then 5 + at p 4 else 4)
  unfolding payload_offset
  payload_offset-eq = ground (arith, has_adaptation-eq, adaptation_length-eq)

  pub valid-eq :
      valid_payload_offset p ≡ ok (if leb 2 (control p) then leb (5 + at p 4) 188 else true)
  unfolding valid_payload_offset
  valid-eq = ground (arith, has_adaptation-eq, payload_offset-eq)

module _ (p : Packet) (exact : length p ≡ packet_size) where
  tail : (lo : ℕ) → lo ≤ packet_size → slice p lo (length p) ≡ ok (drop lo p)
  tail lo h =
      slice-eq_ok p lo (length p) (omega arith) (omega arith)
      ∙ ap ok (take_of_length-le _ _ (omega (arith, length-drop lo p)))

  payload-eq :
      payload p
      ≡ ok (if control p == 1 then drop 4 p else if control p == 3 then drop (5 + at p 4) p else [])
  unfolding payload
  payload-eq =
      let whole : packet_size ≤ length p = omega arith in
      ground (
        arith,
        has_payload-eq p whole,
        valid-eq p whole,
        payload_offset-eq p whole,
        tail 4 (omega arith),
        tail (5 + at p 4),
        drop_of_length-le (5 + at p 4) p,
      )

-- On a packet of 188 bytes `Payload` never panics, and returns what follows the header and the
-- adaptation field as the two control bits say: nothing for 0 and 2, and for a length that points
-- behind the packet.
pub payload-eq-payload_of :
    (p : Packet) → length p ≡ packet_size → IsBytes p → payload p ≡ ok (payload_of p)
unfolding payload_of
payload-eq-payload_of p whole bytes =
    let e : adaptation_control (at p 3) ≡ at p 3 / 16 % 4 =
      and_03 (at p 3 / 16) (omega (arith, at-IsByte p 3 bytes)) in
    payload-eq p whole
    ∙ ap (λ c. ok (if c == 1 then drop 4 p else if c == 3 then drop (5 + at p 4) p else [])) e

pcr_base-eq :
    (a b c d e : ℕ)
    → b < 256
    → c < 256
    → d < 256
    → e < 256
    → pcr_base a b c d e ≡ a * 2 ^ 25 + b * 2 ^ 17 + c * 2 ^ 9 + d * 2 + e / 128
unfolding pcr_base
pcr_base-eq a b c d e hb hc hd he =
    let s₁ : bit_or (a * 2 ^ 25) (b * 2 ^ 17) ≡ (a * 256 + b) * 2 ^ 17 =
      omega (arith, or_fields 25 a (b * 2 ^ 17) (omega arith)) in
    let s₂ : bit_or ((a * 256 + b) * 2 ^ 17) (c * 2 ^ 9) ≡ ((a * 256 + b) * 256 + c) * 2 ^ 9 =
      omega (arith, or_fields 17 (a * 256 + b) (c * 2 ^ 9) (omega arith)) in
    let s₃ : bit_or (((a * 256 + b) * 256 + c) * 2 ^ 9) (d * 2 ^ 1)
        ≡ (((a * 256 + b) * 256 + c) * 256 + d) * 2 ^ 1 =
      omega (arith, or_fields 9 ((a * 256 + b) * 256 + c) (d * 2 ^ 1) (omega arith)) in
    rw s₁ (
      rw s₂ (
        rw s₃ (
          omega
            (arith, or_fields 1 (((a * 256 + b) * 256 + c) * 256 + d) (e / 2 ^ 7) (omega arith)))))

-- Base and extension of a clock reference fit their 33 and 9 bits.
abbrev pub FitsClock : Option (ℕ × ℕ) → Type 0
FitsClock none = Unit
FitsClock (some (base, extension)) = (base < 2 ^ 33) × (extension < 2 ^ 9)

-- The reference that the packet carries: one, if an adaptation field of 7 bytes or more has its
-- PCR flag set.
clock_of : Packet → Option (ℕ × ℕ)
clock_of p =
    if leb packet_size (length p) && (leb 2 (control p) && (leb 7 (at p 4) && flag (at p 5) 0x10))
    then some (
      pcr_base (at p 6) (at p 7) (at p 8) (at p 9) (at p 10),
      bit_or (bit_and (at p 10) 1 * 2 ^ 8) (at p 11),
    )
    else none

pcr_reads : (p : Packet) → packet_size ≤ length p → program_clock_reference p ≡ ok (clock_of p)
unfolding program_clock_reference clock_of
pcr_reads p whole = ground (
  arith,
  has_adaptation-eq p whole,
  adaptation_length-eq p whole,
  index-eq_ok p 5 0 (omega arith),
  index-eq_ok p 6 0 (omega arith),
  index-eq_ok p 7 0 (omega arith),
  index-eq_ok p 8 0 (omega arith),
  index-eq_ok p 9 0 (omega arith),
  index-eq_ok p 10 0 (omega arith),
  index-eq_ok p 11 0 (omega arith),
)

pcr_short : (p : Packet) → length p < packet_size → program_clock_reference p ≡ ok none
unfolding program_clock_reference
pcr_short p h = ground arith

clock_of-FitsClock : (p : Packet) → IsBytes p → FitsClock (clock_of p)
unfolding clock_of
clock_of-FitsClock p bytes =
    let base =
      pcr_base-eq (at p 6) (at p 7) (at p 8) (at p 9) (at p 10) (at-IsByte p 7 bytes)
        (at-IsByte p 8 bytes) (at-IsByte p 9 bytes) (at-IsByte p 10 bytes) in
    ground (
      arith,
      base,
      at-IsByte p 6 bytes,
      at-IsByte p 7 bytes,
      at-IsByte p 8 bytes,
      at-IsByte p 9 bytes,
      at-IsByte p 10 bytes,
      at-IsByte p 11 bytes,
      and_01 (at p 10) (at-IsByte p 10 bytes),
      or_fields 8 (bit_and (at p 10) 1) (at p 11) (at-IsByte p 11 bytes),
    )

-- `ProgramClockReference` never panics, on byte strings of any length, and a reference that it
-- returns fits 33 and 9 bits.
pub program_clock_reference-FitsClock :
    (p : Packet)
    → IsBytes p
    → (r : Option (ℕ × ℕ)) × (program_clock_reference p ≡ ok r) × FitsClock r
program_clock_reference-FitsClock p bytes = elim (Bool-cases (leb packet_size (length p))) [
  | inl whole ↦ (clock_of p, pcr_reads p (leb→le _ _ whole), clock_of-FitsClock p bytes)
  | inr cut ↦ (none, pcr_short p (ground arith), tt)
]

-- A packet identifier has 13 bits, and is read without a panic from any 3 bytes.
pub pid-Returns : (p : Packet) → IsBytes p → 3 ≤ length p → (n : ℕ) × (pid p ≡ ok n) × (n < 8192)
unfolding pid be13_at
pid-Returns p bytes h = (
  be13 (at p 1) (at p 2),
  rw (index-eq_ok p 1 0 (omega arith)) (rw (index-eq_ok p 2 0 (omega arith)) refl),
  be13_lt _ _ (at-IsByte p 2 bytes),
)
