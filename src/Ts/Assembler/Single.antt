-- ===== src/Ts/Assembler/Single.antt =====
-- A section in one packet: a new assembler gives it back.
use mahiron.Base.{
  ℕ, zero, suc, ◌+◌, ◌<◌, ◌≤◌, ◌≡◌, refl, ap, ap₂, ◌∙◌, bit_and, true, false, List, [], ◌∷◌, ◌++◌,
  length, take, replicate, ltb, ◌==◌, arith, Bool-cases, inl, inr, length-append,
  take-append_length, drop-append_length, get_or-append_lt, ==-eq_false,
}
use mahiron.Base.Result.{ok, index, index-eq_ok, slice, slice-eq_ok}
use mahiron.Ts.Words.{Bytes, at, be12, be13_at, be13, be16}
use mahiron.Ts.Packet.{
  Packet, adaptation_control, pid, transport_error_indicator, payload_unit_start_indicator,
  has_payload, has_adaptation_field, payload_offset, valid_payload_offset, continuity_counter,
  payload,
}
use mahiron.Ts.Section.{Section}
use mahiron.Ts.Section.Checks.{total, validate_crc-eq}
use mahiron.Ts.Assembler.{
  SectionAssembler, new_section_assembler, keep_valid, consume_loop, consume_payload, reset,
  start_unit, feed_payload, feed_all,
}
use mahiron.Ts.Assembler.Sound.{IsWhole, total_of-eq, rest_of}

-- A section that the assembler reads where it stands, and does not take for filling.
pub record IsReadable (s : Section) : Type 0 where
  pub whole : IsWhole s
  pub long : 3 ≤ length s
  pub first : (at s 0 == 0xff) ≡ false

abbrev pub filling : ℕ → Bytes
filling n = replicate n 0xff

consume_filling :
    (fuel n : ℕ) (sa : SectionAssembler) (sections : List Section)
    → consume_loop (suc fuel) sa sections (filling n) ≡ ok (sa, sections)
unfolding consume_loop index
consume_filling fuel zero sa sections = refl
consume_filling fuel (suc n) sa sections = elim (Bool-cases (ltb (suc (length (filling n))) 3)) [
  | inl e ↦ rw e refl
  | inr e ↦ rw e refl
]

consume_filling_of :
    (fuel n : ℕ) (sa : SectionAssembler) (sections : List Section)
    → 0 < fuel
    → consume_loop fuel sa sections (filling n) ≡ ok (sa, sections)
consume_filling_of zero n sa sections h = absurd (omega arith)
consume_filling_of (suc fuel) n sa sections h = consume_filling fuel n sa sections

abbrev pub padded : Section → ℕ → Bytes
padded s n = s ++ filling n

-- The packet: PID 0, a start, a payload and no adaptation field.
abbrev pub single_packet : Section → ℕ → ℕ → Packet
single_packet s n b = 0x47 ∷ 0x40 ∷ 0 ∷ b ∷ 0 ∷ padded s n

module _ (s : Section) (n : ℕ) (r : IsReadable s) where
  padded-length : length s ≤ length (padded s n)
  padded-length = omega (arith, length-append s (filling n))

  padded-total : total (padded s n) ≡ length s
  unfolding total
  padded-total =
      ap₂ (λ hi lo. 3 + be12 hi lo)
        (get_or-append_lt s (filling n) 1 0 (let l = r.long in omega arith))
        (get_or-append_lt s (filling n) 2 0 (let l = r.long in omega arith))
      ∙ r.whole.0

  consume_payload-single :
      (sa : SectionAssembler) → consume_payload sa (padded s n) ≡ ok (sa, s ∷ [])
  unfolding consume_payload consume_loop keep_valid
  consume_payload-single sa =
      let long = r.long in
      let more = padded-length in
      let few : ltb (length (padded s n)) 3 ≡ false = ground arith in
      let first : at (padded s n) 0 ≡ at s 0 = get_or-append_lt s (filling n) 0 0 (omega arith) in
      let fits : ltb (length (padded s n)) (length s) ≡ false = ground arith in
      let three : ltb (length s) 3 ≡ false = ground arith in
      let at_cut : slice (padded s n) 0 (length s) ≡ ok s =
        slice-eq_ok (padded s n) 0 (length s) (omega arith) more
        ∙ ap (λ k. ok (take k (padded s n))) (omega arith)
        ∙ ap ok (take-append_length s (filling n) (length s) refl) in
      let behind : slice (padded s n) (length s) (length (padded s n)) ≡ ok (filling n) =
        rest_of (padded s n) (length s) more
        ∙ ap ok (drop-append_length s (filling n) (length s) refl) in
      rw (few, consume_loop)
        (rw (index-eq_ok (padded s n) 0 0 (omega arith)) (
          rw first (
            rw r.first (
              rw (total_of-eq (padded s n) (omega arith)) (
                rw padded-total (
                  rw three (
                    rw fits (
                      rw at_cut (
                        rw (validate_crc-eq s) (
                          rw r.whole.1 (
                            rw behind (
                              consume_filling_of (length (padded s n)) n sa (s ∷ [])
                                (omega arith)))))))))))))

  start_unit-single :
      (sa : SectionAssembler)
      → sa.buffer ≡ []
      → start_unit sa (0 ∷ padded s n) ≡ ok (reset sa, s ∷ [])
  unfolding start_unit
  start_unit-single sa empty =
      let behind : slice (0 ∷ padded s n) 1 (suc (length (padded s n))) ≡ ok (padded s n) =
        rest_of (0 ∷ padded s n) 1 (omega arith) in
      let head : slice (padded s n) 0 0 ≡ ok [] =
        slice-eq_ok (padded s n) 0 0 (omega arith) (omega arith) in
      let whole : slice (padded s n) 0 (length (padded s n)) ≡ ok (padded s n) =
        rest_of (padded s n) 0 (omega arith) in
      let none_less : ltb (length (padded s n)) 0 ≡ false = ground arith in
      unfold index in
      rw behind
        (rw none_less (rw head (rw empty (rw whole (rw (consume_payload-single (reset sa)) refl)))))

  module _ (b : ℕ) (plain : adaptation_control b ≡ 1) (full : length (padded s n) ≡ 183) where
    payload-single : payload (single_packet s n b) ≡ ok (0 ∷ padded s n)
    unfolding payload has_payload valid_payload_offset has_adaptation_field payload_offset index
    payload-single = rw plain (
        rw full (
          ap (slice (single_packet s n b) 4) (omega (arith, full))
          ∙ rest_of (single_packet s n b) 4 (omega arith)))

    has_payload-single : has_payload (single_packet s n b) ≡ ok true
    unfolding has_payload index
    has_payload-single = rw plain refl

    -- A whole section that fits into one packet and is no filling is what a new assembler of PID 0
    -- returns for the packet, and it is the only one.
    pub feed_all-single :
        (sa : SectionAssembler) × (feed_all (new_section_assembler 0) (single_packet s n b)
          ≡ ok (sa, s ∷ []))
    unfolding feed_all feed_payload pid be13_at be13 be16 transport_error_indicator
        payload_unit_start_indicator continuity_counter index
    feed_all-single = (
      reset (record (new_section_assembler 0) { last_counter = bit_and b 0x0f }),
      rw has_payload-single (
          rw payload-single (
            let filled : (suc (length (padded s n)) == 0) ≡ false = ==-eq_false _ _ (omega arith) in
            rw filled (
              start_unit-single (record (new_section_assembler 0) { last_counter = bit_and b 0x0f })
                refl))),
    )
