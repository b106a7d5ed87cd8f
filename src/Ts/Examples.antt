-- ===== src/Ts/Examples.antt =====
-- Runs of the code of ts/ at concrete packets, sections and descriptors.
use mahiron.Base.{
  ◌*◌, ◌^◌, ◌<◌, ℕ, ◌≡◌, ◌↔◌, refl, List, [], ◌∷◌, ◌++◌, length, concat, replicate, All, Option,
  if◌then◌else◌, ◌==◌, arith, some, ◌+◌,
}
use mahiron.Base.Result.{ok, err, Error, Returns, Ends, ◌>>=◌, index, slice}
use mahiron.Ts.Words.{IsBytes, be13_at, be13, be12_at, be12, be16}
use mahiron.Ts.Packet.{
  Packet, pid, transport_error_indicator, has_payload, payload, payload_offset,
  valid_payload_offset, has_adaptation_field, adaptation_field_length, continuity_counter,
  payload_unit_start_indicator, program_clock_reference,
}
use mahiron.Ts.Packet.Fields.{
  payload_of, payload-eq-payload_of, FitsClock, program_clock_reference-FitsClock,
}
use mahiron.Ts.Crc.{crc32_mpeg2, crc_bytes, crc_from, crc_byte, crc32_mpeg2_table, crc_rounds}
use mahiron.Ts.Crc.Laws.{crc32_mpeg2-append_self}
use mahiron.Ts.Section.{Section, validate_crc, total_length, section_length}
use mahiron.Ts.Assembler.{
  new_section_assembler, feed_all, feed_payload, start_unit, complete_sections, complete_loop,
  consume_payload, consume_loop, total_of, keep_valid,
}
use mahiron.Ts.Assembler.Sound.{IsWhole, feed_all-IsWhole}
use mahiron.Ts.Descriptors.{Descriptor, parse_descriptors, parse_descriptors_strict}
use mahiron.Ts.Descriptors.Bodies.{
  parse_data_component_descriptor, parse_bxml_info, parse_service_list_descriptor,
  parse_terrestrial_delivery_system_descriptor,
}
use mahiron.Ts.Descriptors.Bodies.Total.{bodies-Returns}
use mahiron.Ts.DsmccStream.{
  DsmccGeneralEvent, parse_dsmcc_general_event, parse_dsmcc_npt_reference, event_message_npt,
}
use mahiron.Ts.DsmccStream.Events.{FitsNpt, events-Return}
use mahiron.Ts.Descriptors.Loops.{
  Split, IsDescriptor, parse_descriptors-Split, parse_descriptors_strict_iff,
}
use mahiron.Ts.Pat.{parse_pat, build_pat_section}
use mahiron.Ts.Pat.RoundTrip.{parse_pat-build_pat_section}
use mahiron.Ts.Pmt.{parse_pmt}
use mahiron.Ts.Sdt.{parse_sdt}
use mahiron.Ts.Nit.{parse_nit}
use mahiron.Ts.DsmccStream.{parse_dsmcc_stream}
use mahiron.Ts.Parsers.{parsers-Ends}

-- A PAT with one program.
abbrev pat_section : Section
pat_section = 0 ∷ 176 ∷ 13 ∷ 18 ∷ 52 ∷ 199 ∷ 0 ∷ 0 ∷ 4 ∷ 1 ∷ 225 ∷ 35 ∷ 157 ∷ 148 ∷ 250 ∷ 137 ∷ []

-- It in a packet of PID 0 with a payload that starts a unit, filled up with 0xff.
abbrev pat_packet : Packet
pat_packet = 0x47 ∷ 0x40 ∷ 0x00 ∷ 0x15 ∷ 0x00 ∷ (pat_section ++ replicate 167 0xff)

-- A packet of 188 bytes that has only an adaptation field with a clock reference.
abbrev clock_packet : Packet
clock_packet =
    0x47
    ∷ 0x01
    ∷ 0x00
    ∷ 0x20
    ∷ 183
    ∷ 0x10
    ∷ 0x12
    ∷ 0x34
    ∷ 0x56
    ∷ 0x78
    ∷ 0xfe
    ∷ 0x11
    ∷ replicate 176 0xff

abbrev two_descriptors : List Descriptor
two_descriptors = (0x48 ∷ 2 ∷ 7 ∷ 9 ∷ []) ∷ (0xcf ∷ 0 ∷ []) ∷ []

clock_packet-IsBytes : IsBytes clock_packet
clock_packet-IsBytes = ground arith

pat_packet-IsBytes : IsBytes pat_packet
pat_packet-IsBytes = ground arith

feed_all-IsWhole_example :
    Returns (λ r. All IsWhole r.1) (feed_all (new_section_assembler 0) pat_packet)
feed_all-IsWhole_example = feed_all-IsWhole (new_section_assembler 0) pat_packet (omega arith)

-- The packet yields its section.
feed_all_run :
    (feed_all (new_section_assembler 0) pat_packet >>= λ r. ok r.1) ≡ ok (pat_section ∷ [])
unfolding feed_all pid be13_at be13 transport_error_indicator has_payload payload payload_offset
    valid_payload_offset has_adaptation_field adaptation_field_length continuity_counter
    payload_unit_start_indicator feed_payload start_unit complete_sections complete_loop
    consume_payload consume_loop total_of be12_at be12 keep_valid validate_crc total_length
    section_length index slice crc32_mpeg2 crc_from crc_byte crc32_mpeg2_table crc_rounds be16
feed_all_run = refl

parse_pat-build_pat_section_example :
    (s : Section) × (build_pat_section 0x1234 0x0401 0x0123 3 ≡ ok s)
    × (parse_pat s
        ≡ ok (record {
          transport_stream_id = 0x1234;
          version_number = 3;
          network_pid = 0;
          programs = (0x0401, 0x0123) ∷ [];
        }))
parse_pat-build_pat_section_example =
    parse_pat-build_pat_section 0x1234 0x0401 0x0123 3 (omega arith) (omega arith) (omega arith)
      (omega arith)

parsers-Ends_example :
    Ends (parse_pat pat_section)
    × Ends (parse_pmt pat_section)
    × Ends (parse_sdt pat_section)
    × Ends (parse_nit pat_section)
    × Ends (parse_dsmcc_stream pat_section)
parsers-Ends_example = parsers-Ends pat_section

parse_descriptors-Split_example :
    (s : Split (concat two_descriptors ++ 0x01 ∷ [])) × (parse_descriptors
        (concat two_descriptors ++ 0x01 ∷ [])
      ≡ ok s.descriptors)
    × (parse_descriptors_strict (concat two_descriptors ++ 0x01 ∷ [])
        ≡ (if length s.left == 0 then ok s.descriptors else err Error.invalid_section))
parse_descriptors-Split_example = parse_descriptors-Split (concat two_descriptors ++ 0x01 ∷ [])

parse_descriptors_strict_iff_example :
    (parse_descriptors_strict (concat two_descriptors) ≡ ok two_descriptors)
    ↔ ((concat two_descriptors ≡ concat two_descriptors) × All IsDescriptor two_descriptors)
parse_descriptors_strict_iff_example =
    parse_descriptors_strict_iff (concat two_descriptors) two_descriptors

crc32_mpeg2-append_self_example :
    crc32_mpeg2 ((0x00 ∷ 0xb0 ∷ 0x0d ∷ []) ++ crc_bytes (crc32_mpeg2 (0x00 ∷ 0xb0 ∷ 0x0d ∷ []))) ≡ 0
crc32_mpeg2-append_self_example = crc32_mpeg2-append_self (0x00 ∷ 0xb0 ∷ 0x0d ∷ [])

payload-eq-payload_of_example : payload pat_packet ≡ ok (payload_of pat_packet)
payload-eq-payload_of_example = payload-eq-payload_of pat_packet refl pat_packet-IsBytes

program_clock_reference-FitsClock_example :
    (r : Option (ℕ × ℕ)) × (program_clock_reference clock_packet ≡ ok r) × FitsClock r
program_clock_reference-FitsClock_example =
    program_clock_reference-FitsClock clock_packet clock_packet-IsBytes

-- A service list with two services.
abbrev service_list : Descriptor
service_list = 0x41 ∷ 6 ∷ 4 ∷ 1 ∷ 1 ∷ 4 ∷ 2 ∷ 1 ∷ []

bodies-Returns_example :
    Ends (parse_data_component_descriptor service_list)
    × Ends (parse_bxml_info service_list)
    × Returns (λ es. length es * 3 ≡ 6) (parse_service_list_descriptor service_list)
    × Returns
        (λ t. 2 + length t.frequencies * 2 ≡ 6)
        (parse_terrestrial_delivery_system_descriptor service_list)
bodies-Returns_example = bodies-Returns service_list service_list

-- An NPT reference descriptor, and an event of time mode 2.
abbrev npt_descriptor : Descriptor
npt_descriptor = 0x17 ∷ 18 ∷ replicate 18 1

abbrev npt_event : DsmccGeneralEvent
npt_event = record {
  event_message_group_id = 1;
  time_mode = 2;
  time_value = replicate 5 3;
  event_message_type = 0;
  event_message_id = 0;
  private_data = [];
}

events-Return_example :
    Ends (parse_dsmcc_general_event npt_descriptor)
    × Returns FitsNpt (parse_dsmcc_npt_reference npt_descriptor)
    × Returns (λ r. (n : ℕ) → r ≡ some n → n < 2 ^ 33) (event_message_npt npt_event)
events-Return_example =
    events-Return npt_descriptor npt_event (omega arith) (omega arith) (ground arith) (ground arith)
