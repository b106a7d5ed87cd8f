-- ===== src/Ts/Demux/RoundTrip.antt =====
-- The PAT that an output of a service emits, read by a receiver.
use mahiron.Base.{
  ℕ, ◌+◌, ◌/◌, ◌^◌, ◌<◌, ◌≤◌, ◌≡◌, refl, ◌∙◌, bit_and, bit_or, false, [], ◌∷◌, ltb, some, arith,
}
use mahiron.Base.Bits.{or_fields, and_0f}
use mahiron.Base.Result.{ok, index}
use mahiron.Base.Assoc.{lookup}
use mahiron.Ts.Packet.{Packet, adaptation_control}
use mahiron.Ts.Section.{Section}
use mahiron.Ts.Assembler.{SectionAssembler, new_section_assembler, feed_all}
use mahiron.Ts.Assembler.Single.{IsReadable, single_packet, feed_all-single}
use mahiron.Ts.Pat.{Pat, parse_pat, build_pat_section}
use mahiron.Ts.Pat.RoundTrip.{built, built-total, built_valid, single_program, parse_pat-built}
use mahiron.Ts.Demux.{
  DemuxServiceOutput, packet_of, packetize_loop, packetize_section, rebuild_pat_output,
}
use mahiron.Ts.Demux.Outputs.{pat_packet}

module _ (tsid sid pid version : ℕ) where
  built-IsReadable : IsReadable (built tsid sid pid version)
  built-IsReadable = record {
    whole = (built-total tsid sid pid version, built_valid tsid sid pid version);
    long = omega arith;
    first = refl;
  }

  -- The section takes one packet.
  packetize-built :
      packetize_section 0 (built tsid sid pid version) 0
      ≡ ok (single_packet (built tsid sid pid version) 167 0x10 ∷ [])
  unfolding packetize_section packetize_loop packet_of
  packetize-built = refl

-- The fourth byte, with a counter.
numbered_byte : ℕ → ℕ
numbered_byte counter = bit_or (bit_and 0x10 0xf0) (bit_and counter 0x0f)

numbered-plain : (counter : ℕ) → counter < 16 → adaptation_control (numbered_byte counter) ≡ 1
unfolding numbered_byte
numbered-plain counter h =
    let e : bit_and counter 0x0f ≡ counter = and_0f counter (omega arith) ∙ omega arith in
    let f : bit_or 0x10 counter ≡ 16 + counter = or_fields 4 1 counter (omega arith) in
    rw e (rw f (let one : (16 + counter) / 2 ^ 4 ≡ 1 = omega arith in rw one refl))

-- The way of a PAT from the demultiplexer to a receiver.
pub record Delivers (p : Pat) (generation service pmt_pid : ℕ) (output : DemuxServiceOutput)
    : Type 0 where
  pub renewed : DemuxServiceOutput
  pub emitted : DemuxServiceOutput
  pub packet : Packet
  pub receiver : SectionAssembler
  pub section : Section
  pub rebuilt : rebuild_pat_output (some p) generation service output ≡ ok renewed
  pub sent : pat_packet renewed ≡ ok (emitted, some packet)
  pub received : feed_all (new_section_assembler 0) packet ≡ ok (receiver, section ∷ [])
  pub read :
      parse_pat section ≡ ok (single_program p.transport_stream_id service pmt_pid p.version_number)

-- A service of the current PAT, with identifiers of 16 bits, a PID of 13 and a version of 5 bits: the PAT
-- packet that its output emits after a change gives a receiver one section, and `ParsePAT` reads from it
-- the identifiers of the stream and this service alone, with its PID.
pub service_pat-Delivers :
    (p : Pat) (generation service pmt_pid : ℕ) (output : DemuxServiceOutput)
    → p.transport_stream_id < 65536
    → service < 65536
    → pmt_pid ≤ 0x1fff
    → p.version_number < 32
    → output.pat_counter < 16
    → lookup service p.programs ≡ some pmt_pid
    → Delivers p generation service pmt_pid output
service_pat-Delivers p generation service pmt_pid output ht hs hp hv low known =
    let s = built p.transport_stream_id service pmt_pid p.version_number in
    let readable = built-IsReadable p.transport_stream_id service pmt_pid p.version_number in
    let fits : ltb 0x1fff pmt_pid ≡ false = ground arith in
    let (receiver, fed) =
      feed_all-single s 167 readable (numbered_byte output.pat_counter)
        (numbered-plain output.pat_counter low) refl in
    record {
      renewed = record output {
        pat_packets = single_packet s 167 0x10 ∷ [];
        pat_index = 0;
        generation = generation;
      };
      emitted = record output {
        pat_packets = single_packet s 167 0x10 ∷ [];
        pat_index = 0;
        generation = generation;
        pat_counter = bit_and (output.pat_counter + 1) 0x0f;
      };
      packet = single_packet s 167 (numbered_byte output.pat_counter);
      receiver = receiver;
      section = s;
      rebuilt =
          unfold rebuild_pat_output build_pat_section in
          rw (known, rebuild_pat_output)
            (rw fits
              (rw (packetize-built p.transport_stream_id service pmt_pid p.version_number) refl));
      sent = unfold pat_packet index numbered_byte in refl;
      received = fed;
      read = parse_pat-built p.transport_stream_id service pmt_pid p.version_number ht hs hp hv;
    }
