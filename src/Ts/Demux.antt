-- ===== src/Ts/Demux.antt =====
-- ts/demux.go: the demultiplexer, which follows the program tables of a stream and cuts out services.
-- A map into `bool` is the list of its keys. Where Go ranges over a map, in an order that the runtime
-- chooses, the model takes the order of the list. A pointer into a map is written back under its key.
pub mod Observe
pub mod Packets
pub mod Outputs
pub mod Usable
pub mod Service
pub mod Programs
mod Examples
pub mod RoundTrip
use mahiron.Base.{
  ℕ, zero, suc, ◌+◌, ◌-◌, ◌*◌, ◌/◌, ◌%◌, ◌^◌, bit_and, bit_or, Bool, true, false, not, ◌&&◌, ◌||◌,
  List, [], ◌∷◌, ◌++◌, length, take, drop, replicate, map, ltb, leb, ◌==◌, ◌/=◌, if◌then◌else◌,
  Option, none, some,
}
use mahiron.Base.Result.{Result, ok, err, panic, stuck, ◌>>=◌, index, slice, or_else}
use mahiron.Base.Assoc.{Map, lookup, insert, remove, has}
use mahiron.Base.Members.{mem}
use mahiron.Ts.Words.{Bytes, be16}
use mahiron.Ts.TableId
use mahiron.Ts.Packet.{
  Packet, packet_size, sync_byte, transport_error_indicator, is_null, valid_payload_offset, pid,
}
use mahiron.Ts.Section.{Section, table_id, total_length, validate_crc}
use mahiron.Ts.Assembler.{SectionAssembler, new_section_assembler, feed_all}
use mahiron.Ts.Descriptors.{Descriptor, tag, descriptor_data, parse_descriptors}
use mahiron.Ts.Pat.{Pat, parse_pat, build_pat_section}
use mahiron.Ts.Pmt.{Pmt, PmtElement, parse_pmt}
use mahiron.Ts.SectionSet.{TableSectionSet, empty_set, attempt, add, ordered}

pub record DemuxProgram : Type 0 where
  pub pmt_pid : ℕ
  pub pids : List ℕ
  pub section_pids : List ℕ

pub record DemuxServiceOutput : Type 0 where
  pub generation : ℕ
  pub pat_counter : ℕ
  pub pat_index : ℕ
  pub pat_packets : List Packet

pub record Demuxer : Type 0 where
  pub assemblers : Map SectionAssembler
  pub cat_emm : List ℕ
  pub cat_sections : TableSectionSet
  pub pat : Option Pat
  pub pat_generation : ℕ
  pub pat_sections : TableSectionSet
  pub pmt_by_pid : Map ℕ
  pub section_pids : List ℕ
  pub programs : Map DemuxProgram
  pub services : Map DemuxServiceOutput

pub record PidSection : Type 0 where
  pub pid : ℕ
  pub section : Section

abbrev pub new_output : DemuxServiceOutput
new_output = record { generation = 0; pat_counter = 0; pat_index = 0; pat_packets = [] }

unfoldable pub new_demuxer : Demuxer
new_demuxer = record {
  assemblers = [];
  cat_emm = [];
  cat_sections = empty_set;
  pat = none;
  pat_generation = 0;
  pat_sections = empty_set;
  pmt_by_pid = [];
  section_pids = [];
  programs = [];
  services = [];
}

-- The PIDs 0x10 to 0x14, 0x1e, 0x1f, 0x23, 0x24 and 0x29 of the network, and 1 of the CAT.
unfoldable pub common_service_pid : ℕ → Bool
common_service_pid id =
    mem id (0x01 ∷ 0x10 ∷ 0x11 ∷ 0x12 ∷ 0x13 ∷ 0x14 ∷ 0x1e ∷ 0x1f ∷ 0x23 ∷ 0x24 ∷ 0x29 ∷ [])

unfoldable pub should_assemble : Demuxer → ℕ → Bool
should_assemble d id =
    mem id (0x00 ∷ 0x01 ∷ 0x10 ∷ 0x11 ∷ 0x12 ∷ 0x14 ∷ 0x23 ∷ 0x24 ∷ 0x29 ∷ [])
    || (has id d.pmt_by_pid || mem id d.section_pids)

unfoldable pub ca_pid : Descriptor → Result (Option ℕ)
ca_pid desc = do
  body ← descriptor_data desc
  if ltb (length body) 4
      then ok none
      else (do hi ← index body 2; lo ← index body 3; ok (some (be16 (bit_and hi 0x1f) lo)))

-- The PIDs of the conditional-access descriptors of a loop, added to a set.
unfoldable pub ca_pids : List Descriptor → List ℕ → Result (List ℕ)
ca_pids [] pids = ok pids
ca_pids (desc ∷ rest) pids = do
  id ← tag desc
  found ← if id == 0x09 then ca_pid desc else ok none
  ca_pids rest (elim found [ none ↦ pids | some p ↦ p ∷ pids ])

-- `for serviceID, pmtPID := range a.Programs`, where a missing entry reads as 0.
unfoldable pub same_programs : Map ℕ → Map ℕ → Bool
same_programs [] b = true
same_programs ((service, pmt_pid) ∷ rest) b =
    not (elim (lookup service b) [ none ↦ 0 | some p ↦ p ] /= pmt_pid) && same_programs rest b

unfoldable pub same_pat : Option Pat → Pat → Bool
same_pat none b = false
same_pat (some a) b =
    not (
      a.transport_stream_id /= b.transport_stream_id
      || (a.version_number /= b.version_number
          || (a.network_pid /= b.network_pid || length a.programs /= length b.programs)))
    && same_programs a.programs b.programs

-- One packet of `packetizeSection`: a section that starts has a pointer byte, 0xff fills the end.
unfoldable pub packet_of : ℕ → ℕ → Bool → Bytes → Packet
packet_of id counter first bytes =
    let start = if first then 0 ∷ [] else [] in
    let chunk = take (packet_size - 4 - length start) bytes in
    sync_byte
    ∷ bit_or (id / 2 ^ 8 % 256) (if first then 0x40 else 0)
    ∷ (id % 256)
    ∷ bit_or 0x10 (bit_and counter 0x0f)
    ∷ (start ++ chunk ++ replicate (packet_size - 4 - length start - length chunk) 0xff)

unfoldable pub packetize_loop : ℕ → ℕ → ℕ → Bool → Bytes → Result (List Packet)
packetize_loop zero id counter first remaining = stuck
packetize_loop (suc fuel) id counter first remaining =
    if not first && length remaining == 0 then ok [] else (do
      rest ←
          packetize_loop fuel id (bit_and (counter + 1) 0x0f) false
            (drop (if first then 183 else 184) remaining)
      ok (packet_of id counter first remaining ∷ rest))

-- A packet takes a byte of the section at least, the first one also if there is none.
unfoldable pub packetize_section : ℕ → Section → ℕ → Result (List Packet)
packetize_section id section counter =
    packetize_loop (suc (suc (length section))) id counter true section

-- The PAT packets of a service. An error of `BuildPATSection` is a panic of this method.
abbrev or_panic {ℓ} : {A : Type ℓ} → Result A → Result A
or_panic (ok a) = ok a
or_panic (err e) = panic
or_panic panic = panic
or_panic stuck = stuck

unfoldable pub rebuild_pat_output :
    Option Pat → ℕ → ℕ → DemuxServiceOutput → Result DemuxServiceOutput
rebuild_pat_output none generation service output = ok output
rebuild_pat_output (some p) generation service output = elim (lookup service p.programs) [
  | none ↦ ok output
  | some pmt_pid ↦ do
    section ← or_panic (build_pat_section p.transport_stream_id service pmt_pid p.version_number)
    packets ← packetize_section 0x00 section 0
    ok (record output { pat_packets = packets; pat_index = 0; generation = generation })
]

abbrev output_or_new : Option DemuxServiceOutput → DemuxServiceOutput
output_or_new none = new_output
output_or_new (some output) = output

unfoldable pub advertises : Option Pat → ℕ → Bool
advertises none service = false
advertises (some p) service = has service p.programs

unfoldable pub rebuild_pat : ℕ → Demuxer → Result Demuxer
rebuild_pat service d = if not (advertises d.pat service) then ok d else (do
  output ←
      rebuild_pat_output d.pat d.pat_generation service (output_or_new (lookup service d.services))
  ok (record d { services = insert service output d.services }))
