-- ===== src/Ts/Demux/Outputs.antt =====
-- ts/demux.go: `servicePacket`, the packets that a service's output gets.
use mahiron.Base.{
  ℕ, ◌+◌, ◌%◌, bit_and, bit_or, Bool, ◌||◌, length, set, ◌==◌, ◌/=◌, if◌then◌else◌, Option, none,
  some,
}
use mahiron.Base.Result.{Result, ok, ◌>>=◌, index}
use mahiron.Base.Assoc.{lookup, insert}
use mahiron.Base.Members.{mem}
use mahiron.Ts.Packet.{Packet, pid}
use mahiron.Ts.Demux.{
  DemuxProgram, DemuxServiceOutput, Demuxer, common_service_pid, rebuild_pat_output, output_or_new,
  rebuild_pat,
}
use mahiron.Ts.Demux.Observe.{unusable}

-- The packet of the PAT that is next, with the output's own continuity counter.
unfoldable pub pat_packet : DemuxServiceOutput → Result (DemuxServiceOutput × Option Packet)
pat_packet output = if length output.pat_packets == 0 then ok (output, none) else (do
  result ← index output.pat_packets output.pat_index
  b ← index result 3
  ok (
    record output {
      pat_index = (output.pat_index + 1) % length output.pat_packets;
      pat_counter = bit_and (output.pat_counter + 1) 0x0f;
    },
    some (set result 3 (bit_or (bit_and b 0xf0) (bit_and output.pat_counter 0x0f))),
  ))

unfoldable pub belongs : Demuxer → DemuxProgram → ℕ → Bool
belongs d program id =
    common_service_pid id || (id == program.pmt_pid || (mem id program.pids || mem id d.cat_emm))

unfoldable pub program_packet :
    ℕ
    → DemuxServiceOutput
    → DemuxProgram
    → Packet
    → Demuxer
    → Result (DemuxServiceOutput × Option Packet)
program_packet service output program p d = do
  output' ←
      if output.generation /= d.pat_generation
      then rebuild_pat_output d.pat d.pat_generation service output
      else ok output
  id ← pid p
  if id == 0x00
      then pat_packet output'
      else ok (output', if belongs d program id then some p else none)

unfoldable pub service_packet :
    ℕ → DemuxServiceOutput → Packet → Demuxer → Result (DemuxServiceOutput × Option Packet)
service_packet service output p d = do
  bad ← unusable p
  if bad then ok (output, none) else elim (lookup service d.programs) [
    | none ↦ ok (output, none)
    | some program ↦ program_packet service output program p d
  ]

-- `serviceOutput`: the shared output of a service is made when it is first asked for.
unfoldable pub service_output : ℕ → Demuxer → Result Demuxer
service_output service d = elim (lookup service d.services) [
  | none ↦
      rebuild_pat service (record d { services = insert service (output_or_new none) d.services })
  | some output ↦ ok d
]

-- `ServicePacket`, with the shared output.
unfoldable pub shared_service_packet : ℕ → Packet → Demuxer → Result (Demuxer × Option Packet)
shared_service_packet service p d = do
  d' ← service_output service d
  (output, emitted) ← service_packet service (output_or_new (lookup service d'.services)) p d'
  ok (record d' { services = insert service output d'.services }, emitted)
