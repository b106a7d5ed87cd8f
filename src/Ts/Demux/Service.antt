-- ===== src/Ts/Demux/Service.antt =====
-- What an output of a service gets: the packets of the service as they are, and the service's own PAT
-- with a continuity counter of its own.
use mahiron.Base.{
  ℕ, ◌+◌, ◌%◌, ◌<◌, ◌≡◌, true, false, [], length, get_or, set, ◌==◌, Option, none, some,
}
use mahiron.Base.Result.{ok}
use mahiron.Base.Assoc.{lookup}
use mahiron.Ts.Packet.{Packet, continuity_counter}
use mahiron.Ts.Demux.{DemuxProgram, DemuxServiceOutput, Demuxer}
use mahiron.Ts.Demux.Packets.{IsOutput}
use mahiron.Base.Members.{mem}
use mahiron.Ts.Demux.Usable.{is_usable, pid_of, service_pids}

-- A packet of the service's PAT as it is stored, but for the byte of the counter, numbered by the output's
-- counter, which is then one higher modulo 16.
pub record IsNumbered (output output' : DemuxServiceOutput) (q : Packet) : Type 0 where
  pub place : ℕ
  pub byte : ℕ
  pub inside : place < length output'.pat_packets
  pub taken : q ≡ set (get_or output'.pat_packets place []) 3 byte
  pub numbered : continuity_counter q ≡ ok output.pat_counter
  pub next : output'.pat_counter ≡ (output.pat_counter + 1) % 16

abbrev Numbered : DemuxServiceOutput → DemuxServiceOutput × Option Packet → Type 0
Numbered output (output', none) = IsOutput output' × (length output'.pat_packets ≡ 0)
Numbered output (output', some q) = IsOutput output' × IsNumbered output output' q

-- What a call of `servicePacket` for the packet `p` returns.
pub data Emits (service : ℕ) (output : DemuxServiceOutput) (p : Packet) (d : Demuxer)
    : DemuxServiceOutput × Option Packet → Type 0 where
  bad_packet : is_usable p ≡ false → Emits service output p d (output, none)
  no_service :
      is_usable p ≡ true
      → lookup service d.programs ≡ none
      → Emits service output p d (output, none)
  foreign :
      {output' : DemuxServiceOutput} {program : DemuxProgram}
      → is_usable p ≡ true
      → IsOutput output'
      → output'.pat_counter ≡ output.pat_counter
      → lookup service d.programs ≡ some program
      → (pid_of p == 0) ≡ false
      → mem (pid_of p) (service_pids d program) ≡ false
      → Emits service output p d (output', none)
  passed :
      {output' : DemuxServiceOutput} {program : DemuxProgram}
      → is_usable p ≡ true
      → IsOutput output'
      → output'.pat_counter ≡ output.pat_counter
      → lookup service d.programs ≡ some program
      → (pid_of p == 0) ≡ false
      → mem (pid_of p) (service_pids d program) ≡ true
      → Emits service output p d (output', some p)
  no_pat :
      {output' : DemuxServiceOutput}
      → is_usable p ≡ true
      → IsOutput output'
      → pid_of p ≡ 0
      → length output'.pat_packets ≡ 0
      → Emits service output p d (output', none)
  own_pat :
      {output' : DemuxServiceOutput} {q : Packet}
      → is_usable p ≡ true
      → IsOutput output'
      → pid_of p ≡ 0
      → IsNumbered output output' q
      → Emits service output p d (output', some q)
