-- ===== src/Ts/Demux/Examples.antt =====
-- The demultiplexer and the section sets on small inputs.
use mahiron.Base.{ℕ, ◌≡◌, refl, true, [], ◌∷◌, replicate, some, arith}
use mahiron.Base.Result.{Returns}
use mahiron.Base.Assoc.{lookup, has}
use mahiron.Ts.Packet.{Packet}
use mahiron.Ts.Section.{Section}
use mahiron.Ts.Pat.{Pat}
use mahiron.Ts.SectionSet.{empty_set, add}
use mahiron.Ts.SectionSet.Ready.{IsFiled, IsTable, add-IsTable}
use mahiron.Ts.Demux.{Demuxer, new_demuxer, new_output}
use mahiron.Ts.Demux.Observe.{adopt}
use mahiron.Ts.Demux.Packets.{Gives, IsSane}
use mahiron.Ts.Demux.Programs.{IsDemux, program_after, adopt-Gives}
use mahiron.Ts.Demux.RoundTrip.{Delivers, service_pat-Delivers}

-- The header of a PAT in one section, and one program.
abbrev short_pat : Section
short_pat =
    0x00 ∷ 0xb0 ∷ 13 ∷ 0x7f ∷ 0xe0 ∷ 0xc1 ∷ 0 ∷ 0 ∷ 0x04 ∷ 0x00 ∷ 0xe1 ∷ 0xf0 ∷ 1 ∷ 2 ∷ 3 ∷ 4 ∷ []

add-IsTable_example :
    Returns (λ r. IsFiled r.0 × (r.2 ≡ true → IsTable r.0)) (add short_pat empty_set)
add-IsTable_example = add-IsTable short_pat empty_set (λ number section e. unfold lookup in cc)

abbrev one_program : Pat
one_program = record {
  transport_stream_id = 0x7fe0;
  version_number = 3;
  network_pid = 0;
  programs = (1024, 0x1f0) ∷ [];
}

one_program-IsSane : IsSane (some one_program)
unfolding lookup
one_program-IsSane service pmt_pid e = ground arith

-- A demultiplexer that knows one program.
abbrev tuned : Demuxer
tuned = record new_demuxer {
  programs = (1024, record { pmt_pid = 0x1f0; pids = 0x100 ∷ []; section_pids = [] }) ∷ [];
}

-- A packet of the program's PMT.
abbrev pmt_packet : Packet
pmt_packet = 0x47 ∷ 0x41 ∷ 0xf0 ∷ 0x10 ∷ replicate 184 0

adopt-Gives_example :
    Gives
      (λ d'.
        IsDemux d'
        × (d'.pat ≡ some one_program)
        × ((service : ℕ)
            → lookup service d'.programs
              ≡ program_after
                  (lookup service one_program.programs)
                  (lookup service tuned.programs)))
      (adopt one_program tuned)
unfolding new_demuxer has
adopt-Gives_example = adopt-Gives one_program tuned (refl, tt) one_program-IsSane tt

service_pat-Delivers_example : Delivers one_program 1 1024 0x1f0 new_output
unfolding lookup
service_pat-Delivers_example =
    service_pat-Delivers one_program 1 1024 0x1f0 new_output (omega arith) (omega arith)
      (omega arith) (omega arith) (omega arith) refl
