-- ===== src/Ts/Pat.antt =====
-- ts/pat.go: the program association table.
pub mod RoundTrip
use mahiron.Base.{
  ℕ, zero, suc, ◌+◌, ◌-◌, ◌*◌, ◌/◌, ◌%◌, ◌^◌, Bool, bit_and, bit_or, List, [], ◌∷◌, ◌++◌, length,
  ltb, leb, ◌==◌, ◌/=◌, if◌then◌else◌,
}
use mahiron.Base.Result.{Result, ok, err, stuck, Error, ◌>>=◌, index}
use mahiron.Base.Assoc.{Map, insert}
use mahiron.Ts.Words.{Bytes, be16_at, be13_at}
use mahiron.Ts.Crc.{crc32_mpeg2, crc_bytes}
use mahiron.Ts.Section.{Section, total_length}
use mahiron.Ts.TableId
use mahiron.Ts.Psi.{parse_section_header, rejected}

-- `programs` maps a program number to the PID of its PMT.
pub record Pat : Type 0 where
  pub transport_stream_id : ℕ
  pub version_number : ℕ
  pub network_pid : ℕ
  pub programs : Map ℕ

unfoldable pub note_program : Pat → ℕ → ℕ → Pat
note_program pat program pid =
    if program == 0
    then record pat { network_pid = pid }
    else record pat { programs = insert program pid pat.programs }

-- `for off := 8; off+4 <= end; off += 4`
unfoldable pub programs_loop : ℕ → Section → ℕ → ℕ → Pat → Result Pat
programs_loop zero s end_ off pat = stuck
programs_loop (suc fuel) s end_ off pat =
    if leb (off + 4) end_
    then (do
      program ← be16_at s off
      pid ← be13_at s (off + 2)
      programs_loop fuel s end_ (off + 4) (note_program pat program pid))
    else ok pat

-- The end, `TotalLength() - 4`, is negative for a total of 3: the loop makes no round then, nor
-- does it for the 0 that stands for it here.
unfoldable pub parse_pat : Section → Result Pat
parse_pat s = do
  bad ← rejected 12 (λ id. id /= TableId.pat) s
  if bad then err Error.invalid_section else (do
    header ← parse_section_header s
    total ← total_length s
    programs_loop (suc (length s)) s (total - 4) 8 (record {
      transport_stream_id = header.transport_stream_id;
      version_number = header.version_number;
      network_pid = 0;
      programs = [];
    }))

-- The section up to its checksum: a length of 13, one program.
abbrev pub pat_body : ℕ → ℕ → ℕ → ℕ → Bytes
pat_body transport_stream_id service_id pmt_pid version =
    TableId.pat
    ∷ bit_or 0xb0 (13 / 2 ^ 8 % 256)
    ∷ 13
    ∷ (transport_stream_id / 2 ^ 8 % 256)
    ∷ (transport_stream_id % 256)
    ∷ bit_or 0xc1 (bit_and version 0x1f * 2 % 256)
    ∷ 0
    ∷ 0
    ∷ (service_id / 2 ^ 8 % 256)
    ∷ (service_id % 256)
    ∷ bit_or 0xe0 (pmt_pid / 2 ^ 8 % 256)
    ∷ (pmt_pid % 256)
    ∷ []

unfoldable pub build_pat_section : ℕ → ℕ → ℕ → ℕ → Result Section
build_pat_section transport_stream_id service_id pmt_pid version =
    if ltb 0x1fff pmt_pid
    then err (Error.invalid_pmt_pid pmt_pid)
    else let body = pat_body transport_stream_id service_id pmt_pid version in
      ok (body ++ crc_bytes (crc32_mpeg2 body))
