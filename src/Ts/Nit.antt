-- ===== src/Ts/Nit.antt =====
-- ts/nit.go: the network information table.
use mahiron.Base.{
  ℕ, zero, suc, ◌+◌, ◌-◌, ◌&&◌, List, [], ◌∷◌, ◌++◌, length, ltb, leb, ◌/=◌, if◌then◌else◌,
}
use mahiron.Base.Result.{Result, ok, err, stuck, Error, ◌>>=◌, slice}
use mahiron.Ts.Words.{be12_at, be16_at}
use mahiron.Ts.Descriptors.{Descriptor, parse_descriptors_strict}
use mahiron.Ts.TableId
use mahiron.Ts.Section.{Section, total_length}
use mahiron.Ts.Psi.{parse_section_header, rejected}

pub record NitTransportStream : Type 0 where
  pub transport_stream_id : ℕ
  pub original_network_id : ℕ
  pub descriptors : List Descriptor

pub record Nit : Type 0 where
  pub network_id : ℕ
  pub table_id : ℕ
  pub version_number : ℕ
  pub section_number : ℕ
  pub last_section_number : ℕ
  pub network_descriptors : List Descriptor
  pub transport_streams : List NitTransportStream

-- `for off+6 <= loopEnd`, and the test behind it: the loop must end at `loopEnd`.
unfoldable pub streams_loop :
    ℕ → Section → ℕ → ℕ → List NitTransportStream → Result (List NitTransportStream)
streams_loop zero s loop_end off streams = stuck
streams_loop (suc fuel) s loop_end off streams =
    if leb (off + 6) loop_end
    then (do
      descriptors_len ← be12_at s (off + 4)
      if ltb loop_end (off + 6 + descriptors_len) then err Error.invalid_section else (do
        bytes ← slice s (off + 6) (off + 6 + descriptors_len)
        descriptors ← parse_descriptors_strict bytes
        transport_stream_id ← be16_at s off
        original_network_id ← be16_at s (off + 2)
        let stream : NitTransportStream = record {
          transport_stream_id = transport_stream_id;
          original_network_id = original_network_id;
          descriptors = descriptors;
        }
        streams_loop fuel s loop_end (off + 6 + descriptors_len) (streams ++ stream ∷ [])))
    else if off /= loop_end
    then err Error.invalid_section
    else ok streams

unfoldable pub parse_nit : Section → Result Nit
parse_nit s = do
  bad ← rejected 16 (λ id. id /= TableId.nit0 && id /= TableId.nit1) s
  if bad then err Error.invalid_section else (do
    header ← parse_section_header s
    total ← total_length s
    network_len ← be12_at s 8
    if ltb (total - 4) (10 + network_len + 2) then err Error.invalid_section else (do
      bytes ← slice s 10 (10 + network_len)
      network_descriptors ← parse_descriptors_strict bytes
      loop_len ← be12_at s (10 + network_len)
      let off = 10 + network_len + 2
      if off + loop_len /= total - 4 then err Error.invalid_section else (do
        network_id ← be16_at s 3
        streams ← streams_loop (suc (length s)) s (off + loop_len) off []
        ok (record {
          network_id = network_id;
          table_id = header.table_id;
          version_number = header.version_number;
          section_number = header.section_number;
          last_section_number = header.last_section_number;
          network_descriptors = network_descriptors;
          transport_streams = streams;
        }))))
