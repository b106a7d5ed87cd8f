-- ===== src/Ts/Sdt.antt =====
-- ts/sdt.go: the service description table.
use mahiron.Base.{
  ℕ, zero, suc, ◌+◌, ◌-◌, ◌/◌, ◌^◌, Bool, ◌&&◌, bit_and, List, [], ◌∷◌, ◌++◌, length, ltb, leb,
  ◌/=◌, if◌then◌else◌,
}
use mahiron.Base.Result.{Result, ok, err, stuck, Error, ◌>>=◌, index, slice}
use mahiron.Ts.Words.{be12_at, be16_at, flag}
use mahiron.Ts.Descriptors.{Descriptor, parse_descriptors}
use mahiron.Ts.TableId
use mahiron.Ts.Section.{Section, total_length}
use mahiron.Ts.Psi.{parse_section_header, rejected}

pub record SdtService : Type 0 where
  pub service_id : ℕ
  pub eit_schedule_flag : Bool
  pub eit_present_following : Bool
  pub running_status : ℕ
  pub free_ca_mode : Bool
  pub descriptors : List Descriptor

pub record Sdt : Type 0 where
  pub transport_stream_id : ℕ
  pub original_network_id : ℕ
  pub version_number : ℕ
  pub services : List SdtService

-- `for off := 11; off+5 <= sectionEnd; { … off = descEnd }`
unfoldable pub services_loop : ℕ → Section → ℕ → ℕ → List SdtService → Result (List SdtService)
services_loop zero s end_ off services = stuck
services_loop (suc fuel) s end_ off services =
    if leb (off + 5) end_
    then (do
      loop_len ← be12_at s (off + 3)
      if ltb end_ (off + 5 + loop_len) then err Error.invalid_section else (do
        bytes ← slice s (off + 5) (off + 5 + loop_len)
        service_id ← be16_at s off
        b2 ← index s (off + 2)
        b3 ← index s (off + 3)
        descriptors ← parse_descriptors bytes
        let service : SdtService = record {
          service_id = service_id;
          eit_schedule_flag = flag b2 0x02;
          eit_present_following = flag b2 0x01;
          running_status = bit_and (b3 / 2 ^ 5) 0x07;
          free_ca_mode = flag b3 0x10;
          descriptors = descriptors;
        }
        services_loop fuel s end_ (off + 5 + loop_len) (services ++ service ∷ [])))
    else ok services

unfoldable pub parse_sdt : Section → Result Sdt
parse_sdt s = do
  bad ← rejected 15 (λ id. id /= TableId.sdt0 && id /= TableId.sdt1) s
  if bad then err Error.invalid_section else (do
    header ← parse_section_header s
    total ← total_length s
    original_network_id ← be16_at s 8
    services ← services_loop (suc (length s)) s (total - 4) 11 []
    ok (record {
      transport_stream_id = header.transport_stream_id;
      original_network_id = original_network_id;
      version_number = header.version_number;
      services = services;
    }))
