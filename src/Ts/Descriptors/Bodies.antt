-- ===== src/Ts/Descriptors/Bodies.antt =====
-- ts/descriptors.go: the parsers of single descriptors. ParseTSInformationDescriptor decodes a name
-- with the ARIB string decoder and is not here.
pub mod Total
use mahiron.Base.{
  ℕ, zero, suc, ◌+◌, ◌-◌, ◌*◌, ◌/◌, ◌%◌, ◌^◌, Bool, not, ◌||◌, bit_and, bit_or, List, [], ◌∷◌, ◌++◌,
  length, ltb, ◌==◌, ◌/=◌, if◌then◌else◌, Option, none, some,
}
use mahiron.Base.Result.{Result, ok, err, stuck, Error, ◌>>=◌, index, slice, or_else}
use mahiron.Ts.Words.{Bytes, be16_at, flag}
use mahiron.Ts.Descriptors.{Descriptor, tag, descriptor_data}

-- `len(d) < 2 || len(d) < 2+d.Length()`
unfoldable pub is_cut : Descriptor → Result Bool
is_cut d = or_else (ltb (length d) 2) (do n ← index d 1; ok (ltb (length d) (2 + n)))

-- The guards that the parsers share, and the body behind them.
unfoldable pub body_of : ℕ → (ℕ → Error) → Descriptor → Result Bytes
body_of wanted wrong d = do
  cut ← is_cut d
  if cut
      then err Error.invalid_section
      else (do t ← tag d; if t /= wanted then err (wrong t) else descriptor_data d)

pub record DataComponentDescriptor : Type 0 where
  pub data_component_id : ℕ
  pub additional_data_component_info : Bytes

unfoldable pub parse_data_component_descriptor : Descriptor → Result DataComponentDescriptor
parse_data_component_descriptor d = do
  body ← body_of 0xfd (λ t. Error.invalid_section) d
  if ltb (length body) 2 then err Error.invalid_section else (do
    id ← be16_at body 0
    info ← slice body 2 (length body)
    ok (record { data_component_id = id; additional_data_component_info = info }))

pub record EntryPointInfo : Type 0 where
  pub auto_start_flag : Bool
  pub document_resolution : ℕ
  pub use_xml : Bool
  pub default_version_flag : Bool
  pub independent_flag : Bool
  pub style_for_tv_flag : Bool
  pub bml_version : ℕ × ℕ
  pub bxml_version : Option (ℕ × ℕ)

pub record CarouselInfo : Type 0 where
  pub data_event_id : ℕ
  pub event_section_flag : Bool
  pub on_demand_retrieval_flag : Bool
  pub file_storable_flag : Bool
  pub start_priority : ℕ

pub record BxmlInfo : Type 0 where
  pub transmission_format : ℕ
  pub entry_point_flag : Bool
  pub entry_point_info : Option EntryPointInfo
  pub carousel_info : Option CarouselInfo

-- Two versions, major and minor, at offset `off`.
unfoldable pub version_at : Bytes → ℕ → Result (ℕ × ℕ)
version_at b off =
    if ltb (length b) (off + 4)
    then err Error.invalid_section
    else (do major ← be16_at b off; minor ← be16_at b (off + 2); ok (major, minor))

-- The versions behind the flags and the offset behind them: `bml_version` is 1.0 by default.
unfoldable pub versions_at : Bool → Bool → Bytes → Result ((ℕ × ℕ) × Option (ℕ × ℕ) × ℕ)
versions_at default_version use_xml b = if default_version then ok ((1, 0), none, 2) else (do
  bml ← version_at b 2
  if use_xml then (do bxml ← version_at b 6; ok (bml, some bxml, 10)) else ok (bml, none, 6))

-- The entry point, from the first byte and the one behind it, with the offset behind the versions.
unfoldable pub entry_point : ℕ → Bytes → Result (EntryPointInfo × ℕ)
entry_point b0 b = do
  b1 ← index b 1
  versions ← versions_at (flag b1 0x40) (flag b1 0x80) b
  ok (
    record {
      auto_start_flag = flag b0 0x10;
      document_resolution = bit_and b0 0x0f;
      use_xml = flag b1 0x80;
      default_version_flag = flag b1 0x40;
      independent_flag = flag b1 0x20;
      style_for_tv_flag = flag b1 0x10;
      bml_version = versions.0;
      bxml_version = versions.1;
    },
    versions.2,
  )

unfoldable pub carousel_at : Bytes → ℕ → Result (Option CarouselInfo)
carousel_at b off = if ltb (length b) (off + 2) then err Error.invalid_section else (do
  c0 ← index b off
  c1 ← index b (off + 1)
  ok (
      some (record {
        data_event_id = c0 / 2 ^ 4;
        event_section_flag = flag c0 0x08;
        on_demand_retrieval_flag = flag c1 0x80;
        file_storable_flag = flag c1 0x40;
        start_priority = bit_and (c1 / 2 ^ 5) 0x01;
      })))

-- The entry point if the first byte announces one, and the offset of what follows.
unfoldable pub optional_entry_point : ℕ → Bytes → Result (Option EntryPointInfo × ℕ)
optional_entry_point b0 b =
    if flag b0 0x20 then (do e ← entry_point b0 b; ok (some e.0, e.1)) else ok (none, 1)

unfoldable pub parse_bxml_info : Bytes → Result BxmlInfo
parse_bxml_info b = if ltb (length b) 3 then err Error.invalid_section else (do
  b0 ← index b 0
  entry ← optional_entry_point b0 b
  carousel ← if bit_and (b0 / 2 ^ 6) 0x03 == 0 then carousel_at b entry.1 else ok none
  ok (record {
    transmission_format = bit_and (b0 / 2 ^ 6) 0x03;
    entry_point_flag = flag b0 0x20;
    entry_point_info = entry.0;
    carousel_info = carousel;
  }))

pub record ServiceListEntry : Type 0 where
  pub service_id : ℕ
  pub service_type : ℕ

-- `for off := 0; off < len(data); off += 3`
unfoldable pub service_list_loop :
    ℕ → Bytes → ℕ → List ServiceListEntry → Result (List ServiceListEntry)
service_list_loop zero body off entries = stuck
service_list_loop (suc fuel) body off entries =
    if ltb off (length body)
    then (do
      id ← be16_at body off
      kind ← index body (off + 2)
      service_list_loop fuel body (off + 3)
          (entries ++ record { service_id = id; service_type = kind } ∷ []))
    else ok entries

unfoldable pub parse_service_list_descriptor : Descriptor → Result (List ServiceListEntry)
parse_service_list_descriptor d = do
  body ← body_of 0x41 Error.unexpected_descriptor_tag d
  if length body % 3 /= 0
      then err Error.invalid_section
      else service_list_loop (suc (length body)) body 0 []

pub record TerrestrialDeliverySystemDescriptor : Type 0 where
  pub area_code : ℕ
  pub guard_interval : ℕ
  pub transmission_mode : ℕ
  pub frequencies : List ℕ

-- `for off := 2; off < len(data); off += 2`
unfoldable pub frequencies_loop : ℕ → Bytes → ℕ → List ℕ → Result (List ℕ)
frequencies_loop zero body off frequencies = stuck
frequencies_loop (suc fuel) body off frequencies =
    if ltb off (length body)
    then (do f ← be16_at body off; frequencies_loop fuel body (off + 2) (frequencies ++ f ∷ []))
    else ok frequencies

unfoldable pub parse_terrestrial_delivery_system_descriptor :
    Descriptor → Result TerrestrialDeliverySystemDescriptor
parse_terrestrial_delivery_system_descriptor d = do
  body ← body_of 0xfa Error.unexpected_descriptor_tag d
  if ltb (length body) 2 || (length body - 2) % 2 /= 0 then err Error.invalid_section else (do
    b0 ← index body 0
    b1 ← index body 1
    frequencies ← frequencies_loop (suc (length body)) body 2 []
    ok (record {
      area_code = bit_or (b0 * 2 ^ 4) (b1 / 2 ^ 4);
      guard_interval = bit_and (b1 / 2 ^ 2) 0x03;
      transmission_mode = bit_and b1 0x03;
      frequencies = frequencies;
    }))
