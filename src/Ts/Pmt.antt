-- ===== src/Ts/Pmt.antt =====
-- ts/pmt.go: the program map table.
use mahiron.Base.{
  ℕ, zero, suc, ◌+◌, ◌-◌, List, [], ◌∷◌, ◌++◌, length, ltb, leb, ◌/=◌, if◌then◌else◌,
}
use mahiron.Base.Result.{Result, ok, err, stuck, Error, ◌>>=◌, index, slice}
use mahiron.Ts.Words.{Bytes, be12_at, be13_at}
use mahiron.Ts.Descriptors.{Descriptor, parse_descriptors}
use mahiron.Ts.TableId
use mahiron.Ts.Section.{Section, total_length}
use mahiron.Ts.Psi.{parse_section_header, rejected}

pub record PmtElement : Type 0 where
  pub stream_type : ℕ
  pub elementary_pid : ℕ
  pub es_info : Bytes
  pub descriptors : List Descriptor

pub record Pmt : Type 0 where
  pub program_number : ℕ
  pub version_number : ℕ
  pub pcr_pid : ℕ
  pub program_info : Bytes
  pub descriptors : List Descriptor
  pub elements : List PmtElement

-- `for off := infoEnd; off+5 <= sectionEnd; { … off = esInfoEnd }`
unfoldable pub elements_loop : ℕ → Section → ℕ → ℕ → List PmtElement → Result (List PmtElement)
elements_loop zero s end_ off elements = stuck
elements_loop (suc fuel) s end_ off elements =
    if leb (off + 5) end_
    then (do
      es_info_len ← be12_at s (off + 3)
      if ltb end_ (off + 5 + es_info_len) then err Error.invalid_section else (do
        es_info ← slice s (off + 5) (off + 5 + es_info_len)
        stream_type ← index s off
        elementary_pid ← be13_at s (off + 1)
        descriptors ← parse_descriptors es_info
        let element : PmtElement = record {
          stream_type = stream_type;
          elementary_pid = elementary_pid;
          es_info = es_info;
          descriptors = descriptors;
        }
        elements_loop fuel s end_ (off + 5 + es_info_len) (elements ++ element ∷ [])))
    else ok elements

-- The section's end is an `int` in the source, negative for a total of 3: then `infoEnd` is above
-- it, as it is above the 0 that stands for it here.
unfoldable pub parse_pmt : Section → Result Pmt
parse_pmt s = do
  bad ← rejected 16 (λ id. id /= TableId.pmt) s
  if bad then err Error.invalid_section else (do
    header ← parse_section_header s
    program_info_len ← be12_at s 10
    total ← total_length s
    if ltb (total - 4) (12 + program_info_len) then err Error.invalid_section else (do
      pcr_pid ← be13_at s 8
      program_info ← slice s 12 (12 + program_info_len)
      descriptors ← parse_descriptors program_info
      elements ← elements_loop (suc (length s)) s (total - 4) (12 + program_info_len) []
      ok (record {
        program_number = header.service_id;
        version_number = header.version_number;
        pcr_pid = pcr_pid;
        program_info = program_info;
        descriptors = descriptors;
        elements = elements;
      })))
