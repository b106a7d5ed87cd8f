-- ===== src/Ts/Psi.antt =====
-- ts/psi.go: the classes of table identifiers, the common header of long sections, and the
-- guard with which the parsers of ts/*.go begin.
pub mod Guards
use mahiron.Base.{
  ℕ, ◌+◌, ◌*◌, ◌/◌, ◌^◌, Bool, not, ◌&&◌, ◌||◌, bit_and, length, ltb, leb, ◌==◌, if◌then◌else◌,
}
use mahiron.Base.Result.{Result, ok, err, Error, ◌>>=◌, index, or_else}
use mahiron.Ts.Words.{be16_at, flag}
use mahiron.Ts.Section.{
  Section, table_id, section_syntax_indicator, section_length, total_length, validate_crc,
}

unfoldable pub is_eitpf : ℕ → Bool
is_eitpf id = id == 0x4e || id == 0x4f

unfoldable pub is_eits : ℕ → Bool
is_eits id = (leb 0x50 id && leb id 0x5f) || (leb 0x60 id && leb id 0x6f)

pub record SectionHeader : Type 0 where
  pub table_id : ℕ
  pub section_syntax_indicator : Bool
  pub section_length : ℕ
  pub transport_stream_id : ℕ
  pub original_network_id : ℕ
  pub service_id : ℕ
  pub version_number : ℕ
  pub current_next_indicator : Bool
  pub section_number : ℕ
  pub last_section_number : ℕ

-- `(b >> 1) & 0x1f`
abbrev pub version_of : ℕ → ℕ
version_of b = bit_and (b / 2) 0x1f

unfoldable pub parse_section_header : Section → Result SectionHeader
parse_section_header s = do
  short ← or_else (ltb (length s) 8) (do t ← total_length s; ok (ltb (length s) t))
  if short then err Error.invalid_section else (do
    id ← table_id s
    syntax ← section_syntax_indicator s
    len ← section_length s
    tsid ← be16_at s 3
    onid ← be16_at s 3
    sid ← be16_at s 3
    b5 ← index s 5
    b6 ← index s 6
    b7 ← index s 7
    ok (record {
      table_id = id;
      section_syntax_indicator = syntax;
      section_length = len;
      transport_stream_id = tsid;
      original_network_id = onid;
      service_id = sid;
      version_number = version_of b5;
      current_next_indicator = flag b5 0x01;
      section_number = b6;
      last_section_number = b7;
    }))

-- `len(s) < least || <wrong table_id> || s.TotalLength() > len(s) || !s.ValidateCRC()`, the guard
-- of the parsers; `wrong` is the test of the table_id.
unfoldable pub rejected : ℕ → (ℕ → Bool) → Section → Result Bool
rejected least wrong s = or_else (ltb (length s) least) (do
  id ← table_id s
  or_else (wrong id) (do
    total ← total_length s
    or_else (ltb (length s) total) (do valid ← validate_crc s; ok (not valid))))
