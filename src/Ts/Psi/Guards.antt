-- ===== src/Ts/Psi/Guards.antt =====
-- The guard of the parsers and the common header, in plain terms.
use mahiron.Base.{
  ℕ, ◌+◌, ◌≤◌, ◌<◌, ◌≡◌, refl, Bool, true, false, not, ◌||◌, length, ltb, if◌then◌else◌, arith,
}
use mahiron.Base.Result.{ok, err, Error, index-eq_ok}
use mahiron.Ts.Words.{at, be16, be16_at, be12, be12_at, flag}
use mahiron.Ts.Section.{Section, section_syntax_indicator, section_length}
use mahiron.Ts.Section.Checks.{total, crc_valid, table_id-eq, total_length-eq, validate_crc-eq}
use mahiron.Ts.Psi.{SectionHeader, version_of, parse_section_header, rejected}

-- What the parsers know behind their guard.
pub record IsAccepted (least : ℕ) (wrong : ℕ → Bool) (s : Section) : Type 0 where
  pub long : least ≤ length s
  pub right : wrong (at s 0) ≡ false
  pub whole : total s ≤ length s
  pub valid : crc_valid s ≡ true

-- The guard as one test.
abbrev pub rejects : ℕ → (ℕ → Bool) → Section → Bool
rejects least wrong s =
    ltb (length s) least || (wrong (at s 0) || (ltb (length s) (total s) || not (crc_valid s)))

pub rejected-eq :
    (least : ℕ) (wrong : ℕ → Bool) (s : Section)
    → 3 ≤ least
    → rejected least wrong s ≡ ok (rejects least wrong s)
unfolding rejected
rejected-eq least wrong s h = ground (arith, table_id-eq s, total_length-eq s, validate_crc-eq s)

pub accepted :
    (least : ℕ) (wrong : ℕ → Bool) (s : Section)
    → rejects least wrong s ≡ false
    → IsAccepted least wrong s
accepted least wrong s h = ground arith

-- The fields of the common header.
unfoldable pub header_of : Section → SectionHeader
header_of s = record {
  table_id = at s 0;
  section_syntax_indicator = flag (at s 1) 0x80;
  section_length = be12 (at s 1) (at s 2);
  transport_stream_id = be16 (at s 3) (at s 4);
  original_network_id = be16 (at s 3) (at s 4);
  service_id = be16 (at s 3) (at s 4);
  version_number = version_of (at s 5);
  current_next_indicator = flag (at s 5) 0x01;
  section_number = at s 6;
  last_section_number = at s 7;
}

pub be16_at-eq :
    (s : Section) (i : ℕ) → i + 1 < length s → be16_at s i ≡ ok (be16 (at s i) (at s (i + 1)))
unfolding be16_at
be16_at-eq s i h = rw (index-eq_ok s i 0 (omega arith)) (rw (index-eq_ok s (i + 1) 0 h) refl)

pub be12_at-eq :
    (s : Section) (i : ℕ) → i + 1 < length s → be12_at s i ≡ ok (be12 (at s i) (at s (i + 1)))
unfolding be12_at
be12_at-eq s i h = rw (index-eq_ok s i 0 (omega arith)) (rw (index-eq_ok s (i + 1) 0 h) refl)

pub parse_section_header-eq :
    (s : Section)
    → 8 ≤ length s
    → parse_section_header s
      ≡ (if ltb (length s) (total s) then err Error.invalid_section else ok (header_of s))
unfolding parse_section_header header_of section_syntax_indicator section_length
parse_section_header-eq s h = ground (
  arith,
  total_length-eq s (omega arith),
  table_id-eq s (omega arith),
  be12_at-eq s 1 (omega arith),
  be16_at-eq s 3 (omega arith),
  index-eq_ok s 1 0 (omega arith),
  index-eq_ok s 5 0 (omega arith),
  index-eq_ok s 6 0 (omega arith),
  index-eq_ok s 7 0 (omega arith),
)
