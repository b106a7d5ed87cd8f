-- ===== src/Ts/Section.antt =====
-- ts/section.go: the header of a PSI/SI section and `ValidateCRC`.
pub mod Checks
use mahiron.Base.{
  ℕ, ◌+◌, ◌*◌, ◌/◌, ◌%◌, ◌^◌, Bool, true, false, bit_and, bit_or, List, length, ltb, ◌==◌, ◌/=◌,
  if◌then◌else◌,
}
use mahiron.Base.Result.{Result, ok, ◌>>=◌, index, slice}
use mahiron.Ts.Words.{Bytes, be12_at, flag}
use mahiron.Ts.Crc.{crc32_mpeg2}

abbrev pub Section : Type 0
Section = Bytes

unfoldable pub table_id : Section → Result ℕ
table_id s = index s 0

unfoldable pub section_syntax_indicator : Section → Result Bool
section_syntax_indicator s = do b ← index s 1; ok (flag b 0x80)

unfoldable pub section_length : Section → Result ℕ
section_length s = be12_at s 1

unfoldable pub total_length : Section → Result ℕ
total_length s = do n ← section_length s; ok (3 + n)

unfoldable pub validate_crc : Section → Result Bool
validate_crc s = if ltb (length s) 4 then ok false else (do
  total ← total_length s
  if ltb (length s) total
      then ok false
      else (do body ← slice s 0 total; ok (crc32_mpeg2 body == 0)))
