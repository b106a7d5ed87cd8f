-- ===== src/Ts/Section/Checks.antt =====
-- What the header accessors and `ValidateCRC` return, in plain terms.
use mahiron.Base.{ℕ, ◌+◌, ◌<◌, ◌≤◌, ◌≡◌, refl, Bool, ◌&&◌, length, take, leb, ◌==◌, arith}
use mahiron.Base.Result.{ok, index-eq_ok, slice-eq_ok}
use mahiron.Ts.Words.{IsBytes, at, at-IsByte, be12, be12_at, be12_lt}
use mahiron.Ts.Crc.{crc32_mpeg2}
use mahiron.Ts.Section.{Section, table_id, section_length, total_length, validate_crc}

-- The length that the header of a section announces.
unfoldable pub total : Section → ℕ
total s = 3 + be12 (at s 1) (at s 2)

-- A section that is whole, and whose checksum is right.
unfoldable pub crc_valid : Section → Bool
crc_valid s = leb 4 (length s) && (leb (total s) (length s) && crc32_mpeg2 (take (total s) s) == 0)

pub table_id-eq : (s : Section) → 1 ≤ length s → table_id s ≡ ok (at s 0)
unfolding table_id
table_id-eq s h = index-eq_ok s 0 0 h

pub total_length-eq : (s : Section) → 3 ≤ length s → total_length s ≡ ok (total s)
unfolding total_length section_length be12_at total
total_length-eq s h =
    rw (index-eq_ok s 1 0 (omega arith)) (rw (index-eq_ok s 2 0 (omega arith)) refl)

-- `ValidateCRC` never panics: it is the test `crc_valid` on every byte string.
pub validate_crc-eq : (s : Section) → validate_crc s ≡ ok (crc_valid s)
unfolding validate_crc crc_valid
validate_crc-eq s = ground (arith, total_length-eq s, slice-eq_ok s 0 (total s))

pub total-le : (s : Section) → IsBytes s → total s < 4099
unfolding total
total-le s h = omega (arith, be12_lt (at s 1) (at s 2) (at-IsByte s 2 h))

pub total-ge : (s : Section) → 3 ≤ total s
unfolding total
total-ge s = omega arith
