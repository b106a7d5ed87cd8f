-- ===== src/Ts/Crc.antt =====
-- ts/section.go: the table-driven CRC-32/MPEG-2. A uint32 is a number below 2 ^ 32.
pub mod Laws
use mahiron.Base.{
  ℕ, zero, suc, ◌+◌, ◌*◌, ◌/◌, ◌%◌, ◌^◌, bit_xor, bit_and, List, [], ◌∷◌, ◌++◌, ◌/=◌, if◌then◌else◌,
}
use mahiron.Ts.Words.{Bytes, flag}

-- One round of the inner loop of `makeCRC32MPEG2Table`.
abbrev pub crc_shift : ℕ → ℕ
crc_shift crc =
    if flag crc 0x80000000 then bit_xor (crc * 2 % 2 ^ 32) 0x04c11db7 else crc * 2 % 2 ^ 32

unfoldable pub crc_rounds : ℕ → ℕ → ℕ
crc_rounds zero crc = crc
crc_rounds (suc n) crc = crc_rounds n (crc_shift crc)

-- `crc32MPEG2Table[i]`: the table is the function that fills it.
unfoldable pub crc32_mpeg2_table : ℕ → ℕ
unfolding crc_rounds
crc32_mpeg2_table i = crc_rounds 8 (i * 2 ^ 24)

-- One byte of `crc32MPEG2`: `(crc << 8) ^ table[byte(crc>>24)^b]`.
unfoldable pub crc_byte : ℕ → ℕ → ℕ
crc_byte crc b = bit_xor (crc * 2 ^ 8 % 2 ^ 32) (crc32_mpeg2_table (bit_xor (crc / 2 ^ 24 % 256) b))

unfoldable pub crc_from : ℕ → Bytes → ℕ
crc_from crc [] = crc
crc_from crc (b ∷ bs) = crc_from (crc_byte crc b) bs

unfoldable pub crc32_mpeg2 : Bytes → ℕ
crc32_mpeg2 = crc_from 0xffffffff

-- The four bytes in which a section ends: `byte(crc>>24)`, …, `byte(crc)`.
abbrev pub crc_bytes : ℕ → Bytes
crc_bytes crc = (crc / 2 ^ 24 % 256) ∷ (crc / 2 ^ 16 % 256) ∷ (crc / 2 ^ 8 % 256) ∷ (crc % 256) ∷ []
