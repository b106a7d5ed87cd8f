-- ===== src/Ts/Crc/Laws.antt =====
-- The checksum of data followed by its own checksum is zero.
use mahiron.Base.{
  sym, ℕ, zero, suc, ◌*◌, ◌/◌, ◌%◌, ◌^◌, ◌<◌, ◌≡◌, refl, ap, ◌∙◌, bit_xor, [], ◌∷◌, ◌++◌, arith,
}
use mahiron.Base.Bits.{xor_self, xor_zero, xor_lt}
use mahiron.Ts.Words.{Bytes}
use mahiron.Ts.Crc.{
  crc_shift, crc_rounds, crc32_mpeg2_table, crc_byte, crc_from, crc32_mpeg2, crc_bytes,
}

crc_shift-lt : (crc : ℕ) → crc_shift crc < 2 ^ 32
crc_shift-lt crc =
    ground (arith, xor_lt 32 (crc * 2 % 2 ^ 32) 0x04c11db7 (omega arith) (omega arith))

crc_rounds-lt : (n crc : ℕ) → crc < 2 ^ 32 → crc_rounds n crc < 2 ^ 32
unfolding crc_rounds
crc_rounds-lt zero crc h = h
crc_rounds-lt (suc n) crc h = crc_rounds-lt n (crc_shift crc) (crc_shift-lt crc)

table-lt : (i : ℕ) → crc32_mpeg2_table i < 2 ^ 32
unfolding crc32_mpeg2_table
table-lt i = crc_rounds-lt 7 (crc_shift (i * 2 ^ 24)) (crc_shift-lt (i * 2 ^ 24))

table-zero : crc32_mpeg2_table 0 ≡ 0
unfolding crc32_mpeg2_table
table-zero = refl

pub crc_byte-lt : (crc b : ℕ) → crc_byte crc b < 2 ^ 32
unfolding crc_byte
crc_byte-lt crc b = xor_lt 32 _ _ (omega arith) (table-lt (bit_xor (crc / 2 ^ 24 % 256) b))

crc_from-lt : (crc : ℕ) (bs : Bytes) → crc < 2 ^ 32 → crc_from crc bs < 2 ^ 32
unfolding crc_from
crc_from-lt crc [] h = h
crc_from-lt crc (b ∷ bs) h = crc_from-lt (crc_byte crc b) bs (crc_byte-lt crc b)

-- The checksum is a uint32.
pub crc32_mpeg2-lt : (bs : Bytes) → crc32_mpeg2 bs < 2 ^ 32
unfolding crc32_mpeg2
crc32_mpeg2-lt bs = crc_from-lt 0xffffffff bs (omega arith)

pub crc_from-append :
    (crc : ℕ) (xs ys : Bytes) → crc_from crc (xs ++ ys) ≡ crc_from (crc_from crc xs) ys
unfolding crc_from
crc_from-append crc [] ys = refl
crc_from-append crc (x ∷ xs) ys = crc_from-append (crc_byte crc x) xs ys

-- The byte that stands on top of the register shifts it by a byte.
crc_byte_top : (crc : ℕ) → crc_byte crc (crc / 2 ^ 24 % 256) ≡ crc * 2 ^ 8 % 2 ^ 32
unfolding crc_byte
crc_byte_top crc =
    rw (xor_self (crc / 2 ^ 24 % 256)) (rw table-zero (xor_zero (crc * 2 ^ 8 % 2 ^ 32)))

crc_byte_at : (crc b r : ℕ) → b ≡ crc / 2 ^ 24 % 256 → r ≡ crc * 2 ^ 8 % 2 ^ 32 → crc_byte crc b ≡ r
crc_byte_at crc b r eb er = ap (crc_byte crc) eb ∙ crc_byte_top crc ∙ sym er

-- Feeding a register its own four bytes, top byte first, empties it.
pub crc_from-crc_bytes : (crc : ℕ) → crc < 2 ^ 32 → crc_from crc (crc_bytes crc) ≡ 0
unfolding crc_from
crc_from-crc_bytes crc h =
    let c₁ : ℕ = crc * 2 ^ 8 % 2 ^ 32 in
    let c₂ : ℕ = c₁ * 2 ^ 8 % 2 ^ 32 in
    let c₃ : ℕ = c₂ * 2 ^ 8 % 2 ^ 32 in
    rw (crc_byte_at crc (crc / 2 ^ 24 % 256) c₁ refl refl) (
      rw (crc_byte_at c₁ (crc / 2 ^ 16 % 256) c₂ (omega arith) refl) (
        rw (crc_byte_at c₂ (crc / 2 ^ 8 % 256) c₃ (omega arith) refl)
          (crc_byte_at c₃ (crc % 256) 0 (omega arith) (omega arith))))

-- Data followed by its own checksum, highest byte first, has the checksum 0: what `ValidateCRC`
-- tests is what the builders of sections write.
pub crc32_mpeg2-append_self : (bs : Bytes) → crc32_mpeg2 (bs ++ crc_bytes (crc32_mpeg2 bs)) ≡ 0
unfolding crc32_mpeg2
crc32_mpeg2-append_self bs =
    crc_from-append 0xffffffff bs _ ∙ crc_from-crc_bytes _ (crc_from-lt 0xffffffff bs (omega arith))
