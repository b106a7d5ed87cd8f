-- ===== src/Ts/Words.antt =====
-- Byte strings, and the big-endian fields that the parsers of ts/*.go read at an offset.
-- A byte is a native number; `IsBytes` says that each is below 256.
use mahiron.Base.{
  ℕ, ◌+◌, ◌*◌, ◌%◌, ◌^◌, ◌<◌, ◌≡◌, ap, ◌∙◌, Bool, bit_and, bit_or, List, All, length, get_or, ◌/=◌,
  arith, All-get_or,
}
use mahiron.Base.Bits.{or_fields, and_0f, and_1f, and_0f_lt, and_1f_lt}
use mahiron.Base.Result.{Result, ok, ◌>>=◌, index, index-Ends, Returns-bind, Ends, value}

abbrev pub Bytes : Type 0
Bytes = List ℕ

abbrev pub IsBytes : Bytes → Type 0
IsBytes = All (λ b. b < 256)

-- `s[i]` where the code has checked that `i` is in range.
abbrev pub at : Bytes → ℕ → ℕ
at s i = get_or s i 0

-- `uint16(hi)<<8 | uint16(lo)` of two bytes: no bit is shifted out.
unfoldable pub be16 : ℕ → ℕ → ℕ
be16 hi lo = bit_or (hi * 2 ^ 8) lo

-- `uint16(hi&0x0f)<<8 | uint16(lo)`, the length fields of sections and loops.
unfoldable pub be12 : ℕ → ℕ → ℕ
be12 hi lo = be16 (bit_and hi 0x0f) lo

-- `uint16(hi&0x1f)<<8 | uint16(lo)`, a packet identifier.
unfoldable pub be13 : ℕ → ℕ → ℕ
be13 hi lo = be16 (bit_and hi 0x1f) lo

-- The same fields at offset `i` of a byte string.
unfoldable pub be16_at : Bytes → ℕ → Result ℕ
be16_at s i = do hi ← index s i; lo ← index s (i + 1); ok (be16 hi lo)

unfoldable pub be12_at : Bytes → ℕ → Result ℕ
be12_at s i = do hi ← index s i; lo ← index s (i + 1); ok (be12 hi lo)

unfoldable pub be13_at : Bytes → ℕ → Result ℕ
be13_at s i = do hi ← index s i; lo ← index s (i + 1); ok (be13 hi lo)

-- `b&mask != 0`
abbrev pub flag : ℕ → ℕ → Bool
flag b mask = bit_and b mask /= 0

pub be16_lem : (hi lo : ℕ) → lo < 256 → be16 hi lo ≡ hi * 256 + lo
unfolding be16
be16_lem hi lo h = or_fields 8 hi lo h

pub be12_lem : (hi lo : ℕ) → hi < 256 → lo < 256 → be12 hi lo ≡ hi % 16 * 256 + lo
unfolding be12
be12_lem hi lo h k = be16_lem _ lo k ∙ ap (λ t. t * 256 + lo) (and_0f hi h)

pub be13_lem : (hi lo : ℕ) → hi < 256 → lo < 256 → be13 hi lo ≡ hi % 32 * 256 + lo
unfolding be13
be13_lem hi lo h k = be16_lem _ lo k ∙ ap (λ t. t * 256 + lo) (and_1f hi h)

pub be12_lt : (hi lo : ℕ) → lo < 256 → be12 hi lo < 4096
unfolding be12
be12_lt hi lo h = omega (arith, be16_lem (bit_and hi 0x0f) lo h, and_0f_lt hi)

pub be13_lt : (hi lo : ℕ) → lo < 256 → be13 hi lo < 8192
unfolding be13
be13_lt hi lo h = omega (arith, be16_lem (bit_and hi 0x1f) lo h, and_1f_lt hi)

pub be16_at-Ends : (s : Bytes) (i : ℕ) → i + 1 < length s → Ends (be16_at s i)
unfolding be16_at
be16_at-Ends s i h =
    Returns-bind (index-Ends s i (omega arith))
      λ hi _. Returns-bind (index-Ends s (i + 1) h) λ lo _. value tt

pub be12_at-Ends : (s : Bytes) (i : ℕ) → i + 1 < length s → Ends (be12_at s i)
unfolding be12_at
be12_at-Ends s i h =
    Returns-bind (index-Ends s i (omega arith))
      λ hi _. Returns-bind (index-Ends s (i + 1) h) λ lo _. value tt

pub be13_at-Ends : (s : Bytes) (i : ℕ) → i + 1 < length s → Ends (be13_at s i)
unfolding be13_at
be13_at-Ends s i h =
    Returns-bind (index-Ends s i (omega arith))
      λ hi _. Returns-bind (index-Ends s (i + 1) h) λ lo _. value tt

pub at-IsByte : (s : Bytes) (i : ℕ) → IsBytes s → at s i < 256
at-IsByte s i h = All-get_or (λ b. b < 256) s i 0 h (omega arith)
