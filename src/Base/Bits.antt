-- ===== src/Base/Bits.antt =====
-- Laws of `&`, `|` and `^` on native numbers: the lowest digit, then masks, disjoint fields, and
-- the laws of `^` that a cyclic redundancy check rests on.
use Prim.Native.Nat.{
  ℕ, zero, suc, ◌+◌, ◌*◌, ◌/◌, ◌%◌, ◌^◌, ◌≤◌, ◌<◌, min, max, bit_and, bit_or, bit_xor, digits,
  bit_and-bitwise, bit_or-bitwise, bit_xor-bitwise, differ,
}
use mathlib.Core.Path.{◌≡◌, refl, ap}
use mathlib.Core.Bool.{Bool, true, ◌&&◌}
use native.Mathlib.Omega.{arith}
use native.Mathlib.Nat.{pow-suc}
use mahiron.Base.Tests.{◌==◌}

-- The recursion on digits does not depend on its fuel, as long as there is enough.
digits_enough :
    (z : ℕ → ℕ) (f : ℕ → ℕ → ℕ) (j k a b : ℕ) → a ≤ j → a ≤ k → digits z f j a b ≡ digits z f k a b
digits_enough z f zero zero a b p q = refl
digits_enough z f zero (suc k) zero b p q = refl
digits_enough z f zero (suc k) (suc a) b p q = absurd (omega arith)
digits_enough z f (suc j) zero zero b p q = refl
digits_enough z f (suc j) zero (suc a) b p q = absurd (omega arith)
digits_enough z f (suc j) (suc k) zero b p q = refl
digits_enough z f (suc j) (suc k) (suc a) b p q =
    rw (digits_enough z f j k (suc a / 2) (b / 2) (omega arith) (omega arith))

-- One digit at a time.
module _ (z : ℕ → ℕ) (f : ℕ → ℕ → ℕ) where
  digits-suc :
      (a b : ℕ)
      → digits z f (suc a) (suc a) b
        ≡ digits z f (suc a / 2) (suc a / 2) (b / 2) * 2 + f (suc a % 2) (b % 2)
  digits-suc a b =
      ap (λ t. t * 2 + f (suc a % 2) (b % 2))
        (digits_enough z f a (suc a / 2) (suc a / 2) (b / 2) (omega arith) (omega arith))

pub and_digit : (a b : ℕ) → bit_and a b ≡ bit_and (a / 2) (b / 2) * 2 + min (a % 2) (b % 2)
and_digit zero b = simp bit_and-bitwise (omega arith)
and_digit (suc a) b = simp bit_and-bitwise (digits-suc (λ _. 0) min a b)

pub or_digit : (a b : ℕ) → bit_or a b ≡ bit_or (a / 2) (b / 2) * 2 + max (a % 2) (b % 2)
or_digit zero b = simp bit_or-bitwise (omega arith)
or_digit (suc a) b = simp bit_or-bitwise (digits-suc (λ y. y) max a b)

differ_bits : (x y : ℕ) → x < 2 → y < 2 → differ x y ≡ (x + y) % 2
differ_bits zero y p q = omega arith
differ_bits (suc zero) zero p q = refl
differ_bits (suc zero) (suc zero) p q = refl
differ_bits (suc zero) (suc (suc y)) p q = absurd (omega arith)
differ_bits (suc (suc x)) y p q = absurd (omega arith)

xor_digit_raw : (a b : ℕ) → bit_xor a b ≡ bit_xor (a / 2) (b / 2) * 2 + differ (a % 2) (b % 2)
xor_digit_raw zero b = simp bit_xor-bitwise (omega arith)
xor_digit_raw (suc a) b = simp bit_xor-bitwise (digits-suc (λ y. y) differ a b)

pub xor_digit : (a b : ℕ) → bit_xor a b ≡ bit_xor (a / 2) (b / 2) * 2 + (a % 2 + b % 2) % 2
xor_digit a b =
    omega (arith, xor_digit_raw a b, differ_bits (a % 2) (b % 2) (omega arith) (omega arith))

-- Induction that halves the argument.
pub halving {ℓ} : (P : ℕ → Type ℓ) → P 0 → ((n : ℕ) → 0 < n → P (n / 2) → P n) → (n : ℕ) → P n
halving P p0 step n = go n n (omega arith)
  where
    go : (k n : ℕ) → n ≤ k → P n
    go k zero h = p0
    go zero (suc n) h = absurd (omega arith)
    go (suc k) (suc n) h = step (suc n) (omega arith) (go k (suc n / 2) (omega arith))

pub xor_self : (a : ℕ) → bit_xor a a ≡ 0
xor_self = halving (λ a. bit_xor a a ≡ 0) refl (λ n h ih. omega (arith, xor_digit n n))

pub xor_zero : (a : ℕ) → bit_xor a 0 ≡ a
xor_zero = halving (λ a. bit_xor a 0 ≡ a) refl (λ n h ih. omega (arith, xor_digit n 0))

pub zero_xor : (a : ℕ) → bit_xor 0 a ≡ a
zero_xor a = simp bit_xor-bitwise refl

or_zero : (a : ℕ) → bit_or a 0 ≡ a
or_zero = halving (λ a. bit_or a 0 ≡ a) refl (λ n h ih. omega (arith, or_digit n 0))

and_zero : (a : ℕ) → bit_and a 0 ≡ 0
and_zero = halving (λ a. bit_and a 0 ≡ 0) refl (λ n h ih. omega (arith, and_digit n 0))

-- `^` of two numbers of `k` bits has `k` bits.
pub xor_lt : (k a b : ℕ) → a < 2 ^ k → b < 2 ^ k → bit_xor a b < 2 ^ k
xor_lt zero a b p q =
    let ea : a ≡ 0 = omega arith in let eb : b ≡ 0 = omega arith in rw (ea, eb) (omega arith)
xor_lt (suc k) a b p q = omega (
  arith,
  xor_digit a b,
  pow-suc 2 k,
  xor_lt k (a / 2) (b / 2) (omega (arith, pow-suc 2 k)) (omega (arith, pow-suc 2 k)),
)

shifted_suc : (q k : ℕ) → q * 2 ^ suc k ≡ 2 * (q * 2 ^ k)
shifted_suc q k = omega (arith, ap (λ (t : ℕ). q * t) (pow-suc 2 k))

-- `(q << k) | r` is a sum where `r` has `k` bits.
pub or_fields : (k q r : ℕ) → r < 2 ^ k → bit_or (q * 2 ^ k) r ≡ q * 2 ^ k + r
or_fields zero q r h = let e : r ≡ 0 = omega arith in rw e (omega (arith, or_zero (q * 2 ^ 0)))
or_fields (suc k) q r h = ground (
  arith,
  or_digit (q * 2 ^ suc k) r,
  shifted_suc q k,
  pow-suc 2 k,
  or_fields k q (r / 2) (omega (arith, pow-suc 2 k)),
)

-- A property of every byte, by evaluation.
module _ (f g : ℕ → ℕ) where
  same_below : ℕ → Bool
  same_below zero = true
  same_below (suc n) = (f n == g n) && same_below n

  same_below_lem : (n : ℕ) → same_below n ≡ true → (i : ℕ) → i < n → f i ≡ g i
  unfolding same_below
  same_below_lem zero h i lt = absurd (omega arith)
  same_below_lem (suc n) h i lt = ground (arith, same_below_lem n (ground arith) i)

-- Masks on one byte.
pub and_0f : (b : ℕ) → b < 256 → bit_and b 0x0f ≡ b % 16
unfolding same_below
and_0f = same_below_lem _ _ 256 refl

pub and_f0 : (b : ℕ) → b < 256 → bit_and b 0xf0 ≡ b / 16 * 16
unfolding same_below
and_f0 = same_below_lem _ _ 256 refl

pub and_1f : (b : ℕ) → b < 256 → bit_and b 0x1f ≡ b % 32
unfolding same_below
and_1f = same_below_lem _ _ 256 refl

pub and_80 : (b : ℕ) → b < 256 → bit_and b 0x80 ≡ b / 128 * 128
unfolding same_below
and_80 = same_below_lem _ _ 256 refl

pub and_40 : (b : ℕ) → b < 256 → bit_and b 0x40 ≡ b / 64 % 2 * 64
unfolding same_below
and_40 = same_below_lem _ _ 256 refl

pub or_40 : (b : ℕ) → b < 64 → bit_or b 0x40 ≡ b + 64
unfolding same_below
or_40 = same_below_lem _ _ 64 refl

pub or_e0 : (b : ℕ) → b < 32 → bit_or 0xe0 b ≡ 0xe0 + b
unfolding same_below
or_e0 = same_below_lem _ _ 32 refl

pub or_c1 : (b : ℕ) → b < 32 → bit_or 0xc1 (b * 2) ≡ 0xc1 + b * 2
unfolding same_below
or_c1 = same_below_lem _ _ 32 refl

-- Masks whose argument ranges over all numbers keep few bits.
and_lt_at : (k a b : ℕ) → b < 2 ^ k → bit_and a b < 2 ^ k
and_lt_at zero a b h = let e : b ≡ 0 = omega arith in rw e (omega (arith, and_zero a))
and_lt_at (suc k) a b h =
    omega
      (arith, and_digit a b, pow-suc 2 k, and_lt_at k (a / 2) (b / 2) (omega (arith, pow-suc 2 k)))

pub and_0f_lt : (a : ℕ) → bit_and a 0x0f < 16
and_0f_lt a = and_lt_at 4 a 0x0f (omega arith)

pub and_1f_lt : (a : ℕ) → bit_and a 0x1f < 32
and_1f_lt a = and_lt_at 5 a 0x1f (omega arith)

pub and_01 : (b : ℕ) → b < 256 → bit_and b 1 ≡ b % 2
unfolding same_below
and_01 = same_below_lem _ _ 256 refl

pub and_03 : (b : ℕ) → b < 256 → bit_and b 0x03 ≡ b % 4
unfolding same_below
and_03 = same_below_lem _ _ 256 refl
