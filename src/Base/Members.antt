-- ===== src/Base/Members.antt =====
-- Lists of numbers read as sets: membership, the removal of one element, and lists with no element twice.
use Prim.Native.Nat.{ℕ, suc}
use mathlib.Core.Path.{◌≡◌, refl}
use mathlib.Core.Bool.{Bool, true, false, ◌||◌}
use mathlib.Core.List.{List, [], ◌∷◌, ◌++◌}
use native.Mathlib.Omega.{arith}
use mahiron.Base.Tests.{◌==◌, if◌then◌else◌}
use mahiron.Base.Lists.{length}

unfoldable pub mem : ℕ → List ℕ → Bool
mem k [] = false
mem k (x ∷ l) = (x == k) || mem k l

-- The list without the first occurrence of the number.
unfoldable pub take_out : ℕ → List ℕ → List ℕ
take_out k [] = []
take_out k (x ∷ l) = if x == k then l else x ∷ take_out k l

abbrev pub IsUnique : List ℕ → Type 0
IsUnique [] = Unit {0}
IsUnique (x ∷ l) = (mem x l ≡ false) × IsUnique l

pub mem-append : (k : ℕ) (l r : List ℕ) → mem k (l ++ r) ≡ (mem k l || mem k r)
unfolding mem
mem-append k [] r = refl
mem-append k (x ∷ l) r = ground (arith, mem-append k l r)

pub mem-take_out_le : (k j : ℕ) (l : List ℕ) → mem j (take_out k l) ≡ true → mem j l ≡ true
unfolding mem take_out
mem-take_out_le k j [] h = h
mem-take_out_le k j (x ∷ l) h = ground (arith, mem-take_out_le k j l)

pub mem-take_out :
    (k j : ℕ) (l : List ℕ) → IsUnique l → mem j (take_out k l) ≡ (if k == j then false else mem j l)
unfolding mem take_out
mem-take_out k j [] u = ground arith
mem-take_out k j (x ∷ l) u = ground (arith, mem-take_out k j l u.1)

pub take_out-IsUnique : (k : ℕ) (l : List ℕ) → IsUnique l → IsUnique (take_out k l)
unfolding take_out
take_out-IsUnique k [] u = tt
take_out-IsUnique k (x ∷ l) u = ground (arith, take_out-IsUnique k l u.1, mem-take_out_le k x l)

pub length-take_out : (k : ℕ) (l : List ℕ) → mem k l ≡ true → suc (length (take_out k l)) ≡ length l
unfolding mem take_out
length-take_out k [] h = cc
length-take_out k (x ∷ l) h = ground (arith, length-take_out k l)

pub append-IsUnique : (k : ℕ) (l : List ℕ) → mem k l ≡ false → IsUnique l → IsUnique (l ++ k ∷ [])
unfolding mem
append-IsUnique k [] h u = (refl, tt)
append-IsUnique k (x ∷ l) h u = ground (arith, append-IsUnique k l, mem-append x l (k ∷ []))
