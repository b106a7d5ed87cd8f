-- ===== src/Base/Result.antt =====
-- The outcomes of Go code. `err` carries the error value; `panic` is a run-time panic (an index or
-- a slice bound out of range); `stuck` is no Go outcome: the fuel of a loop in the model ran out.
use Prim.Native.Nat.{ℕ, ◌-◌, ◌≤◌, ◌<◌}
use mathlib.Core.Path.{◌≡◌, refl, ap, subst}
use mathlib.Core.Bool.{Bool, true, false, ◌&&◌}
use mathlib.Core.Option.{Option, none, some}
use mathlib.Core.List.{List, [], ◌∷◌}
use mahiron.Base.Tests.{leb, if◌then◌else◌, le→leb}
use mahiron.Base.Lists.{length, get_elem?, get_or, take, drop, get_elem?-eq_some}

-- The error values of the `ts` package that the modelled code returns.
pub data Error : Type 0 where
  invalid_section : Error
  invalid_pmt_pid : ℕ → Error
  unexpected_descriptor_tag : ℕ → Error
  budget_exceeded : Error

pub data Result {ℓ} (A : Type ℓ) : Type ℓ where
  ok : A → Result A
  err : Error → Result A
  panic : Result A
  stuck : Result A

infixl 5 ◌>>=◌ ◌>>◌
abbrev pub ◌>>=◌ {ℓ κ} : {A : Type ℓ} {B : Type κ} → Result A → (A → Result B) → Result B
ok a >>= f = f a
err e >>= f = err e
panic >>= f = panic
stuck >>= f = stuck

abbrev pub ◌>>◌ {ℓ κ} : {A : Type ℓ} {B : Type κ} → Result A → Result B → Result B
m >> k = m >>= λ _. k

-- `if test { return err }`
abbrev pub require : Bool → Error → Result (Unit {0})
require true e = err e
require false e = ok tt

-- `a || b` and `a && b`, where `b` is evaluated only if `a` does not decide.
abbrev pub or_else : Bool → Result Bool → Result Bool
or_else true m = ok true
or_else false m = m

abbrev pub and_then : Bool → Result Bool → Result Bool
and_then true m = m
and_then false m = ok false

abbrev pub of_option {ℓ} : {A : Type ℓ} → Option A → Result A
of_option none = panic
of_option (some a) = ok a

-- `s[i]` and `s[lo:hi]`. A slice's end is checked against its length: the code modelled here never
-- extends a slice into the capacity behind it.
unfoldable pub index {ℓ} : {A : Type ℓ} → List A → ℕ → Result A
index s i = of_option (get_elem? s i)

unfoldable pub slice {ℓ} : {A : Type ℓ} → List A → ℕ → ℕ → Result (List A)
slice s lo hi = if leb lo hi && leb hi (length s) then ok (take (hi - lo) (drop lo s)) else panic

pub ok_injective {ℓ} : {A : Type ℓ} {a b : A} → ok a ≡ ok b → a ≡ b
ok_injective e = cc

module _ {ℓ} {A : Type ℓ} where
  pub index-eq_ok : (s : List A) (i : ℕ) (d : A) → i < length s → index s i ≡ ok (get_or s i d)
  unfolding index
  index-eq_ok s i d h = ap of_option (get_elem?-eq_some s i d h)

  pub slice-eq_ok :
      (s : List A) (lo hi : ℕ)
      → lo ≤ hi
      → hi ≤ length s
      → slice s lo hi ≡ ok (take (hi - lo) (drop lo s))
  unfolding slice
  slice-eq_ok s lo hi h k = rw (le→leb _ _ h) (rw (le→leb _ _ k) refl)

  -- The code returns, with a value that satisfies `P` or with an error value.
  pub data Returns {κ} (P : A → Type κ) : Result A → Type (ℓ ⊔ κ) where
    value : {a : A} → P a → Returns P (ok a)
    error : {e : Error} → Returns P (err e)

-- No panic, and no loop that runs out of fuel: the code returns a value or an error.
abbrev pub Ends {ℓ} : {A : Type ℓ} → Result A → Type ℓ
Ends = Returns (λ _. Unit {0})

module _ {ℓ} {A : Type ℓ} where
  pub index-Ends : (s : List A) (i : ℕ) → i < length s → Ends (index s i)
  index-Ends [] i h = elim h [ ]
  index-Ends (x ∷ s) i h = rw (index-eq_ok (x ∷ s) i x h) (value tt)

  pub slice-Ends : (s : List A) (lo hi : ℕ) → lo ≤ hi → hi ≤ length s → Ends (slice s lo hi)
  slice-Ends s lo hi h k = rw (slice-eq_ok s lo hi h k) (value tt)

  pub Returns-mono {κ ι} :
      {P : A → Type κ} {Q : A → Type ι} {m : Result A}
      → Returns P m
      → ((a : A) → P a → Q a)
      → Returns Q m
  Returns-mono (value p) k = value (k _ p)
  Returns-mono error k = error

  -- What a returned value satisfies.
  pub Returns-ok {κ} : {P : A → Type κ} {m : Result A} {a : A} → Returns P m → m ≡ ok a → P a
  Returns-ok {P = P} (value p) e = subst P (ok_injective e) p
  Returns-ok error e = cc

module _ {ℓ κ ι μ} {A : Type ℓ} {B : Type κ} {P : A → Type ι} {Q : B → Type μ} where
  pub Returns-bind :
      {m : Result A} {f : A → Result B}
      → Returns P m
      → ((a : A) → P a → Returns Q (f a))
      → Returns Q (m >>= f)
  Returns-bind (value p) k = k _ p
  Returns-bind error k = error

pub or_else-Ends : (b : Bool) {m : Result Bool} → Ends m → Ends (or_else b m)
or_else-Ends true h = value tt
or_else-Ends false h = h

pub and_then-Ends : (b : Bool) {m : Result Bool} → Ends m → Ends (and_then b m)
and_then-Ends true h = h
and_then-Ends false h = value tt

pub require-Ends : (b : Bool) (e : Error) → Ends (require b e)
require-Ends true e = error
require-Ends false e = value tt

-- Both ways of a test, and a test with an error behind it; what follows may assume its outcome.
module _ {ℓ κ} {A : Type ℓ} {P : A → Type κ} where
  pub otherwise :
      (b : Bool) {x y : Result A}
      → (b ≡ true → Returns P x)
      → (b ≡ false → Returns P y)
      → Returns P (if b then x else y)
  otherwise true k l = k refl
  otherwise false k l = l refl

  pub unless :
      (bad : Bool) {rest : Result A}
      → (bad ≡ false → Returns P rest)
      → Returns P (if bad then err Error.invalid_section else rest)
  unless true k = error
  unless false k = k refl
