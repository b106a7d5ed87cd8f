-- ===== src/Carousel/Splice.antt =====
-- What a buffer holds after the copy of a block into it.
use mahiron.Base.{
  ℕ, zero, suc, ◌+◌, ◌-◌, ◌≤◌, ◌≡◌, refl, ap, ◌∙◌, true, false, [], ◌∷◌, ◌++◌, length, ltb, leb,
  ◌&&◌, if◌then◌else◌, arith, Bool-cases, inl, inr, take, drop, length-take, get_or-append_lt,
  get_or-take,
}
use mahiron.Ts.Words.{Bytes, at}
use mahiron.Carousel.Blocks.{splice}

pub at-drop : (n : ℕ) (xs : Bytes) (i : ℕ) → at (drop n xs) i ≡ at xs (n + i)
at-drop zero xs i = ap (at xs) (omega arith)
at-drop (suc n) [] i = refl
at-drop (suc n) (x ∷ xs) i =
    at-drop n xs i ∙ (let e : suc (n + i) ≡ suc n + i = omega arith in ap (at (x ∷ xs)) e)

at-append_ge : (xs ys : Bytes) (i : ℕ) → length xs ≤ i → at (xs ++ ys) i ≡ at ys (i - length xs)
at-append_ge [] ys i h = ap (at ys) (omega arith)
at-append_ge (x ∷ xs) ys zero h = absurd (omega arith)
at-append_ge (x ∷ xs) ys (suc i) h = at-append_ge xs ys i (omega arith) ∙ ap (at ys) (omega arith)

-- What a range of a buffer holds after a copy into it.
pub at-splice :
    (bytes : Bytes) (off end_ : ℕ) (from : Bytes) (i : ℕ)
    → off ≤ end_
    → end_ ≤ length bytes
    → end_ ≤ off + length from
    → at (splice bytes off end_ from) i
      ≡ (if leb off i && ltb i end_ then at from (i - off) else at bytes i)
unfolding splice
at-splice bytes off end_ from i h k l =
    let head = length-take off bytes in
    let middle = length-take (end_ - off) from in
    elim (Bool-cases (ltb i off)) [
      | inl before ↦
          let left : leb off i ≡ false = ground arith in
          rw left (
            get_or-append_lt (take off bytes) _ i 0 (ground arith)
            ∙ get_or-take off bytes i 0 (ground arith))
      | inr behind ↦
          let right : leb off i ≡ true = ground arith in
          let i' : ℕ = i - length (take off bytes) in
          at-append_ge (take off bytes) _ i (ground arith) ∙ elim (Bool-cases (ltb i end_)) [
            | inl inside ↦
                let e : i' ≡ i - off = ground arith in
                rw right (
                  rw inside (
                    get_or-append_lt (take (end_ - off) from) _ i' 0 (ground arith)
                    ∙ get_or-take (end_ - off) from i' 0 (ground arith)
                    ∙ ap (at from) e))
            | inr outside ↦
                let e : end_ + (i' - length (take (end_ - off) from)) ≡ i = ground arith in
                rw right (
                  rw outside (
                    at-append_ge (take (end_ - off) from) _ i' (ground arith)
                    ∙ at-drop end_ bytes _
                    ∙ ap (at bytes) e))
          ]
    ]
