-- ===== src/Carousel/Room.antt =====
-- Room for a module: the incomplete modules that are evicted for it, the oldest first, and no more of
-- them than it needs.
use mahiron.Base.{
  ℕ, zero, suc, ◌+◌, ◌≤◌, ◌<◌, ◌≡◌, refl, Bool, true, false, [], ◌∷◌, length, if◌then◌else◌, arith,
  Bool-cases, inl, inr, subst,
}
use mahiron.Base.Assoc.{Map, remove}
use mahiron.Carousel.{
  ModuleState, Carousel, remove_module, over_in_flight, is_in_flight, evict_while, evict_oldest,
}
use mahiron.Carousel.Weight.{weight, flight_of}
use mahiron.Carousel.Budget.{IsBalanced, remove_module-IsBalanced, add64-eq}
use mahiron.Carousel.Eviction.{
  NoCandidate, Stopped, evict_while-step, Evicted, nothing, oldest_gone, evict_oldest-Evicted,
  no_modules, length-remove, IsCandidate, NoneOlder, remove_module-modules,
}

-- Without an incomplete module nothing is in flight.
none_in_flight : (m : Map ModuleState) → NoCandidate is_in_flight m → weight flight_of m ≡ 0
unfolding weight
none_in_flight [] h = refl
none_in_flight ((id, st) ∷ m) h = elim (Bool-cases st.completed) [
  | inl e ↦ rw e (omega (arith, none_in_flight m h.1))
  | inr e ↦ cc (e, h.0)
]

-- Behind an eviction that stopped there is room.
pub room :
    (size : ℕ) (c : Carousel)
    → size ≤ c.limits.max_in_flight_bytes
    → IsBalanced c
    → Stopped (over_in_flight size) is_in_flight c
    → (over_in_flight size c ≡ false) × (c.in_flight_bytes + size ≤ c.limits.max_in_flight_bytes)
room size c fits b stopped =
    let sane = b.sane.0 in
    let bound = b.flight_bound in
    let sum = add64-eq c.in_flight_bytes size (omega arith) in
    elim stopped [
      | inl e ↦ (e, ground arith)
      | inr none_left ↦
          let gone = none_in_flight c.modules none_left in
          let flight = b.flight in (ground arith, omega arith)
    ]

-- The maps on the way to room for some bytes: while they exceed the limit beside the sizes of the
-- incomplete modules, an incomplete module of the lowest generation goes, and no other.
pub data MakesRoom (limit size : ℕ) : Map ModuleState → Map ModuleState → Type 0 where
  enough : {m : Map ModuleState} → weight flight_of m + size ≤ limit → MakesRoom limit size m m
  evicts :
      {m m' : Map ModuleState} (id generation : ℕ)
      → limit < weight flight_of m + size
      → IsCandidate is_in_flight m id generation
      → NoneOlder is_in_flight generation m
      → MakesRoom limit size (remove id m) m'
      → MakesRoom limit size m m'

pub evict_while-MakesRoom :
    (fuel size limit : ℕ) (c : Carousel)
    → length c.modules ≤ fuel
    → c.limits.max_in_flight_bytes ≡ limit
    → size ≤ limit
    → IsBalanced c
    → MakesRoom limit size c.modules (evict_while fuel (over_in_flight size) is_in_flight c).modules
evict_while-MakesRoom zero size limit c h l fits b =
    let flight = b.flight in
    let open_ = (room size c (omega arith) b (inr (no_modules is_in_flight c.modules h))).1 in
    let last : weight flight_of c.modules + size ≤ limit = omega arith in
    unfold evict_while in enough last
evict_while-MakesRoom (suc fuel) size limit c h l fits b =
    elim (Bool-cases (over_in_flight size c)) [
      | inr done ↦
          let flight = b.flight in
          let open_ = (room size c (omega arith) b (inl done)).1 in
          let last : weight flight_of c.modules + size ≤ limit = omega arith in
          unfold evict_while in rw (done, evict_while) (enough last)
      | inl more ↦ rw (evict_while-step fuel (over_in_flight size) is_in_flight c more) (
          round (λ c' n k f d. evict_while-MakesRoom fuel size limit c' n k f d) more
            (evict_oldest is_in_flight c) (evict_oldest-Evicted is_in_flight c b.unique))
    ]
  where
    round :
        ((c' : Carousel)
          → length c'.modules ≤ fuel
          → c'.limits.max_in_flight_bytes ≡ limit
          → size ≤ limit
          → IsBalanced c'
          → MakesRoom limit size c'.modules
              (evict_while fuel (over_in_flight size) is_in_flight c').modules)
        → over_in_flight size c ≡ true
        → (r : Carousel × Bool) → Evicted is_in_flight c r
        → MakesRoom limit size c.modules
            (if r.1 then evict_while fuel (over_in_flight size) is_in_flight r.0 else r.0).modules
    round again more (_, _) (nothing none_left) =
        let flight = b.flight in
        let open_ = (room size c (omega arith) b (inr none_left)).1 in enough (omega arith)
    round again more (_, _) (oldest_gone id g cand none_older) =
        let (kept, less) = remove_module-IsBalanced id c b in
        let shorter = length-remove id cand.state c.modules b.unique cand.there in
        let left = remove_module-modules id c in
        let sane = b.sane.0 in
        let bound = b.flight_bound in
        let flight = b.flight in
        let sum = add64-eq c.in_flight_bytes size (omega arith) in
        let c' = remove_module id c in
        let same : c'.limits.max_in_flight_bytes ≡ limit = rw (less.limits) l in
        evicts id g (ground arith) cand none_older (
          subst
            (λ m.
              MakesRoom limit size m
                (evict_while fuel (over_in_flight size) is_in_flight c').modules)
            left (again c' (rw left (omega arith)) same fits kept))
