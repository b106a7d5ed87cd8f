-- ===== src/Carousel/Announce.antt =====
-- A DII keeps the books: modules are rejected, evicted, allocated and forgotten within the budgets.
use mahiron.Base.{
  ℕ, zero, suc, ◌+◌, ◌≤◌, ◌<◌, ◌^◌, ◌≡◌, refl, ap, subst, ◌∙◌, Bool, true, false, length, ltb, ◌==◌,
  if◌then◌else◌, Option, none, some, arith, Bool-cases, inl, inr, ==_refl, replicate,
  length-replicate,
}
use mahiron.Base.Assoc.{Map, lookup, insert, remove, insert-IsMap, lookup-remove, lookup-insert}
use mahiron.Carousel.{
  Limits, ModuleInfo, Dii, Reason, ModuleState, Carousel, add64, remove_module, over_in_flight,
  is_in_flight, evict_while, reject, is_current, same_announcement, block_count, fresh_state,
  allocate, admit, observe_module, in_flight_budget_exceeded, module_size_zero, block_size_zero,
  module_size_limit_exceeded,
}
use mahiron.Carousel.Weight.{flight_of, payload_of, weight-insert_new, Each-insert}
use mahiron.Carousel.Budget.{
  marked, IsState, IsWithin, remove_module-IsBalanced, Shrinks-IsWithin, add64-eq,
}
use mahiron.Carousel.Room.{MakesRoom, room, evict_while-MakesRoom}
use mahiron.Carousel.Eviction.{Stopped, evict_while-Stopped, remove_module-modules}

-- The sizes of a DII are uint32.
abbrev pub IsInfo : ModuleInfo → Type 0
IsInfo item = item.module_size < 2 ^ 32

marked-replicate : (n : ℕ) → marked (replicate n false) ≡ 0
marked-replicate zero = refl
marked-replicate (suc n) = omega (arith, marked-replicate n)

fresh_state-IsState :
    (dii : Dii) (item : ModuleInfo) (g : ℕ) → IsInfo item → IsState (fresh_state dii item g)
unfolding fresh_state
fresh_state-IsState dii item g h = record {
  sized = h;
  filled = λ _. length-replicate item.module_size 0;
  counted = λ _. marked-replicate (block_count item.module_size dii.block_size);
}

-- The map of rejected modules is no part of the books.
pub books :
    (c : Carousel) (r : Map (ModuleInfo × Reason))
    → IsWithin c
    → IsWithin (record c { rejected = r })
books c r (b, w) = (
  record {
    sane = b.sane;
    unique = b.unique;
    each = b.each;
    flight = b.flight;
    payload = b.payload;
    flight_bound = b.flight_bound;
    payload_bound = b.payload_bound;
  },
  w,
)

remove_module-IsWithin : (id : ℕ) (c : Carousel) → IsWithin c → IsWithin (remove_module id c)
remove_module-IsWithin id c w =
    let (b, s) = remove_module-IsBalanced id c w.0 in Shrinks-IsWithin w b s

remove_module-absent : (id : ℕ) (c : Carousel) → lookup id (remove_module id c).modules ≡ none
remove_module-absent id c =
    rw (remove_module-modules id c) (lookup-remove id id c.modules ∙ rw (==_refl id) refl)

allocate-IsWithin :
    (dii : Dii) (item : ModuleInfo) (c : Carousel)
    → IsInfo item
    → lookup item.module_id c.modules ≡ none
    → c.in_flight_bytes + item.module_size ≤ c.limits.max_in_flight_bytes
    → IsWithin c
    → IsWithin (allocate dii item c)
unfolding allocate fresh_state
allocate-IsWithin dii item c i new room (b, w) =
    let st = fresh_state dii item (add64 c.generation 1) in
    let sane = b.sane.0 in
    let more = weight-insert_new flight_of item.module_id st c.modules new in
    let same = weight-insert_new payload_of item.module_id st c.modules new in
    let grown = add64-eq c.in_flight_bytes item.module_size (omega arith) in
    let flight = b.flight in
    let payload = b.payload in
    (
      record {
        sane = b.sane;
        unique = insert-IsMap item.module_id st c.modules b.unique;
        each =
            Each-insert IsState item.module_id st c.modules b.each
              (fresh_state-IsState dii item (add64 c.generation 1) i);
        flight = omega arith;
        payload = omega arith;
        flight_bound = omega arith;
        payload_bound = b.payload_bound;
      },
      w,
    )

-- What one module of a DII changes in the map: nothing if this announcement is there, else the module's
-- former state goes, room is made for the new one, and it is put in place.
pub data Change (dii : Dii) (item : ModuleInfo) (c : Carousel) (state : ModuleState)
    : Carousel → Type 0 where
  untouched :
      is_current dii item (lookup item.module_id c.modules) ≡ true → Change dii item c state c
  replaced :
      {room_made : Map ModuleState} {c' : Carousel}
      → is_current dii item (lookup item.module_id c.modules) ≡ false
      → MakesRoom c.limits.max_in_flight_bytes item.module_size
          (remove item.module_id c.modules)
          room_made
      → c'.modules ≡ insert item.module_id state room_made
      → Change dii item c state c'

-- What one module of a DII leads to.
pub record Announced (dii : Dii) (item : ModuleInfo) (c : Carousel) (r : Carousel × Bool)
    : Type 0 where
  pub accepted : r.1 ≡ true
  pub state : ModuleState
  pub there : lookup item.module_id r.0.modules ≡ some state
  pub current : is_current dii item (some state) ≡ true
  pub changed : Change dii item c state r.0

allocate-modules :
    (dii : Dii) (item : ModuleInfo) (c : Carousel)
    → (allocate dii item c).modules
      ≡ insert item.module_id (fresh_state dii item (add64 c.generation 1)) c.modules
unfolding allocate
allocate-modules dii item c = refl

fresh_state-current :
    (dii : Dii) (item : ModuleInfo) (g : ℕ)
    → is_current dii item (some (fresh_state dii item g)) ≡ true
unfolding is_current same_announcement fresh_state
fresh_state-current dii item g =
    rw
      (
        ==_refl dii.download_id,
        ==_refl item.version,
        ==_refl item.module_size,
        ==_refl dii.block_size,
      )
      refl

module _ (dii : Dii) (item : ModuleInfo) (i : IsInfo item) where
  admit-Announced :
      (old c : Carousel)
      → is_current dii item (lookup item.module_id old.modules) ≡ false
      → MakesRoom old.limits.max_in_flight_bytes item.module_size
          (remove item.module_id old.modules)
          c.modules
      → item.module_size ≤ c.limits.max_in_flight_bytes
      → lookup item.module_id c.modules ≡ none
      → Stopped (over_in_flight item.module_size) is_in_flight c
      → IsWithin c
      → Announced dii item old (admit dii item c)
        × (IsWithin (admit dii item c).0 × ((admit dii item c).0.limits ≡ c.limits))
  unfolding admit
  admit-Announced old c other makes fits new stopped w =
      let (open_, below) = room item.module_size c fits w.0 stopped in
      let g = add64 c.generation 1 in
      rw (open_, admit)
        (
          record {
            accepted = refl;
            state = fresh_state dii item g;
            there =
                unfold allocate in
                (lookup-insert item.module_id item.module_id (fresh_state dii item g) c.modules
                  ∙ rw (==_refl item.module_id) refl);
            current = fresh_state-current dii item g;
            changed = replaced other makes (allocate-modules dii item c);
          },
          (allocate-IsWithin dii item c i new below w, unfold allocate in refl),
        )

  -- A module that the limits admit.
  abbrev pub Fits : Limits → Type 0
  Fits l =
      (0 < item.module_size)
      × (0 < dii.block_size)
      × (item.module_size ≤ l.max_module_size)
      × (item.module_size ≤ l.max_in_flight_bytes)

  -- The end of the loop's body: what is not announced yet makes room for itself.
  replace-Announced :
      (old c : Carousel)
      → is_current dii item (lookup item.module_id old.modules) ≡ false
      → c.modules ≡ remove item.module_id old.modules
      → c.limits.max_in_flight_bytes ≡ old.limits.max_in_flight_bytes
      → item.module_size ≤ c.limits.max_in_flight_bytes
      → lookup item.module_id c.modules ≡ none
      → IsWithin c
      → (n : ℕ) → length c.modules ≤ n
      → Announced dii item old
          (admit dii item (evict_while n (over_in_flight item.module_size) is_in_flight c))
        × (IsWithin
              (admit dii item (evict_while n (over_in_flight item.module_size) is_in_flight c)).0
            × ((admit dii item
                  (evict_while n (over_in_flight item.module_size) is_in_flight c)).0.limits
                ≡ c.limits))
  replace-Announced old c other modules limits fits new w n fuelled =
      let over = over_in_flight item.module_size in
      let (kept, s, stopped) = evict_while-Stopped n over is_in_flight c fuelled w.0 in
      let c' = evict_while n over is_in_flight c in
      let l : c'.limits ≡ c.limits = s.limits in
      let (a, (w', l')) =
        admit-Announced old c' other
          (subst (λ m. MakesRoom old.limits.max_in_flight_bytes item.module_size m c'.modules)
            modules
            (evict_while-MakesRoom n item.module_size old.limits.max_in_flight_bytes c fuelled
              limits (rw (← limits) fits) w.0))
          (rw l fits) (s.absent item.module_id new) stopped (Shrinks-IsWithin w kept s) in
      (a, (w', l' ∙ l))

  refuse-IsWithin :
      (id : ℕ) (reason : Reason) (c : Carousel)
      → IsWithin c
      → IsWithin (reject item reason (remove_module id c))
        × ((reject item reason (remove_module id c)).limits ≡ c.limits)
  unfolding reject
  refuse-IsWithin id reason c w =
      let (b, s) = remove_module-IsBalanced id c w.0 in
      (
        books (remove_module id c)
            (insert item.module_id (item, reason) (remove_module id c).rejected)
            (Shrinks-IsWithin w b s),
        s.limits,
      )

  -- Behind the guards: the module is current, too large for the budget, or it replaces what was there.
  abbrev guarded : Carousel → Carousel × Bool
  guarded c =
      if is_current dii item (lookup item.module_id c.modules)
      then (c, true)
      else let c'' = remove_module item.module_id c in
        if ltb c''.limits.max_in_flight_bytes item.module_size
        then (reject item in_flight_budget_exceeded c'', false)
        else admit dii item
            (evict_while (length c''.modules) (over_in_flight item.module_size) is_in_flight c'')

  guarded-IsWithin :
      (c : Carousel) → IsWithin c → IsWithin (guarded c).0 × ((guarded c).0.limits ≡ c.limits)
  guarded-IsWithin c w = elim (Bool-cases (is_current dii item (lookup item.module_id c.modules))) [
    | inl e ↦ rw e (w, refl)
    | inr e ↦
        rw e
          (elim (Bool-cases
            (ltb (remove_module item.module_id c).limits.max_in_flight_bytes item.module_size)) [
              | inl large ↦ rw large (refuse-IsWithin item.module_id in_flight_budget_exceeded c w)
              | inr small ↦
                  let c' = remove_module item.module_id c in
                  let (b, s) = remove_module-IsBalanced item.module_id c w.0 in
                  let (_, (w', l)) =
                    replace-Announced c c' e (remove_module-modules item.module_id c)
                      (ap (λ x. x.max_in_flight_bytes) s.limits) (ground arith)
                      (remove_module-absent item.module_id c) (Shrinks-IsWithin w b s)
                      (length c'.modules) (omega arith) in
                  rw small (w', l ∙ s.limits)
            ])
  ]

  present :
      (found : Option ModuleState)
      → is_current dii item found ≡ true
      → (st : ModuleState) × (found ≡ some st)
  unfolding is_current
  present none e = cc
  present (some st) e = (st, refl)

  guarded-Announced : (c : Carousel) → IsWithin c → Fits c.limits → Announced dii item c (guarded c)
  guarded-Announced c w (_, _, _, fits) =
      elim (Bool-cases (is_current dii item (lookup item.module_id c.modules))) [
        | inl e ↦
            let (st, found) = present (lookup item.module_id c.modules) e in
            let cur : is_current dii item (some st) ≡ true = rw (← found) e in
            rw e (record {
              accepted = refl;
              state = st;
              there = found;
              current = cur;
              changed = untouched e;
            })
        | inr e ↦
            let c' = remove_module item.module_id c in
            let (b, s) = remove_module-IsBalanced item.module_id c w.0 in
            let fits' : item.module_size ≤ c'.limits.max_in_flight_bytes = rw s.limits fits in
            let (a, _) =
              replace-Announced c c' e (remove_module-modules item.module_id c)
                (ap (λ x. x.max_in_flight_bytes) s.limits) fits'
                (remove_module-absent item.module_id c) (Shrinks-IsWithin w b s) (length c'.modules)
                (omega arith) in
            let small : ltb c'.limits.max_in_flight_bytes item.module_size ≡ false = ground arith in
            rw e (rw small a)
      ]

  -- The carousel without a former rejection of the module.
  abbrev pub cleared : Carousel → Carousel
  cleared c = record c { rejected = remove item.module_id c.rejected }

  -- On a balanced state within its budgets, one round of `ObserveDII` for a module whose uint32 size
  -- and block size are not 0 and whose size is within the limits of a module and of the in-flight
  -- bytes always accepts it: the map then holds a state of this announcement. If it held one before,
  -- the map is unchanged. If not, the module's former state goes, and while the new one exceeds the
  -- limit of the in-flight bytes an incomplete module of the lowest generation goes; all others stay.
  pub observe_module-Announced :
      (c : Carousel)
      → IsWithin c
      → Fits c.limits
      → Announced dii item (cleared c) (observe_module dii item c)
  unfolding observe_module
  observe_module-Announced c w fits =
      let (s, k, m, _) = fits in
      let e1 : (item.module_size == 0) ≡ false = ground arith in
      let e2 : (dii.block_size == 0) ≡ false = ground arith in
      let e3 : ltb c.limits.max_module_size item.module_size ≡ false = ground arith in
      let c' : Carousel = record c { rejected = remove item.module_id c.rejected } in
      let a : Announced dii item c' (guarded c') =
        guarded-Announced c' (books c (remove item.module_id c.rejected) w) fits in
      rw (e1, observe_module) (rw e2 (rw e3 a))

  -- Every branch for one module of a DII keeps the books and the limits.
  pub observe_module-IsWithin :
      (c : Carousel)
      → IsWithin c
      → IsWithin (observe_module dii item c).0 × ((observe_module dii item c).0.limits ≡ c.limits)
  unfolding observe_module
  observe_module-IsWithin c w = elim (Bool-cases (item.module_size == 0)) [
    | inl e ↦ rw (e, observe_module) (refuse-IsWithin item.module_id module_size_zero c w)
    | inr e1 ↦
        rw (e1, observe_module)
          (elim (Bool-cases (dii.block_size == 0)) [
            | inl e ↦ rw e (refuse-IsWithin item.module_id block_size_zero c w)
            | inr e2 ↦ rw e2 (elim (Bool-cases (ltb c.limits.max_module_size item.module_size)) [
              | inl e ↦ rw e (refuse-IsWithin item.module_id module_size_limit_exceeded c w)
              | inr e3 ↦
                  let c' : Carousel = record c { rejected = remove item.module_id c.rejected } in
                  let g : IsWithin (guarded c').0 × ((guarded c').0.limits ≡ c.limits) =
                    guarded-IsWithin c' (books c (remove item.module_id c.rejected) w) in
                  rw e3 g
            ])
          ])
  ]
