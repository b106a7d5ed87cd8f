-- ===== src/Carousel/Observe.antt =====
-- A whole DII keeps the books: its modules one after the other, then what it does not announce is forgotten.
use mahiron.Base.{ℕ, ◌≡◌, refl, ◌∙◌, Bool, true, false, List, [], ◌∷◌, ◌++◌, if◌then◌else◌, All}
use mahiron.Base.Assoc.{Map}
use mahiron.Carousel.{
  ModuleInfo, Dii, ModuleState, Carousel, remove_module, observe_module, observe_modules,
  remove_unseen, keep_seen, observe_dii, seen,
}
use mahiron.Carousel.Budget.{IsWithin, remove_module-IsBalanced, Shrinks-IsWithin}
use mahiron.Carousel.Announce.{IsInfo, books, observe_module-IsWithin}

-- The modules of a DII, one after the other.
observe_modules-IsWithin :
    (dii : Dii) (items : List ModuleInfo) (c : Carousel) (accepted : List ModuleInfo)
    → All IsInfo items
    → IsWithin c
    → IsWithin (observe_modules dii items c accepted).0
      × ((observe_modules dii items c accepted).0.limits ≡ c.limits)
unfolding observe_modules
observe_modules-IsWithin dii [] c accepted a w = (w, refl)
observe_modules-IsWithin dii (item ∷ rest) c accepted a w =
    let (c', yes_) = observe_module dii item c in
    let (w', l) = observe_module-IsWithin dii item a.0 c w in
    let (w'', l') =
      observe_modules-IsWithin dii rest c' (if yes_ then accepted ++ item ∷ [] else accepted) a.1
        w' in
    (w'', l' ∙ l)

drop_one :
    (known : Bool) (id : ℕ) (c : Carousel)
    → IsWithin c
    → IsWithin (if known then c else remove_module id c)
      × ((if known then c else remove_module id c).limits ≡ c.limits)
drop_one true id c w = (w, refl)
drop_one false id c w =
    let (b, s) = remove_module-IsBalanced id c w.0 in (Shrinks-IsWithin w b s, s.limits)

remove_unseen-IsWithin :
    (announced : List ModuleInfo) (m : Map ModuleState) (c : Carousel)
    → IsWithin c
    → IsWithin (remove_unseen announced m c) × ((remove_unseen announced m c).limits ≡ c.limits)
unfolding remove_unseen
remove_unseen-IsWithin announced [] c w = (w, refl)
remove_unseen-IsWithin announced ((id, st) ∷ m) c w =
    let (w', l) = drop_one (seen id announced) id c w in
    let (w'', l') =
      remove_unseen-IsWithin announced m (if seen id announced then c else remove_module id c) w' in
    (w'', l' ∙ l)

-- A DII keeps the books, whatever it announces.
pub observe_dii-IsWithin :
    (dii : Dii) (c : Carousel)
    → All IsInfo dii.modules
    → IsWithin c
    → IsWithin (observe_dii dii c).0 × ((observe_dii dii c).0.limits ≡ c.limits)
unfolding observe_dii
observe_dii-IsWithin dii c a w =
    let (w', l) = observe_modules-IsWithin dii dii.modules c [] a w in
    let c' = (observe_modules dii dii.modules c []).0 in
    let (w'', l') = remove_unseen-IsWithin dii.modules c'.modules c' w' in
    let c'' = remove_unseen dii.modules c'.modules c' in
    (books c'' (keep_seen dii.modules c''.rejected) w'', l' ∙ l)
