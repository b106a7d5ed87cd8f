-- ===== src/Ts/Descriptors/Loops.antt =====
-- The two descriptor loops against one specification: a byte string is a chain of descriptors and
-- a rest that holds no whole descriptor.
use mahiron.Base.{
  ℕ, zero, suc, ◌+◌, ◌<◌, ◌≤◌, ◌≡◌, ◌≢◌, ◌⊎◌, ◌↔◌, inl, inr, refl, sym, subst, ap, ap₂, ◌∙◌, false,
  List, [], ◌∷◌, ◌++◌, length, take, drop, concat, All, ltb, ◌==◌, if◌then◌else◌, arith,
  append_assoc, append-nil, Bool-cases, length-append, length-take, length-drop, take-append-drop,
  get_or-take, take_of_length-le, ==-eq_false, take-append_length, drop-append_length,
  get_or-append_lt,
}
use mahiron.Base.Result.{Result, ok, err, Error, slice, index-eq_ok, slice-eq_ok, ok_injective}
use mahiron.Ts.Words.{Bytes, at}
use mahiron.Ts.Descriptors.{
  Descriptor, descriptors_loop, parse_descriptors, strict_loop, parse_descriptors_strict,
}

-- A descriptor is as long as its second byte says.
abbrev pub IsDescriptor : Descriptor → Type 0
IsDescriptor d = (2 ≤ length d) × (length d ≡ 2 + at d 1)

-- Nothing more can be read: less than a head, or less than the head announces.
abbrev pub IsCut : Bytes → Type 0
IsCut b = (length b < 2) ⊎ (length b < 2 + at b 1)

-- What both loops read first, from a byte string that is not cut.
module _ (b : Bytes) (two : 2 ≤ length b) (fits : 2 + at b 1 ≤ length b) where
  first : Descriptor
  first = take (2 + at b 1) b

  rest : Bytes
  rest = drop (2 + at b 1) b

  first-IsDescriptor : IsDescriptor first
  unfolding first
  first-IsDescriptor =
      let e = length-take (2 + at b 1) b in
      let n = get_or-take (2 + at b 1) b 1 0 (omega arith) in (omega arith, omega arith)

  first-slice : slice b 0 (2 + at b 1) ≡ ok first
  unfolding first
  first-slice =
      slice-eq_ok b 0 (2 + at b 1) (omega arith) fits ∙ ap (λ n. ok (take n b)) (omega arith)

  rest-slice : slice b (2 + at b 1) (length b) ≡ ok rest
  unfolding rest
  rest-slice =
      slice-eq_ok b (2 + at b 1) (length b) fits (omega arith)
      ∙ ap ok (take_of_length-le _ _ (omega (arith, length-drop (2 + at b 1) b)))

  rest-shorter : length rest < length b
  unfolding rest
  rest-shorter = omega (arith, length-drop (2 + at b 1) b)

  first-rest : first ++ rest ≡ b
  unfolding first rest
  first-rest = take-append-drop (2 + at b 1) b

  lenient_step :
      (fuel : ℕ) (ds : List Descriptor)
      → descriptors_loop (suc fuel) ds b ≡ descriptors_loop fuel (ds ++ first ∷ []) rest
  unfolding descriptors_loop
  lenient_step fuel ds = ground (arith, index-eq_ok b 1 0 (omega arith), first-slice, rest-slice)

  strict_step :
      (fuel : ℕ) (ds : List Descriptor)
      → strict_loop (suc fuel) ds b ≡ strict_loop fuel (ds ++ first ∷ []) rest
  unfolding strict_loop
  strict_step fuel ds = ground (arith, index-eq_ok b 1 0 (omega arith), first-slice, rest-slice)

lenient_stop :
    (fuel : ℕ) (ds : List Descriptor) (b : Bytes)
    → IsCut b
    → descriptors_loop (suc fuel) ds b ≡ ok ds
unfolding descriptors_loop
lenient_stop fuel ds b (inl few) = ground arith
lenient_stop fuel ds b (inr cut) = elim (Bool-cases (ltb (length b) 2)) [
  | inl few ↦ rw few
  | inr two ↦ rw two (rw (index-eq_ok b 1 0 (ground arith)) (ground arith))
]

strict_stop :
    (fuel : ℕ) (ds : List Descriptor) (b : Bytes)
    → IsCut b
    → b ≢ []
    → strict_loop (suc fuel) ds b ≡ err Error.invalid_section
unfolding strict_loop
strict_stop fuel ds [] cut ne = absurd (ne refl)
strict_stop fuel ds (x ∷ b) (inl few) ne = ground arith
strict_stop fuel ds (x ∷ []) (inr cut) ne = ground arith
strict_stop fuel ds (x ∷ y ∷ b) (inr cut) ne =
    ground (arith, index-eq_ok (x ∷ y ∷ b) 1 0 (omega arith))

-- A byte string as both loops see it.
pub record Split (b : Bytes) : Type 0 where
  pub descriptors : List Descriptor
  pub left : Bytes
  pub splits : concat descriptors ++ left ≡ b
  pub each : All IsDescriptor descriptors
  pub stops : IsCut left

IsCut-cases : (b : Bytes) → IsCut b ⊎ ((2 ≤ length b) × (2 + at b 1 ≤ length b))
IsCut-cases b = ground arith

-- The result of either loop, from any point on.
module _ (b : Bytes) (s : Split b) where
  abbrev strict_result : List Descriptor → Result (List Descriptor)
  strict_result ds =
      if length s.left == 0 then ok (ds ++ s.descriptors) else err Error.invalid_section

nil_cases : (b : Bytes) → (b ≡ []) ⊎ (0 < length b)
nil_cases [] = inl refl
nil_cases (x ∷ b) = inr (omega arith)

strict_loop_nil : (fuel : ℕ) (ds : List Descriptor) → strict_loop (suc fuel) ds [] ≡ ok ds
unfolding strict_loop
strict_loop_nil fuel ds = refl

abbrev stopped : (b : Bytes) → IsCut b → Split b
stopped b cut = record { descriptors = []; left = b; splits = refl; each = tt; stops = cut }

strict_at_cut :
    (fuel : ℕ) (ds : List Descriptor) (b : Bytes) (cut : IsCut b)
    → strict_loop (suc fuel) ds b ≡ strict_result b (stopped b cut) ds
strict_at_cut fuel ds [] cut = strict_loop_nil fuel ds ∙ ap ok (sym (append-nil ds))
strict_at_cut fuel ds (x ∷ b) cut =
    let ne : (suc (length b) == 0) ≡ false = ==-eq_false _ _ (omega arith) in
    rw ne (strict_stop fuel ds (x ∷ b) cut (λ e. cc))

loops_split :
    (fuel : ℕ) (b : Bytes)
    → length b < fuel
    → (s : Split b) × ((ds : List Descriptor)
        → descriptors_loop fuel ds b ≡ ok (ds ++ s.descriptors))
      × ((ds : List Descriptor) → strict_loop fuel ds b ≡ strict_result b s ds)
loops_split zero b h = elim h [ ]
loops_split (suc fuel) b h = elim (IsCut-cases b) [
  | inl cut ↦ (
    stopped b cut,
    λ ds. lenient_stop fuel ds b cut ∙ ap ok (sym (append-nil ds)),
    λ ds. strict_at_cut fuel ds b cut,
  )
  | inr (two, fits) ↦
      let d : Descriptor = first b two fits in
      let (s, lenient, strict) =
        loops_split fuel (rest b two fits) (omega (arith, rest-shorter b two fits)) in
      (
        record {
          descriptors = d ∷ s.descriptors;
          left = s.left;
          splits =
              append_assoc d (concat s.descriptors) s.left
              ∙ ap (λ t. d ++ t) s.splits
              ∙ first-rest b two fits;
          each = (first-IsDescriptor b two fits, s.each);
          stops = s.stops;
        },
        λ ds.
            lenient_step b two fits fuel ds
            ∙ lenient (ds ++ d ∷ [])
            ∙ ap ok (append_assoc ds (d ∷ []) s.descriptors),
        λ ds.
            strict_step b two fits fuel ds
            ∙ strict (ds ++ d ∷ [])
            ∙ ap (λ t. if length s.left == 0 then ok t else err Error.invalid_section)
                (append_assoc ds (d ∷ []) s.descriptors),
      )
]

-- Every byte string is a chain of whole descriptors and a rest that holds none. `ParseDescriptors`
-- returns the chain; `parseDescriptorsStrict` returns it where nothing is left over, and fails
-- otherwise. Neither panics.
pub parse_descriptors-Split :
    (b : Bytes)
    → (s : Split b) × (parse_descriptors b ≡ ok s.descriptors)
      × (parse_descriptors_strict b
          ≡ (if length s.left == 0 then ok s.descriptors else err Error.invalid_section))
unfolding parse_descriptors parse_descriptors_strict
parse_descriptors-Split b =
    let (s, lenient, strict) = loops_split (suc (length b)) b (omega arith) in
    (s, lenient [], strict [])

module _ (d : Descriptor) (t : Bytes) (is : IsDescriptor d) where
  chained_head : at (d ++ t) 1 ≡ at d 1
  chained_head = get_or-append_lt d t 1 0 (omega arith)

  chained_fits : 2 + at (d ++ t) 1 ≤ length (d ++ t)
  chained_fits = omega (arith, chained_head, length-append d t)

  chained_two : 2 ≤ length (d ++ t)
  chained_two = omega (arith, length-append d t)

  first_chained : first (d ++ t) chained_two chained_fits ≡ d
  unfolding first
  first_chained = take-append_length d t _ (omega (arith, chained_head))

  rest_chained : rest (d ++ t) chained_two chained_fits ≡ t
  unfolding rest
  rest_chained = drop-append_length d t _ (omega (arith, chained_head))

strict_loop-concat :
    (ds : List Descriptor) (fuel : ℕ) (acc : List Descriptor)
    → All IsDescriptor ds
    → length (concat ds) < fuel
    → strict_loop fuel acc (concat ds) ≡ ok (acc ++ ds)
strict_loop-concat ds zero acc all h = elim h [ ]
strict_loop-concat [] (suc fuel) acc all h = strict_loop_nil fuel acc ∙ ap ok (sym (append-nil acc))
strict_loop-concat (d ∷ ds) (suc fuel) acc (is, all) h =
    strict_step (d ++ concat ds) (chained_two d (concat ds) is) (chained_fits d (concat ds) is) fuel
      acc
    ∙ ap₂ (λ x y. strict_loop fuel (acc ++ x ∷ []) y) (first_chained d (concat ds) is)
        (rest_chained d (concat ds) is)
    ∙ strict_loop-concat ds fuel (acc ++ d ∷ []) all (omega (arith, length-append d (concat ds)))
    ∙ ap ok (append_assoc acc (d ∷ []) ds)

strict_sound :
    (b : Bytes) (ds : List Descriptor) (s : Split b)
    → parse_descriptors_strict b
      ≡ (if length s.left == 0 then ok s.descriptors else err Error.invalid_section)
    → parse_descriptors_strict b ≡ ok ds
    → (concat ds ≡ b) × All IsDescriptor ds
strict_sound b ds s e h = elim (nil_cases s.left) [
  | inl none_left ↦
      let same : s.descriptors ≡ ds = ok_injective (
        sym (
          e
          ∙ ap
              (λ (l : Bytes). if length l == 0 then ok s.descriptors else err Error.invalid_section)
              none_left)
        ∙ h) in
      (
        ap concat (sym same)
            ∙ sym (append-nil _)
            ∙ ap (λ l. concat s.descriptors ++ l) (sym none_left)
            ∙ s.splits,
        subst (All IsDescriptor) same s.each,
      )
  | inr some_left ↦
      let wrong : (length s.left == 0) ≡ false = ==-eq_false _ _ (omega arith) in
      let failed : err Error.invalid_section ≡ ok ds =
        sym (e ∙ ap (λ t. if t then ok s.descriptors else err Error.invalid_section) wrong) ∙ h in
      cc
]

-- `parseDescriptorsStrict` accepts exactly the chains of well-formed descriptors, and returns the
-- chain: it and concatenation are inverse to each other.
pub parse_descriptors_strict_iff :
    (b : Bytes) (ds : List Descriptor)
    → (parse_descriptors_strict b ≡ ok ds) ↔ ((concat ds ≡ b) × All IsDescriptor ds)
unfolding parse_descriptors_strict
parse_descriptors_strict_iff b ds = (
  λ h. let (s, _, e) = parse_descriptors-Split b in strict_sound b ds s e h,
  λ h.
      subst (λ t. strict_loop (suc (length t)) [] t ≡ ok ds) h.0
        (strict_loop-concat ds (suc (length (concat ds))) [] h.1 (omega arith)),
)
