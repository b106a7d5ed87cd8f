-- ===== src/Ts/Assembler/Sound.antt =====
-- Every section that leaves the assembler is whole and has a right checksum, and no packet of at
-- least four bytes makes it panic.
use mahiron.Base.{
  ℕ, zero, suc, ◌+◌, ◌-◌, ◌<◌, ◌≤◌, ◌≡◌, refl, ap, ap₂, ◌∙◌, Bool, true, false, not, ◌&&◌, List, [],
  ◌∷◌, ◌++◌, length, take, drop, ltb, ◌==◌, ◌/=◌, if◌then◌else◌, All, All-append, arith,
  length-take, length-drop, get_or-take, inl, inr, Bool-cases, ==-eq_false, take_of_length-le,
}
use mahiron.Base.Result.{
  ok, ◌>>=◌, slice, or_else, Returns, value, Returns-bind, Ends, or_else-Ends, index-eq_ok,
  slice-eq_ok,
}
use mahiron.Ts.Words.{Bytes, at, be12, be12_at}
use mahiron.Ts.Packet.{
  Packet, transport_error_indicator, payload_unit_start_indicator, has_payload, continuity_counter,
  payload,
}
use mahiron.Ts.Packet.Total.{
  pid-Ends, transport_error_indicator-Ends, has_payload-Ends, continuity_counter-Ends,
  payload_unit_start_indicator-Ends, payload-Ends,
}
use mahiron.Ts.Section.{Section}
use mahiron.Ts.Section.Checks.{total, crc_valid, validate_crc-eq, total-ge}
use mahiron.Ts.Assembler.{
  SectionAssembler, total_of, keep_valid, consume_loop, consume_payload, complete_loop,
  complete_sections, reset, start_unit, continue_unit, feed_payload, feed_all,
}

-- A section as long as its header says, with a right checksum.
abbrev pub IsWhole : Section → Type 0
IsWhole s = (total s ≡ length s) × (crc_valid s ≡ true)

abbrev Found : SectionAssembler × List Section → Type 0
Found (sa, sections) = All IsWhole sections

pub total_of-eq : (b : Bytes) → 3 ≤ length b → total_of b ≡ ok (total b)
unfolding total_of be12_at total
total_of-eq b h = rw (index-eq_ok b 1 0 (omega arith)) (rw (index-eq_ok b 2 0 (omega arith)) refl)

-- A cut at the announced length has that length in its header.
pub total-take : (b : Bytes) → total (take (total b) b) ≡ total b
unfolding total
total-take b =
    ap₂ (λ hi lo. 3 + be12 hi lo) (get_or-take (3 + be12 (at b 1) (at b 2)) b 1 0 (omega arith))
      (get_or-take (3 + be12 (at b 1) (at b 2)) b 2 0 (omega arith))

pub cut : (b : Bytes) → total b ≤ length b → slice b 0 (total b) ≡ ok (take (total b) b)
cut b h = slice-eq_ok b 0 (total b) (omega arith) h ∙ ap (λ n. ok (take n b)) (omega arith)

pub rest_of : (b : Bytes) (n : ℕ) → n ≤ length b → slice b n (length b) ≡ ok (drop n b)
rest_of b n h =
    slice-eq_ok b n (length b) h (omega arith)
    ∙ ap ok (take_of_length-le _ _ (omega (arith, length-drop n b)))

keep_valid-Found :
    (sections : List Section) (s : Section)
    → All IsWhole sections
    → total s ≡ length s
    → Returns (All IsWhole) (keep_valid sections s)
unfolding keep_valid
keep_valid-Found sections s h e = rw (validate_crc-eq s) (
    value (elim (Bool-cases (crc_valid s)) [
      | inl good ↦ rw good (All-append IsWhole sections (s ∷ []) h ((e, good), tt))
      | inr bad ↦ rw bad h
    ]))

length-cut : (b : Bytes) → total b ≤ length b → total (take (total b) b) ≡ length (take (total b) b)
length-cut b h = total-take b ∙ omega (arith, length-take (total b) b)

consume_loop-Found :
    (fuel : ℕ) (sa : SectionAssembler) (sections : List Section) (b : Bytes)
    → length b < fuel
    → All IsWhole sections
    → Returns Found (consume_loop fuel sa sections b)
unfolding consume_loop
consume_loop-Found zero sa sections b h all = elim h [ ]
consume_loop-Found (suc fuel) sa sections b h all = elim (Bool-cases (ltb (length b) 3)) [
  | inl few ↦ rw few (value all)
  | inr more ↦ rw more (
      let three : 3 ≤ length b = ground arith in
      rw (index-eq_ok b 0 0 (omega arith)) (elim (Bool-cases (at b 0 == 0xff)) [
        | inl stuffing ↦ rw stuffing (value all)
        | inr table ↦ rw table (
            rw (total_of-eq b three) (
              let big : ltb (total b) 3 ≡ false = ground (arith, total-ge b) in
              rw big (elim (Bool-cases (ltb (length b) (total b))) [
                | inl partial ↦ rw partial (value all)
                | inr full ↦ rw full (
                    let fits : total b ≤ length b = ground arith in
                    rw (cut b fits) (
                      Returns-bind (keep_valid-Found sections _ all (length-cut b fits))
                        λ sections' all'. rw (rest_of b (total b) fits) (
                          consume_loop-Found fuel sa sections' (drop (total b) b)
                            (omega (arith, length-drop (total b) b, total-ge b)) all')))
              ])))
      ]))
]

complete_loop-Found :
    (fuel : ℕ) (keep : Bool) (sa : SectionAssembler) (sections : List Section)
    → length sa.buffer < fuel
    → All IsWhole sections
    → Returns Found (complete_loop fuel keep sa sections)
unfolding complete_loop
complete_loop-Found zero keep sa sections h all = elim h [ ]
complete_loop-Found (suc fuel) keep sa sections h all =
    let b = sa.buffer in
    elim (Bool-cases (ltb (length b) 3)) [
      | inl few ↦ rw few (value all)
      | inr more ↦ rw more (
          let three : 3 ≤ length b = ground arith in
          rw (total_of-eq b three) (elim (Bool-cases (ltb (length b) (total b))) [
            | inl partial ↦ rw partial (value all)
            | inr full ↦ rw full (
                let fits : total b ≤ length b = ground arith in
                rw (cut b fits) (
                  Returns-bind (keep_valid-Found sections _ all (length-cut b fits))
                    λ sections' all'.
                      rw (rest_of b (total b) fits)
                        (elim (Bool-cases (not keep && length (drop (total b) b) == 0)) [
                          | inl last ↦ rw last (value all')
                          | inr again ↦ rw again (
                              complete_loop-Found fuel keep
                                (record sa { buffer = drop (total b) b }) sections'
                                (omega (arith, length-drop (total b) b, total-ge b)) all')
                        ])))
          ]))
    ]

pub consume_payload-Found :
    (sa : SectionAssembler) (b : Bytes) → Returns Found (consume_payload sa b)
unfolding consume_payload
consume_payload-Found sa b = consume_loop-Found (suc (length b)) sa [] b (omega arith) tt

pub complete_sections-Found :
    (keep : Bool) (sa : SectionAssembler) → Returns Found (complete_sections keep sa)
unfolding complete_sections
complete_sections-Found keep sa =
    complete_loop-Found (suc (length sa.buffer)) keep sa [] (omega arith) tt

start_unit-Found :
    (sa : SectionAssembler) (b : Bytes) → 1 ≤ length b → Returns Found (start_unit sa b)
unfolding start_unit
start_unit-Found sa b h = rw (index-eq_ok b 0 0 h) (
    rw (rest_of b 1 h) (
      let b' : Bytes = drop 1 b in
      elim (Bool-cases (ltb (length b') (at b 0))) [
        | inl beyond ↦ rw beyond (value tt)
        | inr within ↦ rw within (
            let fits : at b 0 ≤ length b' = ground arith in
            rw (slice-eq_ok b' 0 (at b 0) (omega arith) fits) (
              Returns-bind (first (take (at b 0 - 0) (drop 0 b'))) λ r found.
                rw (rest_of b' (at b 0) fits) (
                  Returns-bind (consume_payload-Found (reset r.0) (drop (at b 0) b'))
                    λ r' found'. value (All-append IsWhole r.1 r'.1 found found'))))
      ]))
  where
    first :
        (head : Bytes)
        → Returns Found (
            if ltb 0 (length sa.buffer) && ltb 0 (at b 0)
            then complete_sections false (record sa { buffer = sa.buffer ++ head })
            else ok (sa, []))
    first head = elim (Bool-cases (ltb 0 (length sa.buffer) && ltb 0 (at b 0))) [
      | inl joins ↦ rw joins (complete_sections-Found false _)
      | inr drops ↦ rw drops (value tt)
    ]

continue_unit-Found : (sa : SectionAssembler) (b : Bytes) → Returns Found (continue_unit sa b)
unfolding continue_unit
continue_unit-Found sa b = elim (Bool-cases (not sa.expecting)) [
  | inl idle ↦ rw idle (value tt)
  | inr open_ ↦ rw open_ (complete_sections-Found false _)
]

feed_payload-Found :
    (sa : SectionAssembler) (counter : ℕ) (starts : Bool) (b : Bytes)
    → 1 ≤ length b
    → Returns Found (feed_payload sa counter starts b)
unfolding feed_payload
feed_payload-Found sa counter true b h = start_unit-Found _ b h
feed_payload-Found sa counter false b h = continue_unit-Found _ b

-- `FeedAll` never panics on four bytes or more, and each section that it returns is as long as its
-- header says and has a right checksum.
pub feed_all-IsWhole :
    (sa : SectionAssembler) (p : Packet)
    → 4 ≤ length p
    → Returns (λ r. All IsWhole r.1) (feed_all sa p)
unfolding feed_all
feed_all-IsWhole sa p h =
    Returns-bind (pid-Ends p h)
      λ id _. Returns-bind (or_else-Ends (id /= sa.pid) (guard id)) λ other _. read other
  where
    guard :
        (id : ℕ)
        → Ends (do
          broken ← transport_error_indicator p
          or_else broken (do has ← has_payload p; ok (not has)))
    guard id =
        Returns-bind (transport_error_indicator-Ends p h)
          λ broken _. or_else-Ends broken (Returns-bind (has_payload-Ends p h) λ has _. value tt)

    fed :
        (b : Bytes)
        → Returns Found (
            if length b == 0 then ok (sa, []) else (do
              counter ← continuity_counter p
              starts ← payload_unit_start_indicator p
              feed_payload sa counter starts b))
    fed [] = value tt
    fed (x ∷ b) =
        let some_left : (suc (length b) == 0) ≡ false = ==-eq_false _ _ (omega arith) in
        rw some_left (
          Returns-bind (continuity_counter-Ends p h) λ counter _.
            Returns-bind (payload_unit_start_indicator-Ends p h)
              λ starts _. feed_payload-Found sa counter starts (x ∷ b) (omega arith))

    read :
        (other : Bool)
        → Returns Found (
            if other then ok (sa, []) else (do
              b ← payload p
              if length b == 0 then ok (sa, []) else (do
                counter ← continuity_counter p
                starts ← payload_unit_start_indicator p
                feed_payload sa counter starts b)))
    read true = value tt
    read false = Returns-bind (payload-Ends p h) λ b _. fed b
