-- ===== src/Ts/Demux/Programs.antt =====
-- The programs after a PAT: those that it names, and each that kept its PMT keeps what was learnt of it.
use mahiron.Base.{
  ℕ, ◌+◌, ◌%◌, ◌^◌, ◌≡◌, refl, ap, ◌∙◌, Bool, true, false, not, [], ◌∷◌, All, ◌==◌, if◌then◌else◌,
  Option, none, some, arith, Bool-cases, Option-cases, inl, inr, ==_iff,
}
use mahiron.Base.Result.{ok, ◌>>=◌}
use mahiron.Base.Assoc.{
  Map, lookup, insert, has, IsMap, lookup-insert, lookup-eq_none, has-eq_false, remove,
}
use mahiron.Ts.Pat.{Pat}
use mahiron.Ts.Demux.{
  DemuxProgram, DemuxServiceOutput, Demuxer, new_output, same_pat, output_or_new, advertises,
  rebuild_pat,
}
use mahiron.Ts.Demux.Observe.{
  keep_program, adopt_loop, only_in, drop_services, drop_assemblers, adopt,
}
use mahiron.Ts.Demux.Packets.{Gives, IsSane, IsOutput, rebuild_pat_output-Gives}

abbrev pub AllOutputs : Map DemuxServiceOutput → Type 0
AllOutputs = All (λ e. IsOutput e.1)

new_output-IsOutput : IsOutput new_output
new_output-IsOutput = record { headed = tt; inside = λ h. h; low = omega arith }

lookup-IsOutput :
    (k : ℕ) (m : Map DemuxServiceOutput) → AllOutputs m → IsOutput (output_or_new (lookup k m))
unfolding lookup
lookup-IsOutput k [] a = new_output-IsOutput
lookup-IsOutput k ((j, o) ∷ m) a = elim (Bool-cases (j == k)) [
  | inl e ↦ rw (e, lookup) a.0
  | inr e ↦ rw (e, lookup) (lookup-IsOutput k m a.1)
]

insert-AllOutputs :
    (k : ℕ) (o : DemuxServiceOutput) (m : Map DemuxServiceOutput)
    → IsOutput o
    → AllOutputs m
    → AllOutputs (insert k o m)
unfolding insert
insert-AllOutputs k o [] h a = (h, tt)
insert-AllOutputs k o ((j, old) ∷ m) h a = elim (Bool-cases (j == k)) [
  | inl e ↦ rw (e, insert) (h, a.1)
  | inr e ↦ rw (e, insert) (a.0, insert-AllOutputs k o m h a.1)
]

remove-AllOutputs : (k : ℕ) (m : Map DemuxServiceOutput) → AllOutputs m → AllOutputs (remove k m)
unfolding remove
remove-AllOutputs k [] a = tt
remove-AllOutputs k ((j, o) ∷ m) a = elim (Bool-cases (j == k)) [
  | inl e ↦ rw (e, remove) (remove-AllOutputs k m a.1)
  | inr e ↦ rw (e, remove) (a.0, remove-AllOutputs k m a.1)
]

drop_services-AllOutputs :
    (programs : Map DemuxProgram) (combined : Map ℕ) (m : Map DemuxServiceOutput)
    → AllOutputs m
    → AllOutputs (drop_services programs combined m)
unfolding drop_services
drop_services-AllOutputs [] combined m a = a
drop_services-AllOutputs ((service, program) ∷ rest) combined m a =
    elim (Bool-cases (has service combined)) [
      | inl e ↦ rw (e, drop_services) (drop_services-AllOutputs rest combined m a)
      | inr e ↦
          rw (e, drop_services)
            (drop_services-AllOutputs rest combined (remove service m)
              (remove-AllOutputs service m a))
    ]

-- A state whose outputs are well formed and whose PAT names PIDs of 13 bits.
pub record IsDemux (d : Demuxer) : Type 0 where
  pub sane : IsSane d.pat
  pub outputs : AllOutputs d.services

rebuild_pat-Gives :
    (service : ℕ) (d : Demuxer)
    → IsDemux d
    → Gives
        (λ d'. IsDemux d' × (d'.programs ≡ d.programs) × (d'.pat ≡ d.pat))
        (rebuild_pat service d)
unfolding rebuild_pat
rebuild_pat-Gives service d h = elim (Bool-cases (not (advertises d.pat service))) [
  | inl e ↦ rw (e, rebuild_pat) (record { result = d; there = refl; holds = (h, refl, refl) })
  | inr e ↦
      let g =
        rebuild_pat_output-Gives d.pat d.pat_generation service _ h.sane
          (lookup-IsOutput service d.services h.outputs) in
      rw (e, rebuild_pat)
        (record {
          result = record d { services = insert service g.result d.services };
          there =
              ap
                (λ r. r >>= λ output. ok (record d { services = insert service output d.services }))
                g.there;
          holds = (
            record {
              sane = h.sane;
              outputs = insert-AllOutputs service g.result d.services g.holds.0 h.outputs;
            },
            refl,
            refl,
          );
        })
]

-- What becomes of a service's program, by the PMT's PID that the PAT names and the program before.
abbrev pub program_after : Option ℕ → Option DemuxProgram → Option DemuxProgram
program_after none before = none
program_after (some pid) none = some (record { pmt_pid = pid; pids = []; section_pids = [] })
program_after (some pid) (some program) =
    if program.pmt_pid == pid
    then some program
    else some (record { pmt_pid = pid; pids = []; section_pids = [] })

keep_program-after :
    (pid : ℕ) (before : Option DemuxProgram)
    → some (keep_program pid before) ≡ program_after (some pid) before
unfolding keep_program
keep_program-after pid none = refl
keep_program-after pid (some program) = elim (Bool-cases (program.pmt_pid == pid)) [
  | inl e ↦ rw (e, keep_program) refl
  | inr e ↦ rw (e, keep_program) refl
]

-- The loop leaves alone what is not in the list.
abbrev in_loop : Option ℕ → Option DemuxProgram → Option DemuxProgram
in_loop none before = before
in_loop (some pmt_pid) before = some (keep_program pmt_pid before)

-- One step of the loop on the lookups.
in_loop-step :
    (service key pmt_pid : ℕ) (rest : Map ℕ) (programs : Map DemuxProgram)
    → has key rest ≡ false
    → in_loop
        (lookup service rest)
        (lookup service (insert key (keep_program pmt_pid (lookup key programs)) programs))
      ≡ in_loop
          (if key == service then some pmt_pid else lookup service rest)
          (lookup service programs)
in_loop-step service key pmt_pid rest programs free =
    let law = lookup-insert key service (keep_program pmt_pid (lookup key programs)) programs in
    elim (Bool-cases (key == service)) [
      | inl e ↦
          let same = (==_iff key service).0 e in
          rw law (rw e (rw (← same) (rw (lookup-eq_none key rest free) refl)))
      | inr e ↦ rw law (rw e refl)
    ]

maybe-Gives :
    (unchanged : Bool) (service : ℕ) (d : Demuxer)
    → IsDemux d
    → Gives
        (λ d'. IsDemux d' × (d'.programs ≡ d.programs) × (d'.pat ≡ d.pat))
        (if unchanged then ok d else rebuild_pat service d)
maybe-Gives true service d h = record { result = d; there = refl; holds = (h, refl, refl) }
maybe-Gives false service d h = rebuild_pat-Gives service d h

adopt_loop-Gives :
    (unchanged : Bool) (l by_pid : Map ℕ) (d : Demuxer)
    → IsMap l
    → IsDemux d
    → Gives
        (λ r.
          IsDemux r.1
          × (r.1.pat ≡ d.pat)
          × ((service : ℕ)
              → lookup service r.1.programs
                ≡ in_loop (lookup service l) (lookup service d.programs)))
        (adopt_loop unchanged l by_pid d)
unfolding adopt_loop lookup
adopt_loop-Gives unchanged [] by_pid d u h = record {
  result = (by_pid, d);
  there = refl;
  holds = (h, refl, λ service. refl);
}
adopt_loop-Gives unchanged ((key, pmt_pid) ∷ rest) by_pid d u h =
    let kept : Demuxer = record d {
      programs = insert key (keep_program pmt_pid (lookup key d.programs)) d.programs;
    } in
    let step = maybe-Gives unchanged key kept (record { sane = h.sane; outputs = h.outputs }) in
    let (h', programs, pat) = step.holds in
    let later = adopt_loop-Gives unchanged rest (insert pmt_pid key by_pid) step.result u.1 h' in
    let (h'', pat', law) = later.holds in
    record {
      result = later.result;
      there =
          ap (λ m. m >>= λ d'. adopt_loop unchanged rest (insert pmt_pid key by_pid) d') step.there
          ∙ later.there;
      holds = (
        h'',
        pat' ∙ pat,
        λ service.
            law service
            ∙ ap (λ m. in_loop (lookup service rest) (lookup service m)) programs
            ∙ in_loop-step service key pmt_pid rest d.programs u.0,
      );
    }

lookup-only_in :
    {A B : Type 0} (other : Map B) (k : ℕ) (m : Map A)
    → lookup k (only_in other m) ≡ (if has k other then lookup k m else none)
unfolding lookup only_in
lookup-only_in other k [] = ground arith
lookup-only_in {A} {B} other k ((j, v) ∷ m) =
    let later = lookup-only_in other k m in
    elim (Bool-cases (has j other)) [
      | inl e ↦
          rw (e, only_in)
            (elim (Bool-cases (j == k)) [
              | inl q ↦
                  let same = (==_iff j k).0 q in
                  let kept : has k other ≡ true = rw (← same) e in ground (arith, q)
              | inr q ↦ ground (arith, q)
            ])
      | inr e ↦
          rw (e, only_in)
            (later ∙ elim (Bool-cases (j == k)) [
              | inl q ↦
                  let same = (==_iff j k).0 q in
                  let gone : has k other ≡ false = rw (← same) e in ground arith
              | inr q ↦ ground (arith, q)
            ])
    ]

kept_after :
    (service : ℕ) (combined : Map ℕ) (looked before : Option DemuxProgram)
    → looked ≡ in_loop (lookup service combined) before
    → (if has service combined then looked else none)
      ≡ program_after (lookup service combined) before
kept_after service combined looked before e = elim (Option-cases (lookup service combined)) [
  | inl n ↦ rw n (rw (has-eq_false service combined n) refl)
  | inr (pmt_pid, q) ↦ elim (Bool-cases (has service combined)) [
    | inl h ↦ rw h (e ∙ rw q (keep_program-after pmt_pid before))
    | inr h ↦ let gone = lookup-eq_none service combined h in cc
  ]
]

-- In a state whose outputs are well formed, a new PAT that names PIDs of 13 bits and each service once is
-- always adopted: the services are exactly those that it names, a program whose PMT stays on its PID is as
-- it was, any other starts without PIDs, and the state is well formed again.
pub adopt-Gives :
    (combined : Pat) (d : Demuxer)
    → IsMap combined.programs
    → IsSane (some combined)
    → AllOutputs d.services
    → Gives
        (λ d'.
          IsDemux d'
          × (d'.pat ≡ some combined)
          × ((service : ℕ)
              → lookup service d'.programs
                ≡ program_after (lookup service combined.programs) (lookup service d.programs)))
        (adopt combined d)
unfolding adopt
adopt-Gives combined d u sane outputs =
    let unchanged = same_pat d.pat combined in
    let noted : Demuxer = record d {
      pat = some combined;
      pat_generation = if unchanged then d.pat_generation else (d.pat_generation + 1) % 2 ^ 64;
    } in
    let g =
      adopt_loop-Gives unchanged combined.programs [] noted u
        (record { sane = sane; outputs = outputs }) in
    let (h, pat, law) = g.holds in
    let by_pid = g.result.0 in
    let d' = g.result.1 in
    record {
      result = record d' {
        programs = only_in combined.programs d'.programs;
        services = drop_services d'.programs combined.programs d'.services;
        assemblers = drop_assemblers d'.pmt_by_pid by_pid d'.assemblers;
        pmt_by_pid = by_pid;
      };
      there =
          ap
            (λ m. m >>= λ r. ok (record r.1 {
              programs = only_in combined.programs r.1.programs;
              services = drop_services r.1.programs combined.programs r.1.services;
              assemblers = drop_assemblers r.1.pmt_by_pid r.0 r.1.assemblers;
              pmt_by_pid = r.0;
            }))
            g.there;
      holds = (
        record {
          sane = h.sane;
          outputs = drop_services-AllOutputs d'.programs combined.programs d'.services h.outputs;
        },
        pat,
        λ service.
            lookup-only_in combined.programs service d'.programs
            ∙ kept_after service combined.programs _ _ (law service),
      );
    }
