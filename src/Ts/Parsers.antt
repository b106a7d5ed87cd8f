-- ===== src/Ts/Parsers.antt =====
-- The parsers of ts/pat.go, ts/pmt.go, ts/sdt.go, ts/nit.go and ts/dsmcc_stream.go end on every
-- byte string: no index out of range, no loop that does not end.
use mahiron.Base.{
  ℕ, zero, suc, ◌+◌, ◌-◌, ◌<◌, ◌≤◌, ◌≡◌, ◌∙◌, refl, ap, Bool, true, false, not, ◌||◌, List, [],
  length, ltb, leb, ◌==◌, ◌/=◌, if◌then◌else◌, arith, Bool-cases, inl, inr, drop, length-take,
  length-drop,
}
use mahiron.Base.Result.{
  Result, ok, err, Error, ◌>>=◌, Returns, Ends, value, error, Returns-bind, index-Ends, slice-Ends,
  index-eq_ok, slice-eq_ok,
}
use mahiron.Ts.Words.{Bytes, at, be12_at-Ends, be13_at-Ends, be16_at-Ends, flag}
use mahiron.Ts.Descriptors.{Descriptor, parse_descriptors, parse_descriptors_strict}
use mahiron.Ts.Descriptors.Loops.{parse_descriptors-Split}
use mahiron.Ts.TableId
use mahiron.Ts.Section.{Section, section_syntax_indicator}
use mahiron.Ts.Section.Checks.{total, total_length-eq, table_id-eq, validate_crc-eq, crc_valid}
use mahiron.Ts.Psi.{parse_section_header, rejected}
use mahiron.Ts.Psi.Guards.{
  IsAccepted, rejects, rejected-eq, accepted, header_of, parse_section_header-eq,
}
use mahiron.Ts.Pat.{parse_pat}
use mahiron.Ts.Pat.RoundTrip.{parse_pat-Ends}
use mahiron.Ts.Pmt.{PmtElement, elements_loop, parse_pmt}
use mahiron.Ts.Sdt.{SdtService, services_loop, parse_sdt}
use mahiron.Ts.Nit.{NitTransportStream, streams_loop, parse_nit}
use mahiron.Ts.DsmccStream.{stream_rejected, stream_loop, parse_dsmcc_stream}

parse_descriptors-Ends : (b : Bytes) → Ends (parse_descriptors b)
parse_descriptors-Ends b = let (s, lenient, _) = parse_descriptors-Split b in rw lenient (value tt)

parse_descriptors_strict-Ends : (b : Bytes) → Ends (parse_descriptors_strict b)
parse_descriptors_strict-Ends b =
    let (s, _, strict) = parse_descriptors-Split b in
    rw strict (elim (Bool-cases (length s.left == 0)) [
      | inl all ↦ rw all (value tt)
      | inr left ↦ rw left error
    ])

-- Behind the guard of a parser.
pub guarded {ℓ κ} :
    {A : Type ℓ} {P : A → Type κ} (least : ℕ) (wrong : ℕ → Bool) (s : Section) {rest : Result A}
    → 3 ≤ least
    → (IsAccepted least wrong s → Returns P rest)
    → Returns P (do bad ← rejected least wrong s; if bad then err Error.invalid_section else rest)
guarded least wrong s h k =
    rw (rejected-eq least wrong s h) (elim (Bool-cases (rejects least wrong s)) [
      | inl bad ↦ rw bad error
      | inr good ↦ rw good (k (accepted least wrong s good))
    ])

module _ {ℓ} {A : Type ℓ} where
  -- A test that fails with an error.
  pub checked :
      (bad : Bool) {rest : Result A}
      → (bad ≡ false → Ends rest)
      → Ends (if bad then err Error.invalid_section else rest)
  checked true k = error
  checked false k = k refl

  -- A loop's round, made where the offset leaves room.
  pub in_loop :
      (more : Bool) {round done : Result A}
      → (more ≡ true → Ends round)
      → Ends done
      → Ends (if more then round else done)
  in_loop true k d = k refl
  in_loop false k d = d

header-eq :
    (s : Section) → 8 ≤ length s → total s ≤ length s → parse_section_header s ≡ ok (header_of s)
header-eq s h k =
    let fits : ltb (length s) (total s) ≡ false = ground arith in
    parse_section_header-eq s h
    ∙ ap (λ b. if b then err Error.invalid_section else ok (header_of s)) fits

elements_loop-Ends :
    (fuel : ℕ) (s : Section) (end_ off : ℕ) (elements : List PmtElement)
    → 1 ≤ fuel
    → end_ < off + fuel
    → end_ ≤ length s
    → Ends (elements_loop fuel s end_ off elements)
unfolding elements_loop
elements_loop-Ends zero s end_ off elements h k l = elim h [ ]
elements_loop-Ends (suc fuel) s end_ off elements h k l =
    in_loop (leb (off + 5) end_)
      (λ more.
        let fits : off + 5 ≤ end_ = ground arith in
        Returns-bind (be12_at-Ends s (off + 3) (omega arith)) λ n _.
          checked (ltb end_ (off + 5 + n)) λ room.
            let inside : off + 5 + n ≤ end_ = ground arith in
            Returns-bind (slice-Ends s (off + 5) (off + 5 + n) (omega arith) (omega arith))
              λ es_info _. Returns-bind (index-Ends s off (omega arith)) λ stream_type _.
                Returns-bind (be13_at-Ends s (off + 1) (omega arith)) λ pid _.
                  Returns-bind (parse_descriptors-Ends es_info) λ ds _.
                    elements_loop-Ends fuel s end_ (off + 5 + n) _ (omega arith) (omega arith) l)
      (value tt)

pub parse_pmt-Ends : (s : Section) → Ends (parse_pmt s)
unfolding parse_pmt
parse_pmt-Ends s =
    guarded 16 (λ id. id /= TableId.pmt) s (omega arith)
      λ a.
        let long = a.long in
        let whole = a.whole in
        rw (header-eq s (omega arith) whole) (
          Returns-bind (be12_at-Ends s 10 (omega arith)) λ n _.
            rw (total_length-eq s (omega arith)) (
              checked (ltb (total s - 4) (12 + n)) λ room.
                let inside : 12 + n ≤ total s - 4 = ground arith in
                Returns-bind (be13_at-Ends s 8 (omega arith)) λ pcr _.
                  Returns-bind (slice-Ends s 12 (12 + n) (omega arith) (omega arith)) λ info _.
                    Returns-bind (parse_descriptors-Ends info) λ ds _.
                      Returns-bind
                        (elements_loop-Ends (suc (length s)) s (total s - 4) (12 + n) []
                          (omega arith) (omega arith) (omega arith))
                        λ elements _. value tt))

services_loop-Ends :
    (fuel : ℕ) (s : Section) (end_ off : ℕ) (services : List SdtService)
    → 1 ≤ fuel
    → end_ < off + fuel
    → end_ ≤ length s
    → Ends (services_loop fuel s end_ off services)
unfolding services_loop
services_loop-Ends zero s end_ off services h k l = elim h [ ]
services_loop-Ends (suc fuel) s end_ off services h k l =
    in_loop (leb (off + 5) end_)
      (λ more.
        let fits : off + 5 ≤ end_ = ground arith in
        Returns-bind (be12_at-Ends s (off + 3) (omega arith)) λ n _.
          checked (ltb end_ (off + 5 + n)) λ room.
            let inside : off + 5 + n ≤ end_ = ground arith in
            Returns-bind (slice-Ends s (off + 5) (off + 5 + n) (omega arith) (omega arith))
              λ bytes _. Returns-bind (be16_at-Ends s off (omega arith)) λ service_id _.
                Returns-bind (index-Ends s (off + 2) (omega arith)) λ b2 _.
                  Returns-bind (index-Ends s (off + 3) (omega arith)) λ b3 _.
                    Returns-bind (parse_descriptors-Ends bytes) λ ds _.
                      services_loop-Ends fuel s end_ (off + 5 + n) _ (omega arith) (omega arith) l)
      (value tt)

pub parse_sdt-Ends : (s : Section) → Ends (parse_sdt s)
unfolding parse_sdt
parse_sdt-Ends s = guarded 15 _ s (omega arith) λ a.
    let long = a.long in
    let whole = a.whole in
    rw (header-eq s (omega arith) whole) (
      rw (total_length-eq s (omega arith)) (
        Returns-bind (be16_at-Ends s 8 (omega arith)) λ network _.
          Returns-bind
            (services_loop-Ends (suc (length s)) s (total s - 4) 11 [] (omega arith) (omega arith)
              (omega arith))
            λ services _. value tt))

streams_loop-Ends :
    (fuel : ℕ) (s : Section) (end_ off : ℕ) (streams : List NitTransportStream)
    → 1 ≤ fuel
    → end_ < off + fuel
    → end_ ≤ length s
    → Ends (streams_loop fuel s end_ off streams)
unfolding streams_loop
streams_loop-Ends zero s end_ off streams h k l = elim h [ ]
streams_loop-Ends (suc fuel) s end_ off streams h k l =
    in_loop (leb (off + 6) end_)
      (λ more.
        let fits : off + 6 ≤ end_ = ground arith in
        Returns-bind (be12_at-Ends s (off + 4) (omega arith)) λ n _.
          checked (ltb end_ (off + 6 + n)) λ room.
            let inside : off + 6 + n ≤ end_ = ground arith in
            Returns-bind (slice-Ends s (off + 6) (off + 6 + n) (omega arith) (omega arith))
              λ bytes _. Returns-bind (parse_descriptors_strict-Ends bytes) λ ds _.
                Returns-bind (be16_at-Ends s off (omega arith)) λ tsid _.
                  Returns-bind (be16_at-Ends s (off + 2) (omega arith)) λ onid _.
                    streams_loop-Ends fuel s end_ (off + 6 + n) _ (omega arith) (omega arith) l)
      (checked (off /= end_) λ _. value tt)

pub parse_nit-Ends : (s : Section) → Ends (parse_nit s)
unfolding parse_nit
parse_nit-Ends s = guarded 16 _ s (omega arith) λ a.
    let long = a.long in
    let whole = a.whole in
    rw (header-eq s (omega arith) whole) (
      rw (total_length-eq s (omega arith)) (
        Returns-bind (be12_at-Ends s 8 (omega arith)) λ n _.
          checked (ltb (total s - 4) (10 + n + 2)) λ room.
            let inside : 10 + n + 2 ≤ total s - 4 = ground arith in
            Returns-bind (slice-Ends s 10 (10 + n) (omega arith) (omega arith)) λ bytes _.
              Returns-bind (parse_descriptors_strict-Ends bytes) λ ds _.
                Returns-bind (be12_at-Ends s (10 + n) (omega arith)) λ m _.
                  checked (10 + n + 2 + m /= total s - 4) λ exact.
                    let same : 10 + n + 2 + m ≡ total s - 4 = ground arith in
                    Returns-bind (be16_at-Ends s 3 (omega arith)) λ network _.
                      Returns-bind
                        (streams_loop-Ends (suc (length s)) s (10 + n + 2 + m) (10 + n + 2) []
                          (omega arith) (omega arith) (omega arith))
                        λ streams _. value tt))

-- The guard of `ParseDSMCCStream`, and what is known behind it.
stream_guarded :
    (s : Section)
    → (b : Bool) × (stream_rejected s ≡ ok b) × (b ≡ false → (12 ≤ length s) × (total s ≤ length s))
unfolding stream_rejected section_syntax_indicator
stream_guarded s = elim (Bool-cases (ltb (length s) 12)) [
  | inl short ↦ (true, ground arith, λ e. cc)
  | inr long ↦
      let twelve : 12 ≤ length s = ground arith in
      (
        at s 0 /= TableId.dsmcc_stream
            || (not (flag (at s 1) 0x80)
                || (flag (at s 1) 0x40 || (ltb (length s) (total s) || not (crc_valid s)))),
        ground (
          arith,
          table_id-eq s (omega arith),
          index-eq_ok s 1 0 (omega arith),
          total_length-eq s (omega arith),
          validate_crc-eq s,
        ),
        λ e. ground arith,
      )
]

stream_loop-Ends :
    (fuel : ℕ) (s : Section) (end_ off : ℕ) (ds : List Descriptor)
    → 1 ≤ fuel
    → end_ < off + fuel
    → end_ ≤ length s
    → Ends (stream_loop fuel s end_ off ds)
unfolding stream_loop
stream_loop-Ends zero s end_ off ds h k l = elim h [ ]
stream_loop-Ends (suc fuel) s end_ off ds h k l =
    in_loop (ltb off end_)
      (λ more. elim (Bool-cases (ltb end_ (off + 2))) [
        | inl none_left ↦ rw none_left error
        | inr some_left ↦ rw some_left (
            let two : off + 2 ≤ end_ = ground arith in
            rw (index-eq_ok s (off + 1) 0 (omega arith)) (
              checked (ltb end_ (off + 2 + at s (off + 1))) λ room.
                let n : ℕ = at s (off + 1) in
                let inside : off + 2 + n ≤ end_ = ground arith in
                rw (slice-eq_ok s off (off + 2 + n) (omega arith) (omega arith)) (
                  let size = length-take (off + 2 + n - off) (drop off s) in
                  let left = length-drop off s in
                  stream_loop-Ends fuel s end_ _ _ (omega arith) (omega arith) l)))
      ])
      (value tt)

pub parse_dsmcc_stream-Ends : (s : Section) → Ends (parse_dsmcc_stream s)
unfolding parse_dsmcc_stream
parse_dsmcc_stream-Ends s =
    let (bad, decides, facts) = stream_guarded s in
    rw decides (
      checked bad λ good.
        let long = (facts good).0 in
        let whole = (facts good).1 in
        rw (total_length-eq s (omega arith)) (
          Returns-bind (index-Ends s 3 (omega arith)) λ b3 _.
            Returns-bind (be12_at-Ends s 3 (omega arith)) λ group _.
              Returns-bind (index-Ends s 5 (omega arith)) λ b5 _.
                Returns-bind (index-Ends s 6 (omega arith)) λ b6 _.
                  Returns-bind (index-Ends s 7 (omega arith)) λ b7 _.
                    Returns-bind
                      (stream_loop-Ends (suc (length s)) s (total s - 4) 8 [] (omega arith)
                        (omega arith) (omega arith))
                      λ ds _. value tt))

-- The parsers of PAT, PMT, SDT, NIT and DSM-CC stream sections return a table or an error on every
-- byte string: none panics, and their loops end.
pub parsers-Ends :
    (s : Section)
    → Ends (parse_pat s)
      × Ends (parse_pmt s)
      × Ends (parse_sdt s)
      × Ends (parse_nit s)
      × Ends (parse_dsmcc_stream s)
parsers-Ends s = (
  parse_pat-Ends s,
  parse_pmt-Ends s,
  parse_sdt-Ends s,
  parse_nit-Ends s,
  parse_dsmcc_stream-Ends s,
)
