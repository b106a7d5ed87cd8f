-- ===== src/Ts/DsmccStream/Events.antt =====
-- The general event and NPT descriptors: on a whole descriptor no parser panics, and a clock value has
-- 33 bits.
use mahiron.Base.{
  ℕ, ◌+◌, ◌-◌, ◌^◌, ◌<◌, ◌≤◌, ◌≡◌, ◌||◌, [], length, drop, ltb, ◌/=◌, Option, none, some, arith,
  All-take, All-drop,
}
use mahiron.Base.Result.{
  Returns, Ends, value, Returns-bind, index-Ends, index-eq_ok, slice-eq_ok, slice-Ends, otherwise,
}
use mahiron.Ts.Words.{Bytes, IsBytes, at, at-IsByte, be16_lem, be16_at-Ends}
use mahiron.Base.Bits.{and_01}
use mahiron.Ts.Psi.Guards.{be16_at-eq}
use mahiron.Ts.Descriptors.{Descriptor, tag, descriptor_length, descriptor_data}
use mahiron.Ts.DsmccStream.{
  DsmccGeneralEvent, DsmccNptReference, is_timed, general_event, parse_dsmcc_general_event,
  clock_at, parse_dsmcc_npt_reference, event_message_npt,
}

-- The 33 bits of a clock.
clock_at-lt :
    (b : Bytes) (i j : ℕ)
    → i < length b
    → j + 3 < length b
    → IsBytes b
    → Returns (λ n. n < 2 ^ 33) (clock_at b i j)
unfolding clock_at
clock_at-lt b i j h k bytes =
    let a0 = at-IsByte b j bytes in
    let a1 = at-IsByte b (j + 1) bytes in
    let a2 = at-IsByte b (j + 2) bytes in
    let a3 = at-IsByte b (j + 2 + 1) bytes in
    let hi = be16_lem (at b j) (at b (j + 1)) a1 in
    let lo = be16_lem (at b (j + 2)) (at b (j + 2 + 1)) a3 in
    let one = and_01 (at b i) (at-IsByte b i bytes) in
    rw (index-eq_ok b i 0 h) (
      rw (be16_at-eq b j (omega arith))
        (rw (be16_at-eq b (j + 2) (omega arith)) (value (omega arith))))

descriptor_data-IsBytes :
    (d : Descriptor)
    → 2 ≤ length d
    → 2 + at d 1 ≤ length d
    → IsBytes d
    → Returns IsBytes (descriptor_data d)
unfolding descriptor_data descriptor_length
descriptor_data-IsBytes d two whole bytes = rw (index-eq_ok d 1 0 (omega arith)) (
    rw (slice-eq_ok d 2 (2 + at d 1) (omega arith) whole) (
      value
        (All-take (λ b. b < 256) (2 + at d 1 - 2) (drop 2 d) (All-drop (λ b. b < 256) 2 d bytes))))

-- A clock that is there has 33 bits.
abbrev pub FitsNpt : Option DsmccNptReference → Type 0
FitsNpt none = Unit
FitsNpt (some r) = (r.stc_reference < 2 ^ 33) × (r.npt_reference < 2 ^ 33)

parse_dsmcc_npt_reference-Fits :
    (d : Descriptor)
    → 2 ≤ length d
    → 2 + at d 1 ≤ length d
    → IsBytes d
    → Returns FitsNpt (parse_dsmcc_npt_reference d)
unfolding parse_dsmcc_npt_reference tag
parse_dsmcc_npt_reference-Fits d two whole bytes =
    Returns-bind (descriptor_data-IsBytes d two whole bytes) λ payload p.
      Returns-bind (index-Ends d 0 (omega arith)) λ t _.
        otherwise (t /= 0x17 || ltb (length payload) 18) (λ _. value tt)
          λ enough.
            let long : 18 ≤ length payload = ground arith in
            Returns-bind (index-Ends payload 0 (omega arith)) λ b0 _.
              Returns-bind (clock_at-lt payload 1 2 (omega arith) (omega arith) p) λ stc s.
                Returns-bind (clock_at-lt payload 9 10 (omega arith) (omega arith) p) λ npt n.
                  Returns-bind (be16_at-Ends payload 14 (omega arith)) λ numerator _.
                    Returns-bind (be16_at-Ends payload 16 (omega arith))
                      λ denominator _. value (s, n)

general_event-Ends :
    (payload : Bytes) (mode : ℕ) (time : Bytes) (off : ℕ)
    → 3 ≤ off
    → off + 3 ≤ length payload
    → Ends (general_event payload mode time off)
unfolding general_event
general_event-Ends payload mode time off h k =
    Returns-bind (index-Ends payload 0 (omega arith)) λ b0 _.
      Returns-bind (index-Ends payload 1 (omega arith)) λ b1 _.
        Returns-bind (index-Ends payload off (omega arith)) λ kind _.
          Returns-bind (be16_at-Ends payload (off + 1) (omega arith)) λ id _.
            Returns-bind (slice-Ends payload (off + 3) (length payload) k (omega arith))
              λ private_data _. value tt

parse_dsmcc_general_event-Ends :
    (d : Descriptor)
    → 2 ≤ length d
    → 2 + at d 1 ≤ length d
    → IsBytes d
    → Ends (parse_dsmcc_general_event d)
unfolding parse_dsmcc_general_event tag
parse_dsmcc_general_event-Ends d two whole bytes =
    Returns-bind (descriptor_data-IsBytes d two whole bytes) λ payload p.
      Returns-bind (index-Ends d 0 (omega arith)) λ t _.
        otherwise (t /= 0x40 || ltb (length payload) 6) (λ _. value tt)
          λ enough.
            let six : 6 ≤ length payload = ground arith in
            Returns-bind (index-Ends payload 2 (omega arith)) λ mode _.
              otherwise (is_timed mode)
                (λ _.
                  otherwise (ltb (length payload) (3 + 8)) (λ _. value tt)
                    λ fits.
                      let long : 3 + 8 ≤ length payload = ground arith in
                      Returns-bind (slice-Ends payload 3 (3 + 5) (omega arith) (omega arith))
                        λ time _.
                          general_event-Ends payload mode time (3 + 5) (omega arith) (omega arith))
                (λ _. general_event-Ends payload mode [] 3 (omega arith) six)

event_message_npt-lt :
    (e : DsmccGeneralEvent)
    → IsBytes e.time_value
    → Returns (λ r. (n : ℕ) → r ≡ some n → n < 2 ^ 33) (event_message_npt e)
unfolding event_message_npt
event_message_npt-lt e bytes =
    otherwise (e.time_mode /= 0x02 || length e.time_value /= 5) (λ _. value (λ n p. cc))
      λ five.
        let long : length e.time_value ≡ 5 = ground arith in
        Returns-bind (clock_at-lt e.time_value 0 1 (omega arith) (omega arith) bytes)
          λ npt small. value (λ n p. let same : npt ≡ n = cc in omega arith)

-- On a descriptor of bytes that is as long as it states, the parsers of general events and of NPT
-- references return and never panic, and a reference has two clocks of 33 bits; so has the NPT of an
-- event whose time value is made of bytes.
pub events-Return :
    (d : Descriptor) (e : DsmccGeneralEvent)
    → 2 ≤ length d
    → 2 + at d 1 ≤ length d
    → IsBytes d
    → IsBytes e.time_value
    → Ends (parse_dsmcc_general_event d)
      × Returns FitsNpt (parse_dsmcc_npt_reference d)
      × Returns (λ r. (n : ℕ) → r ≡ some n → n < 2 ^ 33) (event_message_npt e)
events-Return d e two whole bytes time = (
  parse_dsmcc_general_event-Ends d two whole bytes,
  parse_dsmcc_npt_reference-Fits d two whole bytes,
  event_message_npt-lt e time,
)
