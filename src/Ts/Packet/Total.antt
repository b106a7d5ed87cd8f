-- ===== src/Ts/Packet/Total.antt =====
-- No accessor of ts/packet.go panics on four bytes or more.
use mahiron.Base.{
  ◌+◌, ◌≤◌, ◌<◌, ◌≡◌, refl, Bool, true, false, not, [], length, leb, ltb, if◌then◌else◌, inl, inr,
  Bool-cases, arith,
}
use mahiron.Base.Result.{
  ok, ◌>>=◌, slice, or_else, Ends, value, Returns-bind, index-Ends, slice-Ends,
}
use mahiron.Ts.Words.{at, be13_at-Ends}
use mahiron.Ts.Packet.{
  is_null, packet_size, Packet, transport_error_indicator, payload_unit_start_indicator, pid,
  has_payload, continuity_counter, payload_offset, valid_payload_offset, payload,
}
use mahiron.Ts.Packet.Fields.{control, payload_offset-eq, valid-eq}

module _ (p : Packet) (four : 4 ≤ length p) where
  pub pid-Ends : Ends (pid p)
  unfolding pid
  pid-Ends = be13_at-Ends p 1 (omega arith)

  pub transport_error_indicator-Ends : Ends (transport_error_indicator p)
  unfolding transport_error_indicator
  transport_error_indicator-Ends = Returns-bind (index-Ends p 1 (omega arith)) λ b _. value tt

  pub payload_unit_start_indicator-Ends : Ends (payload_unit_start_indicator p)
  unfolding payload_unit_start_indicator
  payload_unit_start_indicator-Ends = Returns-bind (index-Ends p 1 (omega arith)) λ b _. value tt

  pub has_payload-Ends : Ends (has_payload p)
  unfolding has_payload
  has_payload-Ends = Returns-bind (index-Ends p 3 (omega arith)) λ b _. value tt

  pub continuity_counter-Ends : Ends (continuity_counter p)
  unfolding continuity_counter
  continuity_counter-Ends = Returns-bind (index-Ends p 3 (omega arith)) λ b _. value tt

-- Where the offset is valid it points into the packet.
valid-slice :
    (p : Packet) (bare : Bool)
    → packet_size ≤ length p
    → bare ≡ not (if leb 2 (control p) then leb (5 + at p 4) 188 else true)
    → Ends (if bare then ok [] else (do off ← payload_offset p; slice p off (length p)))
valid-slice p true h e = value tt
valid-slice p false h e = rw (payload_offset-eq p h) (elim (Bool-cases (leb 2 (control p))) [
  | inl far ↦ rw far (slice-Ends p (5 + at p 4) (length p) (ground arith) (omega arith))
  | inr near ↦ rw near (slice-Ends p 4 (length p) (omega arith) (omega arith))
])

valid_short : (p : Packet) → length p < packet_size → valid_payload_offset p ≡ ok false
unfolding valid_payload_offset
valid_short p h = ground arith

pub payload-Ends : (p : Packet) → 4 ≤ length p → Ends (payload p)
unfolding payload
payload-Ends p four = Returns-bind (has_payload-Ends p four) λ has _. rest has
  where
    long :
        packet_size ≤ length p
        → Ends (do
          bare ← (do v ← valid_payload_offset p; ok (not v))
          if bare then ok [] else (do off ← payload_offset p; slice p off (length p)))
    long h = rw (valid-eq p h) (valid-slice p _ h refl)

    short :
        length p < packet_size
        → Ends (do
          bare ← (do v ← valid_payload_offset p; ok (not v))
          if bare then ok [] else (do off ← payload_offset p; slice p off (length p)))
    short h = rw (valid_short p h) (value tt)

    rest :
        (has : Bool)
        → Ends (do
          bare ← or_else (not has) (do v ← valid_payload_offset p; ok (not v))
          if bare then ok [] else (do off ← payload_offset p; slice p off (length p)))
    rest false = value tt
    rest true = elim (Bool-cases (ltb (length p) packet_size)) [
      | inl few ↦ short (ground arith)
      | inr many ↦ long (ground arith)
    ]

pub valid_payload_offset-Ends : (p : Packet) → Ends (valid_payload_offset p)
valid_payload_offset-Ends p = elim (Bool-cases (ltb (length p) packet_size)) [
  | inl few ↦ rw (valid_short p (ground arith)) (value tt)
  | inr many ↦ rw (valid-eq p (ground arith)) (value tt)
]

pub is_null-Ends : (p : Packet) → 4 ≤ length p → Ends (is_null p)
unfolding is_null
is_null-Ends p four = Returns-bind (pid-Ends p four) λ n _. value tt
