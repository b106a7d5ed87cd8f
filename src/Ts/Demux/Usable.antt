-- ===== src/Ts/Demux/Usable.antt =====
-- Which packets an output considers, and which PIDs a service has, described apart from the code.
use mahiron.Base.{
  ℕ, ◌+◌, ◌≤◌, ◌≡◌, refl, sym, ap, ◌∙◌, Bool, true, false, not, ◌&&◌, ◌||◌, List, [], ◌∷◌, ◌++◌,
  length, leb, ◌==◌, ◌/=◌, if◌then◌else◌, arith, Bool-cases, inl, inr,
}
use mahiron.Base.Result.{ok, index, index-eq_ok, or_else}
use mahiron.Base.Members.{mem, mem-append}
use mahiron.Ts.Words.{at, be13, be13_at, flag}
use mahiron.Ts.Packet.{Packet, packet_size, pid, transport_error_indicator, is_null}
use mahiron.Ts.Packet.Fields.{control, valid-eq}
use mahiron.Ts.Demux.{DemuxProgram, Demuxer, common_service_pid}
use mahiron.Ts.Demux.Observe.{unusable}
use mahiron.Ts.Demux.Outputs.{belongs}

-- The 13 bits behind the three flags.
abbrev pub pid_of : Packet → ℕ
pid_of p = be13 (at p 1) (at p 2)

-- 188 bytes without the error flag, not of the null PID, and with an adaptation field that ends in them.
abbrev pub is_usable : Packet → Bool
is_usable p =
    length p == 188
    && (not (flag (at p 1) 0x80)
        && (not (pid_of p == 0x1fff) && (if leb 2 (control p) then leb (5 + at p 4) 188 else true)))

abbrev common_pids : List ℕ
common_pids = 0x01 ∷ 0x10 ∷ 0x11 ∷ 0x12 ∷ 0x13 ∷ 0x14 ∷ 0x1e ∷ 0x1f ∷ 0x23 ∷ 0x24 ∷ 0x29 ∷ []

-- What a service gets: its PMT, its elements, the EMMs of the CAT, the CAT and the network's tables.
abbrev pub service_pids : Demuxer → DemuxProgram → List ℕ
service_pids d program = program.pmt_pid ∷ (program.pids ++ (d.cat_emm ++ common_pids))

mem-cons : (k x : ℕ) (l : List ℕ) → mem k (x ∷ l) ≡ (x == k || mem k l)
unfolding mem
mem-cons k x l = refl

shuffle : (c e e' p q : Bool) → e ≡ e' → (c || (e || (p || q))) ≡ (e' || (p || (q || c)))
shuffle c e e' p q h = ground arith

turned : (n m : ℕ) → (n == m) ≡ (m == n)
turned n m = ground arith

pub belongs-eq :
    (d : Demuxer) (program : DemuxProgram) (id : ℕ)
    → belongs d program id ≡ mem id (service_pids d program)
unfolding belongs common_service_pid
belongs-eq d program id =
    let common = common_pids in
    let a = mem-append id program.pids (d.cat_emm ++ common) in
    let b = mem-append id d.cat_emm common in
    shuffle (mem id common) (id == program.pmt_pid) (program.pmt_pid == id) (mem id program.pids)
      (mem id d.cat_emm) (turned id program.pmt_pid)
    ∙ sym (
        mem-cons id program.pmt_pid (program.pids ++ (d.cat_emm ++ common))
        ∙ ap (λ x. program.pmt_pid == id || x) (a ∙ ap (λ x. mem id program.pids || x) b))

module _ (p : Packet) (long : 4 ≤ length p) where
  at_1 : index p 1 ≡ ok (at p 1)
  at_1 = index-eq_ok p 1 0 (omega arith)

  pub pid-eq : pid p ≡ ok (pid_of p)
  unfolding pid be13_at
  pid-eq = rw at_1 (rw (index-eq_ok p 2 0 (omega arith)) refl)

  error-eq : transport_error_indicator p ≡ ok (flag (at p 1) 0x80)
  unfolding transport_error_indicator
  error-eq = rw at_1 refl

  null-eq : is_null p ≡ ok (pid_of p == 0x1fff)
  unfolding is_null
  null-eq = rw pid-eq refl

pub unusable-eq : (p : Packet) → unusable p ≡ ok (not (is_usable p))
unfolding unusable
unusable-eq p = elim (Bool-cases (length p /= packet_size)) [
  | inl other ↦ let short : (length p == 188) ≡ false = ground arith in rw other (rw short refl)
  | inr right ↦
      let whole : packet_size ≤ length p = ground arith in
      let long : 4 ≤ length p = omega arith in
      let exact : (length p == 188) ≡ true = ground arith in
      rw right (
        rw exact (
          rw (error-eq p long) (
            rw (null-eq p long) (
              rw (valid-eq p whole) (
                tests (flag (at p 1) 0x80) (pid_of p == 0x1fff)
                  (if leb 2 (control p) then leb (5 + at p 4) 188 else true))))))
]
  where
    tests :
        (broken empty valid : Bool)
        → or_else broken (or_else empty (ok (not valid)))
          ≡ ok (not (not broken && (not empty && valid)))
    tests broken empty valid = ground arith
