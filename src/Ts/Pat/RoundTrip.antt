-- ===== src/Ts/Pat/RoundTrip.antt =====
-- `ParsePAT` ends on every byte string, and reads back what `BuildPATSection` writes.
use mahiron.Base.{
  ℕ, zero, suc, ◌+◌, ◌-◌, ◌*◌, ◌/◌, ◌%◌, ◌^◌, ◌<◌, ◌≤◌, ◌≡◌, refl, ap, ◌∙◌, true, false, bit_and,
  bit_or, [], ◌∷◌, ◌++◌, length, ltb, leb, ◌==◌, ◌/=◌, if◌then◌else◌, arith, Bool-cases, inl, inr,
}
use mahiron.Base.Bits.{or_c1, or_e0, and_1f}
use mahiron.Base.Result.{ok, index, Ends, value, error, Returns-bind}
use mahiron.Ts.Words.{
  be16, be13, be16_lem, be13_lem, be16_at, be13_at, be12, be16_at-Ends, be13_at-Ends,
}
use mahiron.Ts.Crc.{crc32_mpeg2, crc_bytes}
use mahiron.Ts.Crc.Laws.{crc32_mpeg2-append_self}
use mahiron.Ts.TableId
use mahiron.Ts.Section.{Section}
use mahiron.Ts.Section.Checks.{total, crc_valid, total_length-eq}
use mahiron.Ts.Psi.{version_of}
use mahiron.Ts.Psi.Guards.{rejects, rejected-eq, accepted, header_of, parse_section_header-eq}
use mahiron.Base.Assoc.{insert}
use mahiron.Ts.Pat.{Pat, note_program, programs_loop, parse_pat, pat_body, build_pat_section}

programs_loop-Ends :
    (fuel : ℕ) (s : Section) (end_ off : ℕ) (pat : Pat)
    → 1 ≤ fuel
    → end_ < off + fuel
    → end_ ≤ length s
    → Ends (programs_loop fuel s end_ off pat)
unfolding programs_loop
programs_loop-Ends zero s end_ off pat h k l = elim h [ ]
programs_loop-Ends (suc fuel) s end_ off pat h k l = elim (Bool-cases (leb (off + 4) end_)) [
  | inl inside ↦
      let fits : off + 4 ≤ end_ = ground arith in
      rw inside (
        Returns-bind (be16_at-Ends s off (omega arith)) λ program _.
          Returns-bind (be13_at-Ends s (off + 2) (omega arith)) λ pid _.
            programs_loop-Ends fuel s end_ (off + 4) (note_program pat program pid) (omega arith)
              (omega arith) l)
  | inr beyond ↦ rw beyond (value tt)
]

pub parse_pat-Ends : (s : Section) → Ends (parse_pat s)
unfolding parse_pat
parse_pat-Ends s =
    rw (rejected-eq 12 (λ id. id /= TableId.pat) s (omega arith))
      (elim (Bool-cases (rejects 12 (λ id. id /= TableId.pat) s)) [
        | inl bad ↦ rw bad error
        | inr good ↦
            let a = accepted 12 (λ id. id /= TableId.pat) s good in
            let whole : ltb (length s) (total s) ≡ false = ground (arith, a.whole) in
            rw good (
              rw (parse_section_header-eq s (omega (arith, a.long))) (
                rw whole (
                  rw (total_length-eq s (omega (arith, a.long))) (
                    programs_loop-Ends (suc (length s)) s (total s - 4) 8 _ (omega arith)
                      (omega (arith, a.whole)) (omega (arith, a.whole))))))
      ])

-- The one program of the table that `BuildPATSection` writes, as `ParsePAT` sees it: the number 0
-- stands for the network.
abbrev pub single_program : ℕ → ℕ → ℕ → ℕ → Pat
single_program tsid sid pid version = record {
  transport_stream_id = tsid;
  version_number = version;
  network_pid = if sid == 0 then pid else 0;
  programs = if sid == 0 then [] else (sid, pid) ∷ [];
}

module _ (tsid sid pid version : ℕ) where
  abbrev pub built : Section
  built = pat_body tsid sid pid version ++ crc_bytes (crc32_mpeg2 (pat_body tsid sid pid version))

  pub built-total : total built ≡ 16
  unfolding total be12 be16
  built-total = refl

  pub built_valid : crc_valid built ≡ true
  unfolding crc_valid
  built_valid = rw built-total (rw (crc32_mpeg2-append_self (pat_body tsid sid pid version)) refl)

  built_accepted : rejects 12 (λ id. id /= TableId.pat) built ≡ false
  built_accepted = rw built-total (rw built_valid refl)

  built_header : Pat
  built_header = record {
    transport_stream_id = be16 (tsid / 2 ^ 8 % 256) (tsid % 256);
    version_number = version_of (bit_or 0xc1 (bit_and version 0x1f * 2 % 256));
    network_pid = 0;
    programs = [];
  }

  built_program : ℕ
  built_program = be16 (sid / 2 ^ 8 % 256) (sid % 256)

  built_pid : ℕ
  built_pid = be13 (bit_or 0xe0 (pid / 2 ^ 8 % 256)) (pid % 256)

  built_loop :
      programs_loop 17 built 12 8 built_header
      ≡ ok (note_program built_header built_program built_pid)
  unfolding programs_loop be16_at be13_at index built_program built_pid
  built_loop = refl

  built_parse : parse_pat built ≡ ok (note_program built_header built_program built_pid)
  unfolding parse_pat header_of built_header
  built_parse = rw (rejected-eq 12 (λ id. id /= TableId.pat) built (omega arith)) (
      rw built_accepted (
        rw (parse_section_header-eq built (omega arith))
          (rw built-total (rw (total_length-eq built (omega arith)) (rw built-total built_loop)))))

  word_back : (n : ℕ) → n < 65536 → be16 (n / 2 ^ 8 % 256) (n % 256) ≡ n
  word_back n h = be16_lem _ _ (omega arith) ∙ omega arith

  pid_back : pid ≤ 0x1fff → built_pid ≡ pid
  unfolding built_pid
  pid_back h =
      let e : bit_or 0xe0 (pid / 2 ^ 8 % 256) ≡ 0xe0 + pid / 256 =
        ap (bit_or 0xe0) (omega arith) ∙ or_e0 (pid / 256) (omega arith) in
      rw e (be13_lem (0xe0 + pid / 256) (pid % 256) (omega arith) (omega arith) ∙ omega arith)

  version_back : version < 32 → version_of (bit_or 0xc1 (bit_and version 0x1f * 2 % 256)) ≡ version
  version_back h =
      let v : bit_and version 0x1f ≡ version = and_1f version (omega arith) ∙ omega arith in
      let e : bit_or 0xc1 (bit_and version 0x1f * 2 % 256) ≡ 0xc1 + version * 2 =
        rw v (ap (bit_or 0xc1) (omega arith) ∙ or_c1 version h) in
      rw e (and_1f ((0xc1 + version * 2) / 2) (omega arith) ∙ omega arith)

fields :
    (tsid sid pid version : ℕ)
    → tsid < 65536
    → sid < 65536
    → pid ≤ 0x1fff
    → version < 32
    → note_program
        (built_header tsid sid pid version)
        (built_program tsid sid pid version)
        (built_pid tsid sid pid version)
      ≡ single_program tsid sid pid version
unfolding note_program built_header built_program insert
fields tsid sid pid version ht hs hp hv = ground (
  arith,
  word_back tsid sid pid version tsid ht,
  word_back tsid sid pid version sid hs,
  pid_back tsid sid pid version hp,
  version_back tsid sid pid version hv,
)

pub parse_pat-built :
    (tsid sid pid version : ℕ)
    → tsid < 65536
    → sid < 65536
    → pid ≤ 0x1fff
    → version < 32
    → parse_pat (built tsid sid pid version) ≡ ok (single_program tsid sid pid version)
parse_pat-built tsid sid pid version ht hs hp hv =
    built_parse tsid sid pid version ∙ ap ok (fields tsid sid pid version ht hs hp hv)

-- For identifiers of 16 bits, a PID of 13 and a version of 5, `BuildPATSection` returns a section
-- that `ParsePAT` accepts, with these identifiers and this one program; program 0 is read as the
-- network's PID.
pub parse_pat-build_pat_section :
    (tsid sid pid version : ℕ)
    → tsid < 65536
    → sid < 65536
    → pid ≤ 0x1fff
    → version < 32
    → (s : Section) × (build_pat_section tsid sid pid version ≡ ok s)
      × (parse_pat s
          ≡ ok (record {
            transport_stream_id = tsid;
            version_number = version;
            network_pid = if sid == 0 then pid else 0;
            programs = if sid == 0 then [] else (sid, pid) ∷ [];
          }))
unfolding build_pat_section
parse_pat-build_pat_section tsid sid pid version ht hs hp hv =
    (built tsid sid pid version, ground arith, parse_pat-built tsid sid pid version ht hs hp hv)
