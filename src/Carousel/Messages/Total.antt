-- ===== src/Carousel/Messages/Total.antt =====
-- The parsers of DII and DDB messages end on every byte string, and read fields of their widths.
use mahiron.Base.{
  ℕ, zero, suc, ◌+◌, ◌-◌, ◌^◌, ◌<◌, ◌≤◌, ◌≡◌, refl, Bool, true, false, ◌||◌, List, [], length, drop,
  ltb, ◌==◌, ◌/=◌, arith, Bool-cases, inl, inr, All, All-append, All-take, All-drop, length-take,
  length-drop,
}
use mahiron.Base.Result.{
  Result, slice, Returns, Ends, value, Returns-bind, Returns-mono, index-Ends, slice-eq_ok,
  slice-Ends, unless, or_else, or_else-Ends,
}
use mahiron.Ts.Words.{Bytes, IsBytes, at, at-IsByte, be16_lem, be16_at, be16_at-Ends}
use mahiron.Ts.Section.{Section}
use mahiron.Ts.Section.Checks.{total, total_length-eq}
use mahiron.Ts.TableId
use mahiron.Ts.Psi.Guards.{be16_at-eq}
use mahiron.Ts.Parsers.{guarded}
use mahiron.Carousel.{ModuleInfo, Dii}
use mahiron.Carousel.Announce.{IsInfo}
use mahiron.Carousel.Messages.{
  be32_at, message_payload, dsmcc_message_body, modules_loop, private_part, dii_of, parse_dii,
  ddb_of, parse_ddb,
}

-- A cut of a byte string is one, and is as long as its bounds say.
slice-Returns :
    (s : Bytes) (lo hi : ℕ)
    → lo ≤ hi
    → hi ≤ length s
    → IsBytes s
    → Returns (λ b. IsBytes b × (length b ≡ hi - lo)) (slice s lo hi)
slice-Returns s lo hi h k bytes =
    let p = length-take (hi - lo) (drop lo s) in
    let q = length-drop lo s in
    rw (slice-eq_ok s lo hi h k) (
      value (
        All-take (λ b. b < 256) (hi - lo) (drop lo s) (All-drop (λ b. b < 256) lo s bytes),
        omega arith,
      ))

be16_at-lt :
    (s : Bytes) (i : ℕ) → i + 1 < length s → IsBytes s → Returns (λ n. n < 2 ^ 16) (be16_at s i)
be16_at-lt s i h bytes =
    let hi = at-IsByte s i bytes in
    let lo = at-IsByte s (i + 1) bytes in
    rw (be16_at-eq s i h) (value (omega (arith, be16_lem (at s i) (at s (i + 1)) lo)))

be32_at-lt :
    (s : Bytes) (i : ℕ) → i + 3 < length s → IsBytes s → Returns (λ n. n < 2 ^ 32) (be32_at s i)
unfolding be32_at
be32_at-lt s i h bytes =
    Returns-bind (be16_at-lt s i (omega arith) bytes)
      λ hi p. Returns-bind (be16_at-lt s (i + 2) (omega arith) bytes) λ lo q. value (omega arith)

-- A guard whose later tests are made only if the first one passes.
or_else-Returns :
    (t : Bool) {m : Result Bool}
    → (t ≡ false → Ends m)
    → Returns (λ bad. bad ≡ false → t ≡ false) (or_else t m)
or_else-Returns true k = value (λ e. e)
or_else-Returns false k = Returns-mono (k refl) (λ _ _ _. refl)

message_payload-Returns : (m : Bytes) (id : ℕ) → IsBytes m → Returns IsBytes (message_payload m id)
unfolding message_payload
message_payload-Returns m id bytes =
    Returns-bind
      (or_else-Returns (ltb (length m) 12) λ long.
        let twelve : 12 ≤ length m = ground arith in
        Returns-bind (index-Ends m 0 (omega arith)) λ b0 _.
          Returns-bind (index-Ends m 1 (omega arith)) λ b1 _.
            or_else-Ends (b0 /= 0x11 || b1 /= 0x03)
              (Returns-bind (be16_at-Ends m 2 (omega arith)) λ n _. value tt))
      λ bad known. unless bad λ good.
        let long = known good in
        let twelve : 12 ≤ length m = ground arith in
        Returns-bind (index-Ends m 9 (omega arith)) λ a _.
          Returns-bind (be16_at-Ends m 10 (omega arith)) λ n _.
            unless (ltb (length m) (12 + a) || ltb (length m) (12 + a + n)) λ fits.
              let inside : 12 + a + n ≤ length m = ground arith in
              Returns-mono (slice-Returns m (12 + a) (12 + a + n) (omega arith) inside bytes)
                (λ b p. p.0)

dsmcc_message_body-Returns :
    (s : Section) (id : ℕ)
    → 3 ≤ length s
    → total s ≤ length s
    → IsBytes s
    → Returns IsBytes (dsmcc_message_body s id)
unfolding dsmcc_message_body
dsmcc_message_body-Returns s id long whole bytes = rw (total_length-eq s long) (
    unless (ltb (total s - 4) 20) λ enough.
      let twenty : 20 ≤ total s - 4 = ground arith in
      Returns-bind (slice-Returns s 8 (total s - 4) (omega arith) (omega arith) bytes)
        λ m p. message_payload-Returns m id p.0)

-- The modules that the loop adds are announced with uint32 sizes.
modules_loop-Returns :
    (count : ℕ) (body : Bytes) (off : ℕ) (modules : List ModuleInfo)
    → IsBytes body
    → off ≤ length body
    → All IsInfo modules
    → Returns (λ r. (r.0 ≤ length body) × All IsInfo r.1) (modules_loop count body off modules)
unfolding modules_loop
modules_loop-Returns zero body off modules bytes h a = value (h, a)
modules_loop-Returns (suc count) body off modules bytes h a =
    unless (ltb (length body) (off + 8)) λ fits.
      let inside : off + 8 ≤ length body = ground arith in
      Returns-bind (be16_at-Ends body off (omega arith)) λ module_id _.
        Returns-bind (be32_at-lt body (off + 2) (omega arith) bytes) λ size small.
          Returns-bind (index-Ends body (off + 6) (omega arith)) λ version _.
            Returns-bind (index-Ends body (off + 7) (omega arith)) λ n _.
              unless (ltb (length body) (off + 8 + n)) λ room.
                let within : off + 8 + n ≤ length body = ground arith in
                Returns-bind (slice-Returns body (off + 8) (off + 8 + n) (omega arith) within bytes)
                  λ info _.
                    modules_loop-Returns count body (off + 8 + n) _ bytes within
                      (All-append IsInfo modules _ a (small, tt))

private_part-Ends : (body : Bytes) (off : ℕ) → Ends (private_part body off)
unfolding private_part
private_part-Ends body off = elim (Bool-cases (off == length body || ltb (length body) (off + 2))) [
  | inl none_there ↦ rw none_there (value tt)
  | inr some_there ↦
      let two : off + 2 ≤ length body = ground arith in
      rw some_there (
        Returns-bind (be16_at-Ends body off (omega arith)) λ n _.
          elim (Bool-cases (ltb (length body) (off + 2 + n))) [
            | inl cut ↦ rw cut (value tt)
            | inr fits ↦
                let within : off + 2 + n ≤ length body = ground arith in
                rw fits (slice-Ends body (off + 2) (off + 2 + n) (omega arith) within)
          ])
]

abbrev IsAnnouncement : Dii → Type 0
IsAnnouncement dii = All IsInfo dii.modules

dii_of-Returns :
    (body : Bytes) → IsBytes body → 18 ≤ length body → Returns IsAnnouncement (dii_of body)
unfolding dii_of
dii_of-Returns body bytes long =
    Returns-bind (be32_at-lt body 0 (omega arith) bytes) λ download_id _.
      Returns-bind (be16_at-Ends body 4 (omega arith)) λ block_size _.
        Returns-bind (be16_at-Ends body 16 (omega arith)) λ n _.
          elim (Bool-cases (18 + n == length body)) [
            | inl bare ↦ rw bare (value tt)
            | inr more ↦ rw more (
                unless (ltb (length body) (18 + n + 2)) λ room.
                  let within : 18 + n + 2 ≤ length body = ground arith in
                  Returns-bind (be16_at-Ends body (18 + n) (omega arith)) λ count _.
                    Returns-bind (modules_loop-Returns count body (18 + n + 2) [] bytes within tt)
                      λ found p.
                        Returns-bind (private_part-Ends body found.0) λ private_data _. value p.1)
          ]

ddb_of-Ends :
    (s : Section) (body : Bytes)
    → 25 ≤ length s
    → IsBytes s
    → 6 ≤ length body
    → Ends (ddb_of s body)
unfolding ddb_of
ddb_of-Ends s body long bytes six =
    Returns-bind (be32_at-lt s 12 (omega arith) bytes) λ download_id _.
      Returns-bind (be16_at-Ends body 0 (omega arith)) λ module_id _.
        Returns-bind (index-Ends body 2 (omega arith)) λ version _.
          Returns-bind (be16_at-Ends body 4 (omega arith)) λ number _.
            Returns-bind (slice-Ends body 6 (length body) six (omega arith)) λ block _. value tt

parse_dii-Returns : (s : Section) → IsBytes s → Returns IsAnnouncement (parse_dii s)
unfolding parse_dii
parse_dii-Returns s bytes =
    guarded 23 (λ id. id /= TableId.dsmcc_dii) s (omega arith)
      λ a.
        let long = a.long in
        Returns-bind (dsmcc_message_body-Returns s 0x1002 (omega arith) a.whole bytes)
          λ body p. unless (ltb (length body) 18) λ enough. dii_of-Returns body p (ground arith)

parse_ddb-Ends : (s : Section) → IsBytes s → Ends (parse_ddb s)
unfolding parse_ddb
parse_ddb-Ends s bytes =
    guarded 25 (λ id. id /= TableId.dsmcc_ddb) s (omega arith)
      λ a.
        let long = a.long in
        Returns-bind (dsmcc_message_body-Returns s 0x1003 (omega arith) a.whole bytes) λ body p.
          unless (ltb (length body) 6) λ enough. ddb_of-Ends s body long bytes (ground arith)

-- On every string of bytes `ParseDSMCCDII` and `ParseDSMCCDDB` return a message or an error and never
-- panic; the sizes of the modules that a DII announces are below 2 ^ 32.
pub messages-Returns :
    (s : Section)
    → IsBytes s
    → Returns (λ dii. All IsInfo dii.modules) (parse_dii s) × Ends (parse_ddb s)
messages-Returns s bytes = (parse_dii-Returns s bytes, parse_ddb-Ends s bytes)
