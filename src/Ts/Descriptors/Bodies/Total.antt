-- ===== src/Ts/Descriptors/Bodies/Total.antt =====
-- The parsers of single descriptors end on every byte string, and count what they read.
use mahiron.Base.{
  ℕ, zero, suc, ◌+◌, ◌-◌, ◌*◌, ◌/◌, ◌%◌, ◌^◌, ◌<◌, ◌≤◌, ◌≡◌, Bool, false, ◌||◌, bit_and, List, [],
  ◌∷◌, ◌++◌, length, ltb, ◌==◌, ◌/=◌, arith, Bool-cases, inl, inr, length-append, length-take,
  length-drop, drop,
}
use mahiron.Base.Result.{
  Error, Returns, Ends, value, error, Returns-bind, Returns-mono, index-Ends, index-eq_ok,
  slice-Ends, slice-eq_ok, otherwise, unless,
}
use mahiron.Ts.Words.{Bytes, at, be16_at-Ends, flag}
use mahiron.Ts.Descriptors.{Descriptor, tag, descriptor_length, descriptor_data}
use mahiron.Ts.Descriptors.Bodies.{
  is_cut, body_of, parse_data_component_descriptor, version_at, versions_at, entry_point,
  optional_entry_point, carousel_at, parse_bxml_info, ServiceListEntry, service_list_loop,
  parse_service_list_descriptor, frequencies_loop, parse_terrestrial_delivery_system_descriptor,
}

is_cut-Returns :
    (d : Descriptor)
    → Returns (λ cut. cut ≡ false → (2 ≤ length d) × (2 + at d 1 ≤ length d)) (is_cut d)
unfolding is_cut
is_cut-Returns d = elim (Bool-cases (ltb (length d) 2)) [
  | inl few ↦ rw few (value (λ e. cc))
  | inr long ↦
      rw long (rw (index-eq_ok d 1 0 (ground arith)) (value (λ e. (ground arith, ground arith))))
]

body_of-Ends : (wanted : ℕ) (wrong : ℕ → Error) (d : Descriptor) → Ends (body_of wanted wrong d)
unfolding body_of tag descriptor_data descriptor_length
body_of-Ends wanted wrong d = Returns-bind (is_cut-Returns d) λ cut known. unless cut λ whole.
    let (two, room) = known whole in
    Returns-bind (index-Ends d 0 (omega arith)) λ t _.
      otherwise (t /= wanted) (λ _. error)
        λ _. rw (index-eq_ok d 1 0 (omega arith)) (slice-Ends d 2 (2 + at d 1) (omega arith) room)

parse_data_component_descriptor-Ends : (d : Descriptor) → Ends (parse_data_component_descriptor d)
unfolding parse_data_component_descriptor
parse_data_component_descriptor-Ends d =
    Returns-bind (body_of-Ends 0xfd (λ t. Error.invalid_section) d) λ body _.
      unless (ltb (length body) 2) λ enough.
        let two : 2 ≤ length body = ground arith in
        Returns-bind (be16_at-Ends body 0 (omega arith)) λ id _.
          Returns-bind (slice-Ends body 2 (length body) two (omega arith)) λ info _. value tt

version_at-Ends : (b : Bytes) (off : ℕ) → Ends (version_at b off)
unfolding version_at
version_at-Ends b off = unless (ltb (length b) (off + 4)) λ enough.
    let four : off + 4 ≤ length b = ground arith in
    Returns-bind (be16_at-Ends b off (omega arith))
      λ major _. Returns-bind (be16_at-Ends b (off + 2) (omega arith)) λ minor _. value tt

versions_at-Ends :
    (default_version use_xml : Bool) (b : Bytes) → Ends (versions_at default_version use_xml b)
unfolding versions_at
versions_at-Ends default_version use_xml b =
    otherwise default_version (λ _. value tt)
      λ _. Returns-bind (version_at-Ends b 2) λ bml _.
        otherwise use_xml (λ _. Returns-bind (version_at-Ends b 6) λ bxml _. value tt)
          (λ _. value tt)

entry_point-Ends : (b0 : ℕ) (b : Bytes) → 3 ≤ length b → Ends (entry_point b0 b)
unfolding entry_point
entry_point-Ends b0 b h =
    Returns-bind (index-Ends b 1 (omega arith))
      λ b1 _. Returns-bind (versions_at-Ends (flag b1 0x40) (flag b1 0x80) b) λ v _. value tt

carousel_at-Ends : (b : Bytes) (off : ℕ) → Ends (carousel_at b off)
unfolding carousel_at
carousel_at-Ends b off = unless (ltb (length b) (off + 2)) λ enough.
    let two : off + 2 ≤ length b = ground arith in
    Returns-bind (index-Ends b off (omega arith))
      λ c0 _. Returns-bind (index-Ends b (off + 1) (omega arith)) λ c1 _. value tt

optional_entry_point-Ends : (b0 : ℕ) (b : Bytes) → 3 ≤ length b → Ends (optional_entry_point b0 b)
unfolding optional_entry_point
optional_entry_point-Ends b0 b h =
    otherwise (flag b0 0x20) (λ _. Returns-bind (entry_point-Ends b0 b h) λ e _. value tt)
      (λ _. value tt)

parse_bxml_info-Ends : (b : Bytes) → Ends (parse_bxml_info b)
unfolding parse_bxml_info
parse_bxml_info-Ends b = unless (ltb (length b) 3) λ enough.
    let three : 3 ≤ length b = ground arith in
    Returns-bind (index-Ends b 0 (omega arith)) λ b0 _.
      Returns-bind (optional_entry_point-Ends b0 b three) λ entry _.
        Returns-bind
          (otherwise (bit_and (b0 / 2 ^ 6) 0x03 == 0) (λ _. carousel_at-Ends b entry.1)
            (λ _. value tt))
          λ carousel _. value tt

-- The loops read one entry for each three or two bytes.
service_list_loop-Returns :
    (fuel : ℕ) (body : Bytes) (off left : ℕ) (entries : List ServiceListEntry)
    → left < fuel
    → off + left * 3 ≡ length body
    → Returns (λ es. length es ≡ length entries + left) (service_list_loop fuel body off entries)
unfolding service_list_loop
service_list_loop-Returns zero body off left entries h e = absurd (omega arith)
service_list_loop-Returns (suc fuel) body off zero entries h e =
    otherwise (ltb off (length body)) (λ more. absurd (ground arith)) (λ _. value (omega arith))
service_list_loop-Returns (suc fuel) body off (suc left) entries h e =
    otherwise (ltb off (length body))
      (λ _. Returns-bind (be16_at-Ends body off (omega arith)) λ id _.
        Returns-bind (index-Ends body (off + 2) (omega arith)) λ kind _.
          let next : ServiceListEntry = record { service_id = id; service_type = kind } in
          let n = length-append entries (next ∷ []) in
          Returns-mono
            (service_list_loop-Returns fuel body (off + 3) left (entries ++ next ∷ []) (omega arith)
              (omega arith))
            (λ es p. omega arith))
      (λ stop. absurd (ground arith))

frequencies_loop-Returns :
    (fuel : ℕ) (body : Bytes) (off left : ℕ) (frequencies : List ℕ)
    → left < fuel
    → off + left * 2 ≡ length body
    → Returns
        (λ fs. length fs ≡ length frequencies + left)
        (frequencies_loop fuel body off frequencies)
unfolding frequencies_loop
frequencies_loop-Returns zero body off left frequencies h e = absurd (omega arith)
frequencies_loop-Returns (suc fuel) body off zero frequencies h e =
    otherwise (ltb off (length body)) (λ more. absurd (ground arith)) (λ _. value (omega arith))
frequencies_loop-Returns (suc fuel) body off (suc left) frequencies h e =
    otherwise (ltb off (length body))
      (λ _. Returns-bind (be16_at-Ends body off (omega arith)) λ f _.
        let n = length-append frequencies (f ∷ []) in
        Returns-mono
          (frequencies_loop-Returns fuel body (off + 2) left (frequencies ++ f ∷ []) (omega arith)
            (omega arith))
          (λ fs p. omega arith))
      (λ stop. absurd (ground arith))

body_of-length :
    (wanted : ℕ) (wrong : ℕ → Error) (d : Descriptor)
    → Returns (λ b. length b ≡ at d 1) (body_of wanted wrong d)
unfolding body_of tag descriptor_data descriptor_length
body_of-length wanted wrong d = Returns-bind (is_cut-Returns d) λ cut known. unless cut λ whole.
    let (two, room) = known whole in
    let p = length-take (2 + at d 1 - 2) (drop 2 d) in
    let q = length-drop 2 d in
    Returns-bind (index-Ends d 0 (omega arith)) λ t _.
      otherwise (t /= wanted) (λ _. error)
        λ _.
          rw (index-eq_ok d 1 0 (omega arith))
            (rw (slice-eq_ok d 2 (2 + at d 1) (omega arith) room) (value (omega arith)))

parse_service_list_descriptor-Returns :
    (d : Descriptor) → Returns (λ es. length es * 3 ≡ at d 1) (parse_service_list_descriptor d)
unfolding parse_service_list_descriptor
parse_service_list_descriptor-Returns d =
    Returns-bind (body_of-length 0x41 Error.unexpected_descriptor_tag d) λ body n.
      unless (length body % 3 /= 0) λ even.
        let whole : length body % 3 ≡ 0 = ground arith in
        Returns-mono
          (service_list_loop-Returns (suc (length body)) body 0 (length body / 3) [] (omega arith)
            (omega arith))
          (λ es p. omega arith)

parse_terrestrial_delivery_system_descriptor-Returns :
    (d : Descriptor)
    → Returns
        (λ t. 2 + length t.frequencies * 2 ≡ at d 1)
        (parse_terrestrial_delivery_system_descriptor d)
unfolding parse_terrestrial_delivery_system_descriptor
parse_terrestrial_delivery_system_descriptor-Returns d =
    Returns-bind (body_of-length 0xfa Error.unexpected_descriptor_tag d) λ body n.
      unless (ltb (length body) 2 || (length body - 2) % 2 /= 0) λ fits.
        let two : 2 ≤ length body = ground arith in
        let even : (length body - 2) % 2 ≡ 0 = ground arith in
        Returns-bind (index-Ends body 0 (omega arith)) λ b0 _.
          Returns-bind (index-Ends body 1 (omega arith)) λ b1 _.
            Returns-bind
              (frequencies_loop-Returns (suc (length body)) body 2 ((length body - 2) / 2) []
                (omega arith) (omega arith))
              λ fs p. value (omega arith)

-- On every byte string, the parsers of the data component, service list and terrestrial delivery
-- system descriptors and of the BXML information return a value or an error and never panic; a
-- service list has a service for each three announced bytes, and a terrestrial descriptor a frequency
-- for each two behind the first two.
pub bodies-Returns :
    (d : Descriptor) (b : Bytes)
    → Ends (parse_data_component_descriptor d)
      × Ends (parse_bxml_info b)
      × Returns (λ es. length es * 3 ≡ at d 1) (parse_service_list_descriptor d)
      × Returns
          (λ t. 2 + length t.frequencies * 2 ≡ at d 1)
          (parse_terrestrial_delivery_system_descriptor d)
bodies-Returns d b = (
  parse_data_component_descriptor-Ends d,
  parse_bxml_info-Ends b,
  parse_service_list_descriptor-Returns d,
  parse_terrestrial_delivery_system_descriptor-Returns d,
)
