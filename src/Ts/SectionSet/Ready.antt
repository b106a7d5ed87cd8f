-- ===== src/Ts/SectionSet/Ready.antt =====
-- A section set files each section under its number, and it is ready only with a whole table.
use mahiron.Base.{
  ℕ, zero, suc, ◌≤◌, ◌≡◌, refl, sym, ap, ◌∙◌, subst, Bool, true, not, ◌||◌, List, [], ◌∷◌, ◌++◌,
  length, get_or, ltb, ◌==◌, Option, none, some, arith, Bool-cases, inl, inr, length-append,
  get_or-append_lt, ==_iff,
}
use mahiron.Base.Result.{
  Result, ok, err, panic, stuck, ◌>>=◌, Returns, value, error, Ends, otherwise,
}
use mahiron.Base.Assoc.{Map, lookup, insert, has, lookup-insert}
use mahiron.Ts.Section.{Section}
use mahiron.Ts.Section.Checks.{total}
use mahiron.Ts.Psi.Guards.{parse_section_header-eq}
use mahiron.Ts.Psi.{SectionHeader, parse_section_header}
use mahiron.Ts.SectionSet.{
  TableSectionSet, attempt, other_table, fresh_set, all_present, ready, file_section, add_parsed,
  add, or_nil, sections_to, ordered,
}

-- The section is of the set's version of the table and has the number.
pub record IsPart (s : TableSectionSet) (number : ℕ) (section : Section) : Type 0 where
  pub header : SectionHeader
  pub parsed : parse_section_header section ≡ ok header
  pub numbered : header.section_number ≡ number
  pub same_extension : header.transport_stream_id ≡ s.extension
  pub same_version : header.version_number ≡ s.version
  pub same_last : header.last_section_number ≡ s.last

abbrev pub IsFiled : TableSectionSet → Type 0
IsFiled s =
    (number : ℕ) (section : Section)
    → lookup number s.sections ≡ some section
    → IsPart s number section

has-lookup : {V : Type 0} (k : ℕ) (m : Map V) → has k m ≡ true → (v : V) × (lookup k m ≡ some v)
unfolding has lookup
has-lookup k [] h = cc
has-lookup k ((j, v) ∷ m) h = elim (Bool-cases (j == k)) [
  | inl e ↦ (v, rw (e, lookup) refl)
  | inr e ↦ let (w, q) = has-lookup k m (ground (arith, e)) in (w, rw (e, lookup) q)
]

all_present-has :
    (last n : ℕ) (m : Map Section) → all_present last m ≡ true → n ≤ last → has n m ≡ true
unfolding all_present
all_present-has zero zero m h k = h
all_present-has zero (suc n) m h k = absurd (omega arith)
all_present-has (suc last) n m h k = elim (Bool-cases (n == suc last)) [
  | inl e ↦ rw ((==_iff n (suc last)).0 e) (ground arith)
  | inr e ↦ all_present-has last n m (ground arith) (ground arith)
]

length-sections_to : (last : ℕ) (m : Map Section) → length (sections_to last m) ≡ suc last
unfolding sections_to
length-sections_to zero m = refl
length-sections_to (suc last) m =
    length-append (sections_to last m) _ ∙ omega (arith, length-sections_to last m)

get_or-append_length : (l : List Section) (x : Section) → get_or (l ++ x ∷ []) (length l) [] ≡ x
get_or-append_length [] x = refl
get_or-append_length (y ∷ l) x = get_or-append_length l x

get_or-sections_to :
    (last n : ℕ) (m : Map Section)
    → n ≤ last
    → get_or (sections_to last m) n [] ≡ or_nil (lookup n m)
unfolding sections_to
get_or-sections_to zero zero m k = refl
get_or-sections_to zero (suc n) m k = absurd (omega arith)
get_or-sections_to (suc last) n m k = elim (Bool-cases (n == suc last)) [
  | inl e ↦ rw ((==_iff n (suc last)).0 e) (
      subst
        (λ i.
          get_or (sections_to last m ++ or_nil (lookup (suc last) m) ∷ []) i []
          ≡ or_nil (lookup (suc last) m))
        (length-sections_to last m) (get_or-append_length (sections_to last m) _))
  | inr e ↦
      get_or-append_lt (sections_to last m) _ n []
        (let l = length-sections_to last m in ground arith)
      ∙ get_or-sections_to last n m (ground arith)
]

-- The whole table, section after section.
pub record IsTable (s : TableSectionSet) : Type 0 where
  pub count : length (ordered s) ≡ suc s.last
  pub parts : (number : ℕ) → number ≤ s.last → IsPart s number (get_or (ordered s) number [])

ready-IsTable : (s : TableSectionSet) → IsFiled s → ready s ≡ true → IsTable s
unfolding ready ordered
ready-IsTable s filed h = record {
  count = length-sections_to s.last s.sections;
  parts = λ number k.
      let (section, q) =
        has-lookup number s.sections (all_present-has s.last number s.sections (ground arith) k) in
      rw (get_or-sections_to s.last number s.sections k) (rw q (filed number section q));
}

abbrev Matches : SectionHeader → TableSectionSet → Type 0
Matches h s =
    (h.transport_stream_id ≡ s.extension)
    × (h.version_number ≡ s.version)
    × (h.last_section_number ≡ s.last)

some_injective : {A : Type 0} {a b : A} → some a ≡ some b → a ≡ b
some_injective e = cc

insert-IsFiled :
    (h : SectionHeader) (section : Section) (s : TableSectionSet)
    → parse_section_header section ≡ ok h
    → Matches h s
    → IsFiled s
    → IsFiled (record s { sections = insert h.section_number section s.sections })
insert-IsFiled h section s e (x, v, l) filed number found q =
    let law = lookup-insert h.section_number number section s.sections in
    elim (Bool-cases (h.section_number == number)) [
      | inl same ↦
          let stored : some section ≡ some found = sym (law ∙ rw same refl) ∙ q in
          rw (← some_injective stored) (record {
            header = h;
            parsed = e;
            numbered = (==_iff h.section_number number).0 same;
            same_extension = x;
            same_version = v;
            same_last = l;
          })
      | inr other ↦
          let old : lookup number s.sections ≡ some found = sym (law ∙ rw other refl) ∙ q in
          let part = filed number found old in
          record {
            header = part.header;
            parsed = part.parsed;
            numbered = part.numbered;
            same_extension = part.same_extension;
            same_version = part.same_version;
            same_last = part.same_last;
          }
    ]

file_section-IsFiled :
    (h : SectionHeader) (section : Section) (s : TableSectionSet)
    → parse_section_header section ≡ ok h
    → IsFiled s
    → IsFiled (file_section h section s).0
unfolding file_section
file_section-IsFiled h section s e filed = elim (Bool-cases (other_table h s)) [
  | inl o ↦
      rw (o, file_section)
        (insert-IsFiled h section (fresh_set h) e (unfold fresh_set in (refl, refl, refl))
          (λ number found q. unfold fresh_set lookup in cc))
  | inr o ↦
      rw (o, file_section)
        (insert-IsFiled h section s e
          (unfold other_table in (ground arith, ground arith, ground arith)) filed)
]

-- What a set is after `add`: filed, and a whole table if `ready` is returned.
abbrev Added : TableSectionSet × Bool × Bool → Type 0
Added r = IsFiled r.0 × (r.2 ≡ true → IsTable r.0)

add_parsed-Added :
    (parsed : Option SectionHeader) (section : Section) (s : TableSectionSet)
    → ((h : SectionHeader) → parsed ≡ some h → parse_section_header section ≡ ok h)
    → IsFiled s
    → Added (add_parsed parsed section s)
unfolding add_parsed
add_parsed-Added none section s e filed = (filed, λ h. cc)
add_parsed-Added (some h) section s e filed =
    elim (Bool-cases (not h.current_next_indicator || ltb h.last_section_number h.section_number)) [
      | inl skip ↦ rw (skip, add_parsed) (filed, λ h'. cc)
      | inr go ↦
          let filed' = file_section-IsFiled h section s (e h refl) filed in
          rw (go, add_parsed)
            (
              filed',
              λ h'. ready-IsTable (file_section h section s).0 filed' (unfold file_section in h'),
            )
    ]

parse_section_header-Ends : (section : Section) → Ends (parse_section_header section)
parse_section_header-Ends section = elim (Bool-cases (ltb (length section) 8)) [
  | inl short ↦ unfold parse_section_header in rw (short, parse_section_header) error
  | inr long ↦
      rw (parse_section_header-eq section (ground arith))
        (otherwise (ltb (length section) (total section)) (λ e. error) (λ e. value tt))
]

-- `add` always returns, for every section. In a set whose sections are filed under their numbers they
-- stay so, and if it says that the table is ready, then `ordered` lists one section for each number from
-- 0 to the last, each with the number of its place and of one table extension, version and last number.
pub add-IsTable :
    (section : Section) (s : TableSectionSet)
    → IsFiled s
    → Returns (λ r. IsFiled r.0 × (r.2 ≡ true → IsTable r.0)) (add section s)
unfolding add
add-IsTable section s filed =
    after (parse_section_header section) refl (parse_section_header-Ends section)
  where
    after :
        (r : Result SectionHeader)
        → parse_section_header section ≡ r
        → Ends r
        → Returns Added (do header ← attempt r; ok (add_parsed header section s))
    after (ok h) e end_ =
        value (add_parsed-Added (some h) section s (λ h' q. e ∙ ap ok (some_injective q)) filed)
    after (err e') e end_ = value (add_parsed-Added none section s (λ h' q. cc) filed)
    after panic e end_ = elim end_ [ ]
    after stuck e end_ = elim end_ [ ]
