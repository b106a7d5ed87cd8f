-- ===== src/Ts/SectionSet.antt =====
-- ts/scanner.go: `tableSectionSet`, the sections of one version of a table.
pub mod Ready
use mahiron.Base.{
  ℕ, zero, suc, ◌+◌, Bool, true, false, not, ◌&&◌, ◌||◌, List, [], ◌∷◌, ◌++◌, length, ltb, ◌/=◌,
  if◌then◌else◌, Option, none, some,
}
use mahiron.Base.Result.{Result, ok, err, panic, stuck, ◌>>=◌}
use mahiron.Base.Assoc.{Map, lookup, insert, has}
use mahiron.Ts.Section.{Section}
use mahiron.Ts.Psi.{SectionHeader, parse_section_header}

pub record TableSectionSet : Type 0 where
  pub initialized : Bool
  pub extension : ℕ
  pub version : ℕ
  pub last : ℕ
  pub sections : Map Section

abbrev pub empty_set : TableSectionSet
empty_set = record { initialized = false; extension = 0; version = 0; last = 0; sections = [] }

-- `value, err := …; if err != nil`: an error value is `none`.
abbrev pub attempt {ℓ} : {A : Type ℓ} → Result A → Result (Option A)
attempt (ok a) = ok (some a)
attempt (err e) = ok none
attempt panic = panic
attempt stuck = stuck

unfoldable pub other_table : SectionHeader → TableSectionSet → Bool
other_table h s =
    not s.initialized
    || (s.extension /= h.transport_stream_id
        || (s.version /= h.version_number || s.last /= h.last_section_number))

unfoldable pub fresh_set : SectionHeader → TableSectionSet
fresh_set h = record {
  initialized = true;
  extension = h.transport_stream_id;
  version = h.version_number;
  last = h.last_section_number;
  sections = [];
}

-- Are the numbers from 0 on all present?
unfoldable pub all_present : ℕ → Map Section → Bool
all_present zero m = has 0 m
all_present (suc n) m = all_present n m && has (suc n) m

unfoldable pub ready : TableSectionSet → Bool
ready s = not (length s.sections /= s.last + 1) && all_present s.last s.sections

-- `add`: the set, `reset` and `ready`.
unfoldable pub file_section :
    SectionHeader → Section → TableSectionSet → TableSectionSet × Bool × Bool
file_section h section s =
    let reset = other_table h s in
    let base = if reset then fresh_set h else s in
    let filed : TableSectionSet = record base {
      sections = insert h.section_number section base.sections;
    } in
    (filed, reset, ready filed)

unfoldable pub add_parsed :
    Option SectionHeader → Section → TableSectionSet → TableSectionSet × Bool × Bool
add_parsed none section s = (s, false, false)
add_parsed (some h) section s =
    if not h.current_next_indicator || ltb h.last_section_number h.section_number
    then (s, false, false)
    else file_section h section s

unfoldable pub add : Section → TableSectionSet → Result (TableSectionSet × Bool × Bool)
unfolding add_parsed
add section s = do header ← attempt (parse_section_header section); ok (add_parsed header section s)

-- An absent entry reads as nil.
abbrev or_nil : Option Section → Section
or_nil none = []
or_nil (some s) = s

unfoldable pub sections_to : ℕ → Map Section → List Section
sections_to zero m = or_nil (lookup 0 m) ∷ []
sections_to (suc n) m = sections_to n m ++ or_nil (lookup (suc n) m) ∷ []

unfoldable pub ordered : TableSectionSet → List Section
ordered s = sections_to s.last s.sections
