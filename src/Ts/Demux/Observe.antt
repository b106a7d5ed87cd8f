-- ===== src/Ts/Demux/Observe.antt =====
-- ts/demux.go: what the demultiplexer learns from a PAT, a CAT or a PMT, the packets that it reads, and
-- the packets that it emits for a service.
use mahiron.Base.{
  ℕ, ◌+◌, ◌-◌, ◌%◌, ◌^◌, Bool, true, false, not, ◌||◌, List, [], ◌∷◌, ◌++◌, length, ltb, ◌==◌, ◌/=◌,
  if◌then◌else◌, Option, none, some,
}
use mahiron.Base.Result.{Result, ok, ◌>>=◌, slice, or_else}
use mahiron.Base.Assoc.{Map, lookup, insert, remove, has}
use mahiron.Base.Members.{mem}
use mahiron.Ts.TableId
use mahiron.Ts.Packet.{
  Packet, packet_size, transport_error_indicator, is_null, valid_payload_offset, pid,
}
use mahiron.Ts.Section.{Section, table_id, total_length, validate_crc}
use mahiron.Ts.Assembler.{SectionAssembler, new_section_assembler, feed_all}
use mahiron.Ts.Descriptors.{parse_descriptors}
use mahiron.Ts.Pat.{Pat, parse_pat}
use mahiron.Ts.Pmt.{Pmt, PmtElement, parse_pmt}
use mahiron.Ts.SectionSet.{attempt, add, ordered}
use mahiron.Ts.Demux.{
  DemuxProgram, DemuxServiceOutput, Demuxer, PidSection, should_assemble, ca_pids, same_pat,
  rebuild_pat,
}

-- The programs of one section over those of the sections before; the other fields are the last one's.
unfoldable pub merge_programs : Map ℕ → Map ℕ → Map ℕ
merge_programs [] m = m
merge_programs ((service, pmt_pid) ∷ rest) m = merge_programs rest (insert service pmt_pid m)

unfoldable pub combine_next : Pat → Pat → Pat
combine_next combined p = record p { programs = merge_programs p.programs combined.programs }

unfoldable pub combine : Pat → List Section → Result (Option Pat)
combine combined [] = ok (some combined)
combine combined (current ∷ rest) = do
  parsed ← attempt (parse_pat current)
  elim parsed [ none ↦ ok none | some p ↦ combine (combine_next combined p) rest ]

-- The program of a service keeps what it knows unless its PMT moved.
unfoldable pub keep_program : ℕ → Option DemuxProgram → DemuxProgram
keep_program pmt_pid none = record { pmt_pid = pmt_pid; pids = []; section_pids = [] }
keep_program pmt_pid (some program) =
    if program.pmt_pid == pmt_pid
    then program
    else record { pmt_pid = pmt_pid; pids = []; section_pids = [] }

-- The loop over the programs of the combined PAT, with `newByPID`.
unfoldable pub adopt_loop : Bool → Map ℕ → Map ℕ → Demuxer → Result (Map ℕ × Demuxer)
adopt_loop unchanged [] by_pid d = ok (by_pid, d)
adopt_loop unchanged ((service, pmt_pid) ∷ rest) by_pid d =
    let kept : Demuxer = record d {
      programs = insert service (keep_program pmt_pid (lookup service d.programs)) d.programs;
    } in
    do
      d' ← if unchanged then ok kept else rebuild_pat service kept
      adopt_loop unchanged rest (insert pmt_pid service by_pid) d'

-- The entries whose key stands in the other map.
unfoldable pub only_in {ℓ κ} : {A : Type ℓ} {B : Type κ} → Map B → Map A → Map A
only_in other [] = []
only_in other ((k, v) ∷ m) = if has k other then (k, v) ∷ only_in other m else only_in other m

-- `delete` of the services whose program goes.
unfoldable pub drop_services {ℓ} :
    {A : Type ℓ} → Map A → Map ℕ → Map DemuxServiceOutput → Map DemuxServiceOutput
drop_services [] combined services = services
drop_services ((service, program) ∷ rest) combined services =
    drop_services rest combined (if has service combined then services else remove service services)

-- `delete` of the assemblers of PIDs that carry no PMT any more.
unfoldable pub drop_assemblers : Map ℕ → Map ℕ → Map SectionAssembler → Map SectionAssembler
drop_assemblers [] new_by_pid assemblers = assemblers
drop_assemblers ((id, service) ∷ rest) new_by_pid assemblers =
    drop_assemblers rest new_by_pid (if has id new_by_pid then assemblers else remove id assemblers)

-- `observePAT` behind the parsing of all sections.
unfoldable pub adopt : Pat → Demuxer → Result Demuxer
adopt combined d =
    let unchanged = same_pat d.pat combined in
    let noted : Demuxer = record d {
      pat = some combined;
      pat_generation = if unchanged then d.pat_generation else (d.pat_generation + 1) % 2 ^ 64;
    } in
    do
      (new_by_pid, d') ← adopt_loop unchanged combined.programs [] noted
      ok (record d' {
        programs = only_in combined.programs d'.programs;
        services = drop_services d'.programs combined.programs d'.services;
        assemblers = drop_assemblers d'.pmt_by_pid new_by_pid d'.assemblers;
        pmt_by_pid = new_by_pid;
      })

abbrev pub no_pat : Pat
no_pat = record { transport_stream_id = 0; version_number = 0; network_pid = 0; programs = [] }

unfoldable pub observe_pat : Section → Demuxer → Result Demuxer
observe_pat section d = do
  (sections, reset, ready) ← add section d.pat_sections
  let d' : Demuxer = record d { pat_sections = sections; pat = if reset then none else d.pat }
  if not ready then ok d' else (do
    combined ← combine no_pat (ordered sections)
    elim combined [ none ↦ ok d' | some p ↦ adopt p d' ])

-- The PIDs that the sections of a CAT name.
unfoldable pub emm_of : List Section → List ℕ → Result (List ℕ)
emm_of [] pids = ok pids
emm_of (current ∷ rest) pids = do
  total ← total_length current
  bytes ← slice current 8 (total - 4)
  descriptors ← parse_descriptors bytes
  pids' ← ca_pids descriptors pids
  emm_of rest pids'

unfoldable pub observe_cat : Section → Demuxer → Result Demuxer
observe_cat section d = do
  bad ← or_else (ltb (length section) 12) (do
    total ← total_length section
    or_else (ltb (length section) total) (do valid ← validate_crc section; ok (not valid)))
  if bad then ok d else (do
    (sections, reset, ready) ← add section d.cat_sections
    let d' : Demuxer = record d { cat_sections = sections }
    if not ready
        then ok d'
        else (do emm ← emm_of (ordered sections) []; ok (record d' { cat_emm = emm })))

abbrev carries_sections : ℕ → Bool
carries_sections stream_type = stream_type == 0x0b || (stream_type == 0x0d || stream_type == 0x0c)

-- The PIDs of the elements of a PMT, and those that carry sections.
unfoldable pub element_pids : List PmtElement → List ℕ → List ℕ → Result (List ℕ × List ℕ)
element_pids [] pids section_pids = ok (pids, section_pids)
element_pids (e ∷ rest) pids section_pids = do
  pids' ← ca_pids e.descriptors (e.elementary_pid ∷ pids)
  element_pids rest pids'
      (if carries_sections e.stream_type then e.elementary_pid ∷ section_pids else section_pids)

unfoldable pub all_section_pids : Map DemuxProgram → List ℕ
all_section_pids [] = []
all_section_pids ((service, program) ∷ rest) = program.section_pids ++ all_section_pids rest

unfoldable pub drop_unlisted : List ℕ → List ℕ → Map SectionAssembler → Map SectionAssembler
drop_unlisted [] section_pids assemblers = assemblers
drop_unlisted (id ∷ rest) section_pids assemblers =
    drop_unlisted rest section_pids
      (if mem id section_pids then assemblers else remove id assemblers)

unfoldable pub rebuild_section_pids : Demuxer → Demuxer
rebuild_section_pids d =
    let section_pids = all_section_pids d.programs in
    record d {
      assemblers = drop_unlisted d.section_pids section_pids d.assemblers;
      section_pids = section_pids;
    }

-- `observePMT` for a program that is known.
unfoldable pub learn_pmt : ℕ → DemuxProgram → Pmt → Demuxer → Result Demuxer
learn_pmt service program pmt d = do
  pids ← ca_pids pmt.descriptors (if pmt.pcr_pid /= 0x1fff then pmt.pcr_pid ∷ [] else [])
  (pids', section_pids) ← element_pids pmt.elements pids []
  let learnt : DemuxProgram = record program { pids = pids'; section_pids = section_pids }
  ok (rebuild_section_pids (record d { programs = insert service learnt d.programs }))

unfoldable pub observe_pmt : ℕ → Section → Demuxer → Result Demuxer
observe_pmt service section d = do
  parsed ← attempt (parse_pmt section)
  elim parsed [
    | none ↦ ok d
    | some pmt ↦ if pmt.program_number /= service then ok d else elim (lookup service d.programs) [
      | none ↦ ok d
      | some program ↦ learn_pmt service program pmt d
    ]
  ]

-- The switch over the table of a section.
unfoldable pub observe : ℕ → Section → Demuxer → Result Demuxer
observe id section d = do
  table ← table_id section
  if table == TableId.pat
      then (if id == 0x00 then observe_pat section d else ok d)
      else if table == TableId.cat
      then (if id == 0x01 then observe_cat section d else ok d)
      else if table == TableId.pmt
      then elim (lookup id d.pmt_by_pid) [
        | none ↦ ok d
        | some service ↦ observe_pmt service section d
      ]
      else ok d

unfoldable pub observe_all : ℕ → List Section → Demuxer → Result Demuxer
observe_all id [] d = ok d
observe_all id (section ∷ rest) d = do d' ← observe id section d; observe_all id rest d'

-- `len(packet) != PacketSize || packet.TransportErrorIndicator() || packet.IsNull() || …`
unfoldable pub unusable : Packet → Result Bool
unusable p = or_else (length p /= packet_size) (do
  broken ← transport_error_indicator p
  or_else broken (do empty ← is_null p; or_else empty (do v ← valid_payload_offset p; ok (not v))))

abbrev assembler_or_new : ℕ → Option SectionAssembler → SectionAssembler
assembler_or_new id none = new_section_assembler id
assembler_or_new id (some sa) = sa

unfoldable pub with_pid : ℕ → List Section → List PidSection
with_pid id [] = []
with_pid id (section ∷ rest) = record { pid = id; section = section } ∷ with_pid id rest

-- An assembler that was made is kept; `FeedAll` returns no error.
unfoldable pub feed_with_pid : Packet → Demuxer → Result (Demuxer × List PidSection)
feed_with_pid p d = do
  bad ← unusable p
  if bad then ok (d, []) else (do
    id ← pid p
    if not (should_assemble d id) then ok (d, []) else (do
      (sa, sections) ← feed_all (assembler_or_new id (lookup id d.assemblers)) p
      d' ← observe_all id sections (record d { assemblers = insert id sa d.assemblers })
      ok (d', with_pid id sections)))

unfoldable pub sections_of : List PidSection → List Section
sections_of [] = []
sections_of (found ∷ rest) = found.section ∷ sections_of rest

-- `Feed`
unfoldable pub feed_sections : Packet → Demuxer → Result (Demuxer × List Section)
feed_sections p d = do (d', found) ← feed_with_pid p d; ok (d', sections_of found)

unfoldable pub has_service : ℕ → Demuxer → Bool
has_service service d = has service d.programs

unfoldable pub pat_ready : Demuxer → Bool
pat_ready d = elim d.pat [ none ↦ false | some p ↦ true ]
