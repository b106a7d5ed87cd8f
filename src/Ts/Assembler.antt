-- ===== src/Ts/Assembler.antt =====
-- ts/section.go: `SectionAssembler`, which joins the sections of one PID from its packets.
-- A method returns the new assembler beside its result. The error of the Go methods is always nil.
pub mod Sound
pub mod Single
use mahiron.Base.{
  ℕ, zero, suc, ◌+◌, ◌*◌, ◌/◌, ◌%◌, ◌^◌, Bool, true, false, not, ◌&&◌, ◌||◌, bit_and, List, [], ◌∷◌,
  ◌++◌, length, ltb, leb, ◌==◌, ◌/=◌, if◌then◌else◌, Option, none, some,
}
use mahiron.Base.Result.{Result, ok, stuck, ◌>>=◌, index, slice, or_else}
use mahiron.Ts.Words.{Bytes, be12_at}
use mahiron.Ts.Packet.{
  Packet, transport_error_indicator, payload_unit_start_indicator, pid, has_payload,
  continuity_counter, payload,
}
use mahiron.Ts.Section.{Section, validate_crc}

pub record SectionAssembler : Type 0 where
  pub pid : ℕ
  pub buffer : Bytes
  pub last_counter : ℕ
  pub expecting : Bool
  pub pending : List Section

abbrev pub new_section_assembler : ℕ → SectionAssembler
new_section_assembler id = record {
  pid = id;
  buffer = [];
  last_counter = 0;
  expecting = false;
  pending = [];
}

-- `3 + int(uint16(b[1]&0x0f)<<8|uint16(b[2]))`
unfoldable pub total_of : Bytes → Result ℕ
total_of b = do n ← be12_at b 1; ok (3 + n)

-- The section that is cut off, if its checksum is right.
unfoldable pub keep_valid : List Section → Section → Result (List Section)
keep_valid sections section = do
  valid ← validate_crc section
  ok (if valid then sections ++ section ∷ [] else sections)

-- The loop of `consumePayload`, with the sections found so far.
unfoldable pub consume_loop :
    ℕ → SectionAssembler → List Section → Bytes → Result (SectionAssembler × List Section)
consume_loop zero sa sections payload = stuck
consume_loop (suc fuel) sa sections payload =
    if ltb (length payload) 3 then ok (sa, sections) else (do
      id ← index payload 0
      if id == 0xff then ok (sa, sections) else (do
        total ← total_of payload
        if ltb total 3
            then ok (sa, sections)
            else if ltb (length payload) total
            then ok (record sa { buffer = payload; expecting = true }, sections)
            else (do
              section ← slice payload 0 total
              sections' ← keep_valid sections section
              rest ← slice payload total (length payload)
              consume_loop fuel sa sections' rest)))

-- Each round takes three bytes at least.
unfoldable pub consume_payload : SectionAssembler → Bytes → Result (SectionAssembler × List Section)
consume_payload sa payload = consume_loop (suc (length payload)) sa [] payload

-- The end of `completeSections`: `if len(sa.buffer) == 0 { sa.expecting = false }`.
abbrev pub settle : SectionAssembler → SectionAssembler
settle sa = record sa { expecting = if length sa.buffer == 0 then false else sa.expecting }

unfoldable pub complete_loop :
    ℕ → Bool → SectionAssembler → List Section → Result (SectionAssembler × List Section)
complete_loop zero keep_remainder sa sections = stuck
complete_loop (suc fuel) keep_remainder sa sections =
    if ltb (length sa.buffer) 3 then ok (settle sa, sections) else (do
      total ← total_of sa.buffer
      if ltb (length sa.buffer) total then ok (record sa { expecting = true }, sections) else (do
        section ← slice sa.buffer 0 total
        sections' ← keep_valid sections section
        rest ← slice sa.buffer total (length sa.buffer)
        if not keep_remainder && length rest == 0
            then ok (settle (record sa { buffer = rest }), sections')
            else complete_loop fuel keep_remainder (record sa { buffer = rest }) sections'))

unfoldable pub complete_sections :
    Bool → SectionAssembler → Result (SectionAssembler × List Section)
complete_sections keep_remainder sa = complete_loop (suc (length sa.buffer)) keep_remainder sa []

abbrev pub reset : SectionAssembler → SectionAssembler
reset sa = record sa { buffer = []; expecting = false }

-- A packet in which a section starts: the bytes before the pointer end the section at hand.
unfoldable pub start_unit : SectionAssembler → Bytes → Result (SectionAssembler × List Section)
start_unit sa payload = do
  pointer ← index payload 0
  payload' ← slice payload 1 (length payload)
  if ltb (length payload') pointer then ok (reset sa, []) else (do
    head ← slice payload' 0 pointer
    (sa', sections) ←
        if ltb 0 (length sa.buffer) && ltb 0 pointer
        then complete_sections false (record sa { buffer = sa.buffer ++ head })
        else ok (sa, [])
    rest ← slice payload' pointer (length payload')
    (sa'', more) ← consume_payload (reset sa') rest
    ok (sa'', sections ++ more))

-- A packet that carries a section on.
unfoldable pub continue_unit : SectionAssembler → Bytes → Result (SectionAssembler × List Section)
continue_unit sa payload =
    if not sa.expecting
    then ok (sa, [])
    else complete_sections false (record sa { buffer = sa.buffer ++ payload })

-- `FeedAll` behind its guards, for a payload that is not empty.
unfoldable pub feed_payload :
    SectionAssembler → ℕ → Bool → Bytes → Result (SectionAssembler × List Section)
feed_payload sa counter starts payload =
    let lost = sa.expecting && counter /= bit_and (sa.last_counter + 1) 0x0f in
    let sa' = record (if lost then reset sa else sa) { last_counter = counter } in
    if starts then start_unit sa' payload else continue_unit sa' payload

unfoldable pub feed_all : SectionAssembler → Packet → Result (SectionAssembler × List Section)
feed_all sa p = do
  id ← pid p
  other ← or_else (id /= sa.pid) (do
    broken ← transport_error_indicator p
    or_else broken (do has ← has_payload p; ok (not has)))
  if other then ok (sa, []) else (do
    bytes ← payload p
    if length bytes == 0 then ok (sa, []) else (do
      counter ← continuity_counter p
      starts ← payload_unit_start_indicator p
      feed_payload sa counter starts bytes))

-- `Feed`: a section that waits in `pending` is returned first, and the packet is then not read.
unfoldable pub deliver : SectionAssembler → List Section → SectionAssembler × Option Section
deliver sa [] = (sa, none)
deliver sa (s ∷ rest) = (record sa { pending = sa.pending ++ rest }, some s)

unfoldable pub feed_pending :
    SectionAssembler → List Section → Packet → Result (SectionAssembler × Option Section)
feed_pending sa (s ∷ rest) p = ok (record sa { pending = rest }, some s)
feed_pending sa [] p = do (sa', sections) ← feed_all sa p; ok (deliver sa' sections)

unfoldable pub feed : SectionAssembler → Packet → Result (SectionAssembler × Option Section)
unfolding feed_pending deliver
feed sa p = feed_pending sa sa.pending p
