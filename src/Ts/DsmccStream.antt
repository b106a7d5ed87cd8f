-- ===== src/Ts/DsmccStream.antt =====
-- ts/dsmcc_stream.go: the section that carries DSM-CC stream descriptors, and the two kinds of
-- descriptor that are read from it.
pub mod Events
use mahiron.Base.{
  ℕ, zero, suc, ◌+◌, ◌-◌, ◌*◌, ◌/◌, ◌^◌, Bool, not, ◌||◌, bit_and, bit_or, List, [], ◌∷◌, ◌++◌,
  length, ltb, ◌/=◌, ◌==◌, if◌then◌else◌, Option, none, some,
}
use mahiron.Base.Result.{Result, ok, err, stuck, Error, ◌>>=◌, index, slice, or_else}
use mahiron.Ts.Words.{Bytes, be12_at, be16_at, flag}
use mahiron.Ts.Descriptors.{Descriptor, tag, descriptor_data}
use mahiron.Ts.TableId
use mahiron.Ts.Section.{Section, table_id, section_syntax_indicator, total_length, validate_crc}
use mahiron.Ts.Psi.{version_of}

pub record DsmccStream : Type 0 where
  pub data_event_id : ℕ
  pub event_message_group_id : ℕ
  pub version_number : ℕ
  pub current_next : Bool
  pub section_number : ℕ
  pub last_section_number : ℕ
  pub descriptors : List Descriptor

-- The guard of `ParseDSMCCStream`, which also wants the two bits behind the table_id to be 10.
unfoldable pub stream_rejected : Section → Result Bool
stream_rejected s = or_else (ltb (length s) 12) (do
  id ← table_id s
  or_else (id /= TableId.dsmcc_stream) (do
    syntax ← section_syntax_indicator s
    or_else (not syntax) (do
      b1 ← index s 1
      or_else (flag b1 0x40) (do
        total ← total_length s
        or_else (ltb (length s) total) (do valid ← validate_crc s; ok (not valid))))))

-- `for off := 8; off < end`
unfoldable pub stream_loop : ℕ → Section → ℕ → ℕ → List Descriptor → Result (List Descriptor)
stream_loop zero s end_ off descriptors = stuck
stream_loop (suc fuel) s end_ off descriptors =
    if ltb off end_
    then (do
      bad ← or_else (ltb end_ (off + 2)) (do n ← index s (off + 1); ok (ltb end_ (off + 2 + n)))
      if bad then err Error.invalid_section else (do
        n ← index s (off + 1)
        d ← slice s off (off + 2 + n)
        stream_loop fuel s end_ (off + length d) (descriptors ++ d ∷ [])))
    else ok descriptors

unfoldable pub parse_dsmcc_stream : Section → Result DsmccStream
parse_dsmcc_stream s = do
  bad ← stream_rejected s
  if bad then err Error.invalid_section else (do
    total ← total_length s
    b3 ← index s 3
    group ← be12_at s 3
    b5 ← index s 5
    b6 ← index s 6
    b7 ← index s 7
    descriptors ← stream_loop (suc (length s)) s (total - 4) 8 []
    ok (record {
      data_event_id = b3 / 2 ^ 4;
      event_message_group_id = group;
      version_number = version_of b5;
      current_next = flag b5 1;
      section_number = b6;
      last_section_number = b7;
      descriptors = descriptors;
    }))

pub record DsmccGeneralEvent : Type 0 where
  pub event_message_group_id : ℕ
  pub time_mode : ℕ
  pub time_value : Bytes
  pub event_message_type : ℕ
  pub event_message_id : ℕ
  pub private_data : Bytes

-- `case 0x00, 0x01, 0x02, 0x03, 0x05`: the modes with a time value.
abbrev pub is_timed : ℕ → Bool
is_timed mode = mode == 0x00 || mode == 0x01 || mode == 0x02 || mode == 0x03 || mode == 0x05

-- What follows the time value, at offset `off`.
unfoldable pub general_event : Bytes → ℕ → Bytes → ℕ → Result (Option DsmccGeneralEvent)
general_event payload mode time_value off = do
  b0 ← index payload 0
  b1 ← index payload 1
  kind ← index payload off
  id ← be16_at payload (off + 1)
  private_data ← slice payload (off + 3) (length payload)
  ok (
      some (record {
        event_message_group_id = bit_or (b0 * 2 ^ 4) (b1 / 2 ^ 4);
        time_mode = mode;
        time_value = time_value;
        event_message_type = kind;
        event_message_id = id;
        private_data = private_data;
      }))

unfoldable pub parse_dsmcc_general_event : Descriptor → Result (Option DsmccGeneralEvent)
parse_dsmcc_general_event d = do
  payload ← descriptor_data d
  t ← tag d
  if t /= 0x40 || ltb (length payload) 6 then ok none else (do
    mode ← index payload 2
    if is_timed mode
        then (if ltb (length payload) (3 + 8) then ok none else (do
          time_value ← slice payload 3 (3 + 5)
          general_event payload mode time_value (3 + 5)))
        else general_event payload mode [] 3)

pub record DsmccNptReference : Type 0 where
  pub post_discontinuity_indicator : Bool
  pub dsm_content_id : ℕ
  pub stc_reference : ℕ
  pub npt_reference : ℕ
  pub scale_numerator : ℕ
  pub scale_denominator : ℕ

-- `uint64(data[i]&1)<<32 | uint64(binary.BigEndian.Uint32(...))` of the byte `i` and the 32 bits at `j`.
unfoldable pub clock_at : Bytes → ℕ → ℕ → Result ℕ
clock_at b i j = do
  high ← index b i
  hi ← be16_at b j
  lo ← be16_at b (j + 2)
  ok (bit_and high 1 * 2 ^ 32 + (hi * 2 ^ 16 + lo))

-- The two scales are int16 in the source; here they are the 16 bits.
unfoldable pub parse_dsmcc_npt_reference : Descriptor → Result (Option DsmccNptReference)
parse_dsmcc_npt_reference d = do
  payload ← descriptor_data d
  t ← tag d
  if t /= 0x17 || ltb (length payload) 18 then ok none else (do
    b0 ← index payload 0
    stc ← clock_at payload 1 2
    npt ← clock_at payload 9 10
    numerator ← be16_at payload 14
    denominator ← be16_at payload 16
    ok (
        some (record {
          post_discontinuity_indicator = flag b0 0x80;
          dsm_content_id = bit_and b0 0x7f;
          stc_reference = stc;
          npt_reference = npt;
          scale_numerator = numerator;
          scale_denominator = denominator;
        })))

unfoldable pub event_message_npt : DsmccGeneralEvent → Result (Option ℕ)
event_message_npt e =
    if e.time_mode /= 0x02 || length e.time_value /= 5
    then ok none
    else (do npt ← clock_at e.time_value 0 1; ok (some npt))
