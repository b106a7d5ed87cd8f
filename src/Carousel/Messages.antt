-- ===== src/Carousel/Messages.antt =====
-- ts/logo_common.go: the parsers of the two DSM-CC messages, DownloadInfoIndication (DII) and
-- DownloadDataBlock (DDB), out of their sections.
pub mod Total
use mahiron.Base.{
  ℕ, zero, suc, ◌+◌, ◌-◌, ◌*◌, ◌^◌, ◌<◌, ◌≤◌, ◌≡◌, refl, Bool, ◌||◌, List, [], ◌∷◌, ◌++◌, length,
  ltb, ◌==◌, ◌/=◌, if◌then◌else◌,
}
use mahiron.Base.Result.{Result, ok, err, Error, ◌>>=◌, index, slice, or_else}
use mahiron.Ts.Words.{Bytes, be16_at}
use mahiron.Ts.Section.{Section, total_length}
use mahiron.Ts.TableId
use mahiron.Ts.Psi.{rejected}
use mahiron.Carousel.{ModuleInfo, Dii, Ddb}

-- `binary.BigEndian.Uint32(s[i:i+4])`
unfoldable pub be32_at : Bytes → ℕ → Result ℕ
be32_at s i = do hi ← be16_at s i; lo ← be16_at s (i + 2); ok (hi * 2 ^ 16 + lo)

-- The bytes of the message in a section, `message[off : off+messageLen]`. The end that the source
-- compares with 20 may be negative; 0 stands for it here.
unfoldable pub message_payload : Bytes → ℕ → Result Bytes
message_payload message message_id = do
  bad ← or_else (ltb (length message) 12) (do
    b0 ← index message 0
    b1 ← index message 1
    or_else (b0 /= 0x11 || b1 /= 0x03) (do id ← be16_at message 2; ok (id /= message_id)))
  if bad then err Error.invalid_section else (do
    adaptation_len ← index message 9
    message_len ← be16_at message 10
    let off = 12 + adaptation_len in
        if ltb (length message) off || ltb (length message) (off + message_len)
        then err Error.invalid_section
        else slice message off (off + message_len))

unfoldable pub dsmcc_message_body : Section → ℕ → Result Bytes
dsmcc_message_body s message_id = do
  total ← total_length s
  if ltb (total - 4) 20
      then err Error.invalid_section
      else (do message ← slice s 8 (total - 4); message_payload message message_id)

-- `for i := 0; i < moduleCount; i++`, with the offset behind the last module.
unfoldable pub modules_loop : ℕ → Bytes → ℕ → List ModuleInfo → Result (ℕ × List ModuleInfo)
modules_loop zero body off modules = ok (off, modules)
modules_loop (suc count) body off modules =
    if ltb (length body) (off + 8) then err Error.invalid_section else (do
      module_id ← be16_at body off
      module_size ← be32_at body (off + 2)
      version ← index body (off + 6)
      info_len ← index body (off + 7)
      if ltb (length body) (off + 8 + info_len) then err Error.invalid_section else (do
        info ← slice body (off + 8) (off + 8 + info_len)
        modules_loop count body (off + 8 + info_len) (
            modules
            ++ record {
              module_id = module_id;
              module_size = module_size;
              version = version;
              info = info;
            }
              ∷ [])))

-- The private data behind the modules; what is no valid length there is passed over.
unfoldable pub private_part : Bytes → ℕ → Result Bytes
private_part body off = if off == length body || ltb (length body) (off + 2) then ok [] else (do
  private_len ← be16_at body off
  if ltb (length body) (off + 2 + private_len)
      then ok []
      else slice body (off + 2) (off + 2 + private_len))

-- The body of a DII message, which has at least 18 bytes.
unfoldable pub dii_of : Bytes → Result Dii
dii_of body = do
  download_id ← be32_at body 0
  block_size ← be16_at body 4
  compat_len ← be16_at body 16
  let off = 18 + compat_len in
      if off == length body
      then ok (record {
        download_id = download_id;
        block_size = block_size;
        modules = [];
        private_data = [];
      })
      else if ltb (length body) (off + 2)
      then err Error.invalid_section
      else (do
        count ← be16_at body off
        found ← modules_loop count body (off + 2) []
        private_data ← private_part body found.0
        ok (record {
          download_id = download_id;
          block_size = block_size;
          modules = found.1;
          private_data = private_data;
        }))

unfoldable pub parse_dii : Section → Result Dii
parse_dii s = do
  bad ← rejected 23 (λ id. id /= TableId.dsmcc_dii) s
  if bad then err Error.invalid_section else (do
    body ← dsmcc_message_body s 0x1002
    if ltb (length body) 18 then err Error.invalid_section else dii_of body)

-- The body of a DDB message with the section's download id.
unfoldable pub ddb_of : Section → Bytes → Result Ddb
ddb_of s body = do
  download_id ← be32_at s 12
  module_id ← be16_at body 0
  module_version ← index body 2
  block_number ← be16_at body 4
  bytes ← slice body 6 (length body)
  ok (record {
    download_id = download_id;
    module_id = module_id;
    module_version = module_version;
    block_number = block_number;
    bytes = bytes;
  })

unfoldable pub parse_ddb : Section → Result Ddb
parse_ddb s = do
  bad ← rejected 25 (λ id. id /= TableId.dsmcc_ddb) s
  if bad then err Error.invalid_section else (do
    body ← dsmcc_message_body s 0x1003
    if ltb (length body) 6 then err Error.invalid_section else ddb_of s body)
