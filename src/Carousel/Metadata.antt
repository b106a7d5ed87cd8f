-- ===== src/Carousel/Metadata.antt =====
-- ts/dsmcc_module_info.go: the descriptors in the info bytes of a module.
use mahiron.Base.{
  ℕ, zero, suc, ◌+◌, ◌<◌, ◌≤◌, [], length, ltb, leb, ◌==◌, if◌then◌else◌, Option, none, some, arith,
}
use mahiron.Base.Result.{
  Result, ok, stuck, ◌>>=◌, index, slice, Ends, value, Returns-bind, index-Ends, slice-Ends,
  otherwise,
}
use mahiron.Ts.Words.{Bytes, be16_at-Ends}
use mahiron.Carousel.Messages.{be32_at}

pub record Metadata : Type 0 where
  pub kind : Bytes
  pub name : Bytes
  pub crc32 : Option ℕ
  pub estimated_download_seconds : Option ℕ
  pub caching_priority : Option ℕ
  pub expire : Option (ℕ × Bytes)
  pub activation : Option (ℕ × Bytes)
  pub compression : Option (ℕ × ℕ)

abbrev pub no_metadata : Metadata
no_metadata = record {
  kind = [];
  name = [];
  crc32 = none;
  estimated_download_seconds = none;
  caching_priority = none;
  expire = none;
  activation = none;
  compression = none;
}

-- A value of four bytes, and a mode with what follows it.
unfoldable pub word_of : Bytes → Result (Option ℕ)
word_of b = if length b == 4 then (do n ← be32_at b 0; ok (some n)) else ok none

unfoldable pub mode_of : Bytes → Result (Option (ℕ × Bytes))
mode_of b =
    if leb 1 (length b)
    then (do mode ← index b 0; rest ← slice b 1 (length b); ok (some (mode, rest)))
    else ok none

unfoldable pub compression_of : Bytes → Result (Option (ℕ × ℕ))
compression_of b =
    if length b == 5
    then (do kind ← index b 0; size ← be32_at b 1; ok (some (kind, size)))
    else ok none

-- What a descriptor of another length leaves as it is.
abbrev or_kept {ℓ} : {A : Type ℓ} → Option A → Option A → Option A
or_kept none old = old
or_kept (some new) old = some new

-- The `switch` on the tag; an unknown tag changes nothing.
unfoldable pub note : ℕ → Bytes → Metadata → Result Metadata
note tag b m =
    if tag == 0x01
    then ok (record m { kind = b })
    else if tag == 0x02
    then ok (record m { name = b })
    else if tag == 0x05
    then (do n ← word_of b; ok (record m { crc32 = or_kept n m.crc32 }))
    else if tag == 0x07
    then (do
      n ← word_of b
      ok (record m { estimated_download_seconds = or_kept n m.estimated_download_seconds }))
    else if tag == 0x71
    then (if leb 1 (length b)
        then (do n ← index b 0; ok (record m { caching_priority = some n }))
        else ok m)
    else if tag == 0xc0
    then (do e ← mode_of b; ok (record m { expire = or_kept e m.expire }))
    else if tag == 0xc1
    then (do e ← mode_of b; ok (record m { activation = or_kept e m.activation }))
    else if tag == 0xc2
    then (do c ← compression_of b; ok (record m { compression = or_kept c m.compression }))
    else ok m

-- `for off := 0; off < len(m.Info)`; `none` is the result `false` of a malformed loop.
unfoldable pub metadata_loop : ℕ → Bytes → ℕ → Metadata → Result (Option Metadata)
metadata_loop zero info off m = stuck
metadata_loop (suc fuel) info off m =
    if ltb off (length info)
    then (if ltb (length info) (off + 2) then ok none else (do
      tag ← index info off
      size ← index info (off + 1)
      if ltb (length info) (off + 2 + size) then ok none else (do
        b ← slice info (off + 2) (off + 2 + size)
        m' ← note tag b m
        metadata_loop fuel info (off + 2 + size) m')))
    else ok (some m)

unfoldable pub metadata : Bytes → Result (Option Metadata)
metadata info = metadata_loop (suc (length info)) info 0 no_metadata

be32_at-Ends : (b : Bytes) (i : ℕ) → i + 3 < length b → Ends (be32_at b i)
unfolding be32_at
be32_at-Ends b i h =
    Returns-bind (be16_at-Ends b i (omega arith))
      λ hi _. Returns-bind (be16_at-Ends b (i + 2) (omega arith)) λ lo _. value tt

word_of-Ends : (b : Bytes) → Ends (word_of b)
unfolding word_of
word_of-Ends b =
    otherwise (length b == 4)
      (λ four. Returns-bind (be32_at-Ends b 0 (ground arith)) λ n _. value tt) (λ _. value tt)

mode_of-Ends : (b : Bytes) → Ends (mode_of b)
unfolding mode_of
mode_of-Ends b =
    otherwise (leb 1 (length b))
      (λ one. Returns-bind (index-Ends b 0 (ground arith)) λ n _.
        Returns-bind (slice-Ends b 1 (length b) (ground arith) (omega arith)) λ rest _. value tt)
      (λ _. value tt)

compression_of-Ends : (b : Bytes) → Ends (compression_of b)
unfolding compression_of
compression_of-Ends b =
    otherwise (length b == 5)
      (λ five.
        Returns-bind (index-Ends b 0 (ground arith))
          λ n _. Returns-bind (be32_at-Ends b 1 (ground arith)) λ size _. value tt)
      (λ _. value tt)

note-Ends : (tag : ℕ) (b : Bytes) (m : Metadata) → Ends (note tag b m)
unfolding note
note-Ends tag b m =
    otherwise (tag == 0x01) (λ _. value tt)
      λ _.
        otherwise (tag == 0x02) (λ _. value tt)
          λ _.
            otherwise (tag == 0x05) (λ _. Returns-bind (word_of-Ends b) λ n _. value tt)
              λ _.
                otherwise (tag == 0x07) (λ _. Returns-bind (word_of-Ends b) λ n _. value tt)
                  λ _.
                    otherwise (tag == 0x71)
                      (λ _.
                        otherwise (leb 1 (length b))
                          (λ one. Returns-bind (index-Ends b 0 (ground arith)) λ n _. value tt)
                          (λ _. value tt))
                      λ _.
                        otherwise (tag == 0xc0) (λ _. Returns-bind (mode_of-Ends b) λ e _. value tt)
                          λ _.
                            otherwise (tag == 0xc1)
                              (λ _. Returns-bind (mode_of-Ends b) λ e _. value tt)
                              λ _.
                                otherwise (tag == 0xc2)
                                  (λ _. Returns-bind (compression_of-Ends b) λ c _. value tt)
                                  (λ _. value tt)

metadata_loop-Ends :
    (fuel : ℕ) (info : Bytes) (off : ℕ) (m : Metadata)
    → 1 ≤ fuel
    → length info < off + fuel
    → Ends (metadata_loop fuel info off m)
unfolding metadata_loop
metadata_loop-Ends zero info off m h k = elim h [ ]
metadata_loop-Ends (suc fuel) info off m h k =
    otherwise (ltb off (length info))
      (λ more.
        otherwise (ltb (length info) (off + 2)) (λ _. value tt)
          λ two.
            let inside : off + 2 ≤ length info = ground arith in
            Returns-bind (index-Ends info off (omega arith)) λ tag _.
              Returns-bind (index-Ends info (off + 1) (omega arith)) λ size _.
                otherwise (ltb (length info) (off + 2 + size)) (λ _. value tt)
                  λ fits.
                    let within : off + 2 + size ≤ length info = ground arith in
                    Returns-bind (slice-Ends info (off + 2) (off + 2 + size) (omega arith) within)
                      λ b _. Returns-bind (note-Ends tag b m) λ m' _.
                        metadata_loop-Ends fuel info (off + 2 + size) m' (omega arith)
                          (omega arith))
      (λ _. value tt)

-- `Metadata` returns on every byte string: its loop ends and no index or slice is out of range.
pub metadata-Ends : (info : Bytes) → Ends (metadata info)
unfolding metadata
metadata-Ends info =
    metadata_loop-Ends (suc (length info)) info 0 no_metadata (omega arith) (omega arith)
