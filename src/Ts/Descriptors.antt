-- ===== src/Ts/Descriptors.antt =====
-- ts/descriptors.go and ts/nit.go: descriptor loops, read leniently (`ParseDescriptors` stops at
-- what is cut off) and strictly (`parseDescriptorsStrict` fails there).
pub mod Bodies
pub mod Loops
use mahiron.Base.{ℕ, zero, suc, ◌+◌, List, [], ◌∷◌, ◌++◌, length, ltb, ◌==◌, if◌then◌else◌}
use mahiron.Base.Result.{Result, ok, err, stuck, Error, ◌>>=◌, index, slice}
use mahiron.Ts.Words.{Bytes}

abbrev pub Descriptor : Type 0
Descriptor = Bytes

unfoldable pub tag : Descriptor → Result ℕ
tag d = index d 0

unfoldable pub descriptor_length : Descriptor → Result ℕ
descriptor_length d = index d 1

unfoldable pub descriptor_data : Descriptor → Result Bytes
descriptor_data d = do n ← descriptor_length d; slice d 2 (2 + n)

unfoldable pub descriptors_loop : ℕ → List Descriptor → Bytes → Result (List Descriptor)
descriptors_loop zero descriptors b = stuck
descriptors_loop (suc fuel) descriptors b = if ltb (length b) 2 then ok descriptors else (do
  n ← index b 1
  if ltb (length b) (2 + n) then ok descriptors else (do
    d ← slice b 0 (2 + n)
    rest ← slice b (2 + n) (length b)
    descriptors_loop fuel (descriptors ++ d ∷ []) rest))

-- Each round takes two bytes at least.
unfoldable pub parse_descriptors : Bytes → Result (List Descriptor)
parse_descriptors b = descriptors_loop (suc (length b)) [] b

unfoldable pub strict_loop : ℕ → List Descriptor → Bytes → Result (List Descriptor)
strict_loop zero descriptors b = stuck
strict_loop (suc fuel) descriptors b =
    if length b == 0
    then ok descriptors
    else if ltb (length b) 2
    then err Error.invalid_section
    else (do
      n ← index b 1
      if ltb (length b) (2 + n) then err Error.invalid_section else (do
        d ← slice b 0 (2 + n)
        rest ← slice b (2 + n) (length b)
        strict_loop fuel (descriptors ++ d ∷ []) rest))

unfoldable pub parse_descriptors_strict : Bytes → Result (List Descriptor)
parse_descriptors_strict b = strict_loop (suc (length b)) [] b

-- `descriptorsLength`, ts/bit.go.
unfoldable pub descriptors_length : List Descriptor → ℕ
descriptors_length [] = 0
descriptors_length (d ∷ ds) = length d + descriptors_length ds
