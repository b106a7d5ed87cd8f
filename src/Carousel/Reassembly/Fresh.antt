-- ===== src/Carousel/Reassembly/Fresh.antt =====
-- The state that a DII allocates for a module holds a part of any payload of the announced size: none.
use mahiron.Base.{
  ℕ, zero, suc, ◌+◌, ◌-◌, ◌*◌, ◌/◌, ◌%◌, ◌^◌, ◌<◌, ◌≤◌, ◌≡◌, refl, ◌∙◌, false, length, arith,
  get_or, replicate, length-replicate,
}
use native.Mathlib.Nat.{mod-add-div', mod-lt}
use mahiron.Carousel.{Dii, ModuleInfo, fresh_state, block_count}
use mahiron.Carousel.Budget.{marked}
use mahiron.Carousel.Reassembly.Run.{Source, Awaits}

marked-replicate : (n : ℕ) → marked (replicate n false) ≡ 0
marked-replicate zero = refl
marked-replicate (suc n) = omega (arith, marked-replicate n)

get_or-replicate : (n i : ℕ) → get_or (replicate n false) i false ≡ false
get_or-replicate zero i = refl
get_or-replicate (suc n) zero = refl
get_or-replicate (suc n) (suc i) = get_or-replicate n i

block_count-covers :
    (size block_size : ℕ)
    → 0 < block_size
    → size + block_size ≤ 2 ^ 32
    → size ≤ block_count size block_size * block_size
unfolding block_count
block_count-covers size block_size p h =
    let n : ℕ = (size + block_size + 2 ^ 32 - 1) % 2 ^ 32 in
    let e : n ≡ size + block_size - 1 = omega arith in
    let parts : n % block_size + n / block_size * block_size ≡ n = mod-add-div' n block_size in
    let small : n % block_size < block_size = mod-lt n p in omega arith

-- The state of a module that a DII announces with the source's sizes, for sizes whose sum is 32 bits.
pub fresh_state-Awaits :
    (src : Source) (dii : Dii) (item : ModuleInfo) (generation : ℕ)
    → dii.download_id ≡ src.download_id
    → dii.block_size ≡ src.block_size
    → item.version ≡ src.version
    → item.module_size ≡ length src.payload
    → 0 < src.block_size
    → length src.payload + src.block_size ≤ 2 ^ 32
    → Awaits src (fresh_state dii item generation)
unfolding fresh_state
fresh_state-Awaits src dii item generation d b v m p h = record {
  part = record {
    sized = length-replicate item.module_size 0 ∙ m;
    covers =
        rw (length-replicate (block_count item.module_size dii.block_size) false)
          (rw b (rw m (block_count-covers (length src.payload) src.block_size p h)));
    counted = marked-replicate (block_count item.module_size dii.block_size);
    right = λ n j small inside hit.
        let e = get_or-replicate (block_count item.module_size dii.block_size) n in cc;
  };
  same_size = b;
  positive = rw b p;
  same_download = d;
  same_version = v;
}
