-- ===== src/Hash/Del.antt =====
-- `mtype_del` (kernel/net/netfilter/dset/domain_set_hash_gen.h).
use dset.Hash.Defs.{MType, Slot, HBucket, HSet, Account, account, ahash_init_size, hkey, bucket_at}
use dset.Hash.Slots.{bucket_bytes, compact, count_unused, slot_expired, clear_slot}
use dset.Kernel.{Kernel}
use dset.Prelude.{
  ℕ, suc, ◌+◌, Bool, ◌&&◌, Option, none, some, List, [], ◌∷◌, if◌then◌else◌, leb, ◌==◌, length, set,
  take, sub64,
}
use dset.Uapi.{Status, ok, err, exist}

module _ {E : Type 0} (m : MType E) where
  -- the loop up to the first used position with an equal element
  unfoldable pub find_slot : E → ℕ → List (Slot E) → Option (ℕ × Slot E)
  find_slot d i [] = none
  find_slot d i (x ∷ xs) =
      let rest = find_slot d (suc i) xs in
      if x.used && m.data_equal x.elem d then some (i, x) else rest

module _ {E : Type 0} where
  -- `if (i + 1 == n->pos) n->pos--`, after the bit is cleared: `x` is the cleared slot
  unfoldable pub remove_slot : HBucket E → ℕ → Slot E → HBucket E
  remove_slot n i x =
      if i + 1 == length n.slots
      then record n { slots = take i n.slots; spare = x.ext ∷ n.spare }
      else record n { slots = set n.slots i x }

module _ {E : Type 0} (k : Kernel) where
  -- the bucket is freed, shrunk, or left; `k` of the code is `count_unused`
  unfoldable pub del_shrink : ℕ → Bool → HBucket E → Account → Option (HBucket E) × Account
  del_shrink dsize alloc n a =
      let free = count_unused n.slots in
      if length n.slots == 0 && free == 0
      then (none, record a { ext_size = sub64 a.ext_size (bucket_bytes k n.size dsize) })
      else if leb ahash_init_size free && alloc
      then (
        some (compact n),
        record a { ext_size = sub64 a.ext_size (bucket_bytes k ahash_init_size dsize) },
      )
      else (some n, a)

  unfoldable pub del_found : HSet E → ℕ → Bool → HBucket E → ℕ → Slot E → Status × HSet E
  unfolding del_shrink remove_slot
  del_found s key alloc n i x =
      if slot_expired k s.exts x
      then (err exist, s)
      else let (x', a) = clear_slot k s.exts x (account s) in
        let (b, a') = del_shrink s.dsize alloc (remove_slot n i x') a in
        (
          ok,
          record s {
            elements = a'.elements;
            ext_size = a'.ext_size;
            buckets = set s.buckets key b;
          },
        )

module _ {E : Type 0} (m : MType E) (k : Kernel) where
  unfoldable pub del_at : HSet E → ℕ → Bool → E → Option (HBucket E) → Status × HSet E
  unfolding del_found
  del_at s key alloc d none = (err exist, s)
  del_at s key alloc d (some n) = elim (find_slot m d 0 n.slots) [
    | none ↦ (err exist, s)
    | some (i, x) ↦ del_found k s key alloc n i x
  ]

  -- `alloc` is the answer of the one `kzalloc`
  unfoldable pub del : HSet E → Bool → E → Status × HSet E
  unfolding del_at
  del s alloc d =
      let key = hkey m d s.initval s.htable_bits in del_at s key alloc d (bucket_at s.buckets key)
