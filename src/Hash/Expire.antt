-- ===== src/Hash/Expire.antt =====
-- `mtype_expire`, `mtype_ext_cleanup`, `mtype_flush` and `mtype_gc`
-- (kernel/net/netfilter/dset/domain_set_hash_gen.h).
use dset.Ext.{Extensions, timeout_expired}
use dset.Hash.Defs.{Slot, HBucket, HSet, Account, account, ahash_init_size}
use dset.Hash.Slots.{bucket_bytes, compact, count_unused, clear_slot}
use dset.Kernel.{Kernel}
use dset.Prelude.{
  ℕ, suc, Bool, ◌&&◌, Option, none, some, List, [], ◌∷◌, if◌then◌else◌, leb, map, sub64,
}

module _ {E : Type 0} (k : Kernel) where
  -- the body of the first loop over a bucket: an expired element is cleared. (The code tests no
  -- extension bit here: it runs on sets with timeouts only.)
  unfoldable pub expire_slot : Extensions → Slot E → Account → Slot E × Account
  expire_slot exts x a =
      if x.used && timeout_expired k x.ext.timeout then clear_slot k exts x a else (x, a)

  unfoldable pub expire_slots : Extensions → List (Slot E) → Account → List (Slot E) × Account
  expire_slots exts [] a = ([], a)
  expire_slots exts (x ∷ xs) a =
      let (x', a') = expire_slot exts x a in
      let (xs', a'') = expire_slots exts xs a' in (x' ∷ xs', a'')

  -- what happens to the bucket after the loop: dropped, shrunk, or left; `alloc` tells whether
  -- `kzalloc` succeeds. `d`, the positions found or made free, is `count_unused`.
  unfoldable pub expire_shrink : ℕ → Bool → HBucket E → Account → Option (HBucket E) × Account
  expire_shrink dsize alloc n a =
      let d = count_unused n.slots in
      if leb ahash_init_size d
      then if leb n.size d
        then (none, record a { ext_size = sub64 a.ext_size (bucket_bytes k n.size dsize) })
        else if alloc
        then (
          some (compact n),
          record a { ext_size = sub64 a.ext_size (bucket_bytes k ahash_init_size dsize) },
        )
        else (some n, a)
      else (some n, a)

  unfoldable pub expire_bucket :
      Extensions → ℕ → Bool → Option (HBucket E) → Account → Option (HBucket E) × Account
  unfolding expire_shrink
  expire_bucket exts dsize alloc none a = (none, a)
  expire_bucket exts dsize alloc (some n) a =
      let (slots, a') = expire_slots exts n.slots a in
      expire_shrink dsize alloc (record n { slots = slots }) a'

  -- the loop over the buckets from index `i` on; `alloc i` is the answer for bucket `i`
  unfoldable pub expire_from :
      Extensions
      → ℕ
      → (ℕ → Bool)
      → ℕ
      → List (Option (HBucket E))
      → Account
      → List (Option (HBucket E)) × Account
  expire_from exts dsize alloc i [] a = ([], a)
  expire_from exts dsize alloc i (b ∷ bs) a =
      let (b', a') = expire_bucket exts dsize (alloc i) b a in
      let (bs', a'') = expire_from exts dsize alloc (suc i) bs a' in (b' ∷ bs', a'')

  -- `mtype_expire`; `mtype_gc` is this call under the set's lock, and arms the timer again
  unfoldable pub expire : (ℕ → Bool) → HSet E → HSet E
  expire alloc s =
      let (bs, a) = expire_from s.exts s.dsize alloc 0 s.buckets (account s) in
      record s { buckets = bs; elements = a.elements; ext_size = a.ext_size }

  -- `mtype_flush`: every bucket is freed (with its extensions) and its pointer cleared
  unfoldable pub flush : HSet E → HSet E
  flush s = record s { buckets = map (λ _. none) s.buckets; elements = 0; ext_size = 0 }
