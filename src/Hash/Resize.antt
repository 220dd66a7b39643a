-- ===== src/Hash/Resize.antt =====
-- `mtype_resize` (kernel/net/netfilter/dset/domain_set_hash_gen.h). The lock is held while the
-- elements are copied; readers see the old table or the new one.
use dset.Ext.{zero_ext}
use dset.Hash.Defs.{
  MType, Slot, HBucket, HSet, ahash_init_size, ahash_max, jhash_size, hkey, bucket_at,
}
use dset.Hash.Slots.{bucket_bytes, enlarge}
use dset.Hash.Table.{htable_size}
use dset.Kernel.{Kernel}
use dset.Prelude.{
  ◌^◌, ℕ, zero, suc, ◌+◌, ◌%◌, Bool, Option, none, some, List, [], ◌∷◌, ◌++◌, if◌then◌else◌, leb,
  ◌==◌, length, drop, replicate, set, add64,
}
use dset.Uapi.{Errno, Status, ok, err, fault, out_of_bounds}

-- the answers of `domain_set_alloc` for a table of 2 ^ n buckets, and of `kzalloc` for the bucket
-- of the n-th position that is visited in that attempt
pub record ResizeMemory : Type 0 where
  pub table : ℕ → Bool
  pub bucket : ℕ → ℕ → Bool

-- a part of the copying loop: it goes on with the new table, `extsize` and the number of positions
-- visited, or leaves with -ENOMEM or -EAGAIN
pub data Copied (E : Type 0) : Type 0 where
  copied : List (Option (HBucket E)) → ℕ → ℕ → Copied E
  stopped : Errno → Copied E

module _ {E : Type 0} where
  -- `memcpy(d, data, dsize)` and `set_bit(m->pos++, m->used)`
  unfoldable pub push_slot : Slot E → HBucket E → HBucket E
  push_slot x n = record n { slots = n.slots ++ (x ∷ []); spare = drop 1 n.spare }

  abbrev pub fresh_bucket : HBucket E
  fresh_bucket = record {
    size = ahash_init_size;
    slots = [];
    spare = replicate ahash_init_size zero_ext;
  }

module _ {E : Type 0} (m : MType E) (k : Kernel) (dsize initval : ℕ) (alloc : ℕ → Bool) where
  -- the body of the loop, for an element of the old table whose new bucket is `b`
  unfoldable pub copy_to :
      ℕ → Slot E → List (Option (HBucket E)) → ℕ → ℕ → Option (HBucket E) → Copied E
  unfolding push_slot enlarge
  copy_to key x t extsize i none =
      if alloc i
      then copied (set t key (some (push_slot x fresh_bucket)))
          (add64 extsize (bucket_bytes k ahash_init_size dsize)) (i + 1)
      else stopped Errno.enomem
  copy_to key x t extsize i (some n) =
      if leb n.size (length n.slots)
      then (if leb ahash_max n.size
          then stopped Errno.eagain
          else if alloc i
          then copied
              (set t key
                (some (push_slot x (enlarge n (n.spare ++ replicate ahash_init_size zero_ext)))))
              (add64 extsize (bucket_bytes k ahash_init_size dsize)) (i + 1)
          else stopped Errno.enomem)
      else copied (set t key (some (push_slot x n))) extsize (i + 1)

  -- one position of the old table
  unfoldable pub copy_slot : ℕ → Slot E → List (Option (HBucket E)) → ℕ → ℕ → Copied E
  unfolding copy_to
  copy_slot bits x t extsize i =
      let key = hkey m x.elem initval bits in
      if x.used then copy_to key x t extsize i (bucket_at t key) else copied t extsize (i + 1)

  unfoldable pub copy_slots : ℕ → List (Slot E) → Copied E → Copied E
  unfolding copy_slot
  copy_slots bits xs (stopped e) = stopped e
  copy_slots bits [] (copied t extsize i) = copied t extsize i
  copy_slots bits (x ∷ xs) (copied t extsize i) = copy_slots bits xs (copy_slot bits x t extsize i)

  -- the loop over the buckets of the old table
  unfoldable pub copy_buckets : ℕ → List (Option (HBucket E)) → Copied E → Copied E
  unfolding copy_slots
  copy_buckets bits [] r = r
  copy_buckets bits (none ∷ bs) r = copy_buckets bits bs r
  copy_buckets bits (some n ∷ bs) r = copy_buckets bits bs (copy_slots bits n.slots r)

-- how one attempt with a table of 2 ^ n buckets ends
pub data Attempt (E : Type 0) : Type 0 where
  finished : Status → HSet E → Attempt E
  retry : Attempt E

module _ {E : Type 0} (m : MType E) (k : Kernel) (mem : ResizeMemory) (s : HSet E) where
  unfoldable pub attempt_end : ℕ → Copied E → Attempt E
  attempt_end bits (copied t extsize i) =
      finished ok (record s { htable_bits = bits; buckets = t; ext_size = extsize })
  attempt_end bits (stopped Errno.eagain) = retry
  attempt_end bits (stopped e) = finished (err e) s

  -- from the label `retry` on. A size of 0 is not tested: the allocator then gives a pointer to
  -- nothing, and the bits are written through it.
  unfoldable pub attempt : ℕ → Attempt E
  unfolding attempt_end copy_buckets
  attempt bits =
      if bits == 0
      then finished (err Errno.hash_full) s
      else if mem.table bits
      then (if htable_size k bits == 0
          then finished (fault out_of_bounds) s
          else attempt_end bits (
              copy_buckets m k s.dsize s.initval (mem.bucket bits) bits s.buckets
                (copied (replicate (jhash_size bits) none) 0 0)))
      else finished (err Errno.enomem) s

  -- `htable_bits` is a u8. Each attempt doubles the table; `none` is a loop that is not over.
  unfoldable pub resize_loop : ℕ → ℕ → Option (Status × HSet E)
  unfolding attempt
  resize_loop zero bits = none
  resize_loop (suc fuel) bits =
      let bits' = (bits + 1) % 2 ^ 8 in
      elim (attempt bits') [ finished r s' ↦ some (r, s') | retry ↦ resize_loop fuel bits' ]

  -- `mtype_resize`; 256 attempts are enough
  unfoldable pub resize : Option (Status × HSet E)
  unfolding resize_loop
  resize = resize_loop (2 ^ 8) s.htable_bits
