-- ===== src/Hash/Slots.antt =====
-- The loops over the positions of one bucket, which the operations of
-- kernel/net/netfilter/dset/domain_set_hash_gen.h share.
use dset.Ext.{ElemExt, Extensions, zero_ext, timeout_expired, ext_destroy}
use dset.Hash.Defs.{Slot, HBucket, Account, ahash_init_size}
use dset.Kernel.{Kernel}
use dset.Prelude.{
  ℕ, ◌+◌, ◌-◌, ◌*◌, Bool, false, ◌&&◌, List, [], ◌∷◌, if◌then◌else◌, length, replicate, sub32,
}

-- ext_size(n, dsize)
abbrev pub bucket_bytes : Kernel → ℕ → ℕ → ℕ
bucket_bytes k n dsize = k.sizeof_hbucket + n * dsize

module _ {E : Type 0} where
  -- the used positions, in order: the loop that copies them into a new array
  unfoldable pub used_slots : List (Slot E) → List (Slot E)
  used_slots [] = []
  used_slots (x ∷ xs) = if x.used then x ∷ used_slots xs else used_slots xs

  -- the number of positions below `pos` whose bit is clear
  unfoldable pub count_unused : List (Slot E) → ℕ
  count_unused [] = 0
  count_unused (x ∷ xs) = if x.used then count_unused xs else count_unused xs + 1

  -- the new array of `mtype_expire` and `mtype_del`: four positions fewer, the used elements
  -- moved to its front, the rest zeroed by `kzalloc`
  unfoldable pub compact : HBucket E → HBucket E
  compact n =
      let kept = used_slots n.slots in
      record {
        size = n.size - ahash_init_size;
        slots = kept;
        spare = replicate (n.size - ahash_init_size - length kept) zero_ext;
      }

  -- the array of `mtype_add` and `mtype_resize` with four more positions
  unfoldable pub enlarge : HBucket E → List ElemExt → HBucket E
  enlarge n spare = record n { size = n.size + ahash_init_size; spare = spare }

  module _ (k : Kernel) (exts : Extensions) where
    -- `SET_WITH_TIMEOUT(set) && domain_set_timeout_expired(ext_timeout(data, set))`
    abbrev pub slot_expired : Slot E → Bool
    slot_expired x = exts.with_timeout && timeout_expired k x.ext.timeout

    -- `clear_bit`, `domain_set_ext_destroy` and `set->elements--`
    unfoldable pub clear_slot : Slot E → Account → Slot E × Account
    clear_slot x a =
        let (ext, size) = ext_destroy k exts x.ext a.ext_size in
        (
          record x { used = false; ext = ext },
          record { elements = sub32 a.elements 1; ext_size = size },
        )
