-- ===== src/Hash/Defs.antt =====
-- The data of kernel/net/netfilter/dset/domain_set_hash_gen.h: slots, buckets, the table, the set.
use dset.Ext.{ElemExt, Extensions}
use dset.Prelude.{ℕ, ◌*◌, ◌%◌, ◌^◌, ◌≡◌, ◌↔◌, Bool, true, Option, none, List, get_or}

-- What the template asks of the element type MTYPE: `mtype_data_equal`, and `jhash2` over the
-- element's words with a seed. `data_equal_iff` says that the test is equality of elements.
pub record MType (E : Type 0) : Type 0 where
  pub data_equal : E → E → Bool
  pub data_equal_iff : (a b : E) → (data_equal a b ≡ true) ↔ (a ≡ b)
  pub jhash : E → ℕ → ℕ

-- AHASH_INIT_SIZE, and AHASH_MAX without DOMAIN_SET_HASH_WITH_MULTI
abbrev pub ahash_init_size : ℕ
ahash_init_size = 4

abbrev pub ahash_max : ℕ
ahash_max = 3 * ahash_init_size

-- an array position below `pos`: its bit in `used`, the element, its extension area
pub record Slot (E : Type 0) : Type 0 where
  pub used : Bool
  pub elem : E
  pub ext : ElemExt

-- `struct hbucket`: `slots` are the positions below `pos`, so `pos` is their number; `spare` holds
-- the extension areas of the positions from `pos` to `size`, which keep what was last in them
-- (the elements there are overwritten before they are read)
pub record HBucket (E : Type 0) : Type 0 where
  pub size : ℕ
  pub slots : List (Slot E)
  pub spare : List ElemExt

-- the fields of `struct domain_set`, `struct htype` and `struct htable` that the type works on;
-- `next` is `h->next`, `none` while it is zeroed
pub record HSet (E : Type 0) : Type 0 where
  pub exts : Extensions
  pub forceadd : Bool
  pub timeout : ℕ
  pub dsize : ℕ
  pub elements : ℕ
  pub ext_size : ℕ
  pub maxelem : ℕ
  pub initval : ℕ
  pub htable_bits : ℕ
  pub buckets : List (Option (HBucket E))
  pub next : Option E

-- `set->elements` (u32) and `set->ext_size` (size_t), which the loops over slots update
pub record Account : Type 0 where
  pub elements : ℕ
  pub ext_size : ℕ

-- jhash_size and jhash_mask: `x & jhash_mask(bits)`
abbrev pub jhash_size : ℕ → ℕ
jhash_size bits = 2 ^ bits

module _ {E : Type 0} (m : MType E) where
  -- HKEY
  unfoldable pub hkey : E → ℕ → ℕ → ℕ
  hkey d initval bits = m.jhash d initval % jhash_size bits

abbrev pub account : {E : Type 0} → HSet E → Account
account s = record { elements = s.elements; ext_size = s.ext_size }

abbrev pub bucket_at : {E : Type 0} → List (Option (HBucket E)) → ℕ → Option (HBucket E)
bucket_at bs i = get_or bs i none
