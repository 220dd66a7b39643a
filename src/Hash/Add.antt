-- ===== src/Hash/Add.antt =====
-- `mtype_add` (kernel/net/netfilter/dset/domain_set_hash_gen.h).
use dset.Ext.{Ext, ElemExt, Extensions, zero_ext, ext_destroy, write_extensions}
use dset.Hash.Defs.{
  MType, Slot, HBucket, HSet, Account, account, ahash_init_size, ahash_max, hkey, bucket_at,
}
use dset.Hash.Expire.{expire}
use dset.Hash.Slots.{bucket_bytes, enlarge, slot_expired}
use dset.Kernel.{Kernel}
use dset.Prelude.{
  ℕ, suc, Bool, true, false, ◌&&◌, ◌||◌, Option, none, some, List, [], ◌∷◌, ◌++◌, if◌then◌else◌,
  leb, length, get_elem?, replicate, set, add32, sub32, add64,
}
use dset.Uapi.{Status, ok, err, fault, enomem, eagain, exist, hash_full, out_of_bounds}

-- the answers of `kzalloc` in `mtype_expire` and in `mtype_add` itself, and of `kmalloc` for the
-- comment
pub record Memory : Type 0 where
  pub expire : ℕ → Bool
  pub bucket : Bool
  pub comment : Bool

-- how the loop over the positions ends: with an equal element to be overwritten, with an equal
-- element that refuses the new one, or at the end, with the first position that can be reused
-- and whether its bit was clear
pub data Scan : Type 0 where
  overwrite : ℕ → Scan
  refused : Scan
  scanned : Option (ℕ × Bool) → Scan

abbrev pub or_first : Option (ℕ × Bool) → ℕ × Bool → Option (ℕ × Bool)
or_first none p = some p
or_first (some q) p = some q

module _ {E : Type 0} (m : MType E) (k : Kernel) where
  unfoldable pub scan : Extensions → E → Bool → ℕ → Option (ℕ × Bool) → List (Slot E) → Scan
  scan exts d flag_exist i j [] = scanned j
  scan exts d flag_exist i j (x ∷ xs) =
      let j' =
        if x.used
        then if slot_expired k exts x then or_first j (i, false) else j
        else or_first j (i, true) in
      let rest = scan exts d flag_exist (suc i) j' xs in
      if x.used && m.data_equal x.elem d
      then if flag_exist || slot_expired k exts x then overwrite i else refused
      else rest

  -- the labels from `copy_data` on, at position `x`: the element is written, then its extensions
  unfoldable pub fill_slot : Extensions → Bool → E → Ext → ElemExt → Account → Slot E × Account
  fill_slot exts alloc d ext area a =
      let (area', size) = write_extensions k exts alloc ext area a.ext_size in
      (record { used = true; elem = d; ext = area' }, record a { ext_size = size })

  -- a position is reused: an expired element there is destroyed first
  unfoldable pub reuse_slot :
      Extensions → Bool → E → Ext → Bool → ElemExt → Account → Slot E × Account
  unfolding fill_slot
  reuse_slot exts alloc d ext deleted area a =
      let (area', size) =
        if deleted then (area, a.ext_size) else ext_destroy k exts area a.ext_size in
      let elements = if deleted then a.elements else sub32 a.elements 1 in
      fill_slot exts alloc d ext area' (record { elements = add32 elements 1; ext_size = size })

  -- a position is written in place
  unfoldable pub put_slot : HSet E → ℕ → HBucket E → ℕ → Slot E × Account → HSet E
  put_slot s key n i (x, a) = record s {
    elements = a.elements;
    ext_size = a.ext_size;
    buckets = set s.buckets key (some (record n { slots = set n.slots i x }));
  }

  -- the label `copy_elem`: the element goes to position `pos`, which is below `size`; a bucket
  -- with no spare position would be written past its end
  unfoldable pub append_slot :
      HSet E → ℕ → Bool → E → Ext → HBucket E → List ElemExt → Status × HSet E
  unfolding fill_slot
  append_slot s key alloc d ext n [] = (fault out_of_bounds, s)
  append_slot s key alloc d ext n (area ∷ spare) =
      let (x, a) =
        fill_slot s.exts alloc d ext area (record (account s) { elements = add32 s.elements 1 }) in
      (
        ok,
        record s {
          elements = a.elements;
          ext_size = a.ext_size;
          buckets =
              set s.buckets key (some (record n { slots = n.slots ++ x ∷ []; spare = spare }));
        },
      )

  -- no position is reused: refuse when full, grow when the array is full, append
  unfoldable pub add_new : HSet E → ℕ → Memory → E → Ext → HBucket E → Status × HSet E
  unfolding append_slot
  add_new s key mem d ext n =
      if leb s.maxelem s.elements
      then (err hash_full, s)
      else if leb n.size (length n.slots)
      then if leb ahash_max n.size
        then (err eagain, record s { next = some d })
        else if mem.bucket
        then append_slot
            (record s { ext_size = add64 s.ext_size (bucket_bytes k ahash_init_size s.dsize) }) key
            mem.comment d ext (enlarge n n.spare) (n.spare ++ replicate ahash_init_size zero_ext)
        else (err enomem, s)
      else append_slot s key mem.comment d ext n n.spare

  -- the first bucket at this key
  unfoldable pub add_bucket : HSet E → ℕ → Bool → Memory → E → Ext → Status × HSet E
  unfolding append_slot
  add_bucket s key forceadd mem d ext =
      if forceadd || leb s.maxelem s.elements
      then (err hash_full, s)
      else if mem.bucket
      then append_slot
          (record s { ext_size = add64 s.ext_size (bucket_bytes k ahash_init_size s.dsize) }) key
          mem.comment d ext (record { size = ahash_init_size; slots = []; spare = [] })
          (replicate ahash_init_size zero_ext)
      else (err enomem, s)

  abbrev pub slot_ext : List (Slot E) → ℕ → ElemExt
  slot_ext xs i = elim (get_elem? xs i) [ none ↦ zero_ext | some x ↦ x.ext ]

  -- the rest of the function, by how the loop over the positions ended. `ahash_data(n, -1)`, which
  -- a forced add without a reusable position asks for, is outside the array.
  unfoldable pub add_scanned :
      HSet E → ℕ → Bool → Memory → E → Ext → HBucket E → Scan → Status × HSet E
  unfolding fill_slot reuse_slot put_slot add_new
  add_scanned s key forceadd mem d ext n (overwrite i) =
      (ok, put_slot s key n i (fill_slot s.exts mem.comment d ext (slot_ext n.slots i) (account s)))
  add_scanned s key forceadd mem d ext n refused = (err exist, s)
  add_scanned s key forceadd mem d ext n (scanned (some (i, deleted))) = (
    ok,
    put_slot s key n i
        (reuse_slot s.exts mem.comment d ext deleted (slot_ext n.slots i) (account s)),
  )
  add_scanned s key forceadd mem d ext n (scanned none) =
      if forceadd then (fault out_of_bounds, s) else add_new s key mem d ext n

  unfoldable pub add_at :
      HSet E → ℕ → Bool → Memory → E → Ext → Bool → Option (HBucket E) → Status × HSet E
  unfolding scan add_bucket add_scanned
  add_at s key forceadd mem d ext flag_exist none = add_bucket s key forceadd mem d ext
  add_at s key forceadd mem d ext flag_exist (some n) =
      add_scanned s key forceadd mem d ext n (scan s.exts d flag_exist 0 none n.slots)

  -- a full set with timeouts is expired first
  unfoldable pub make_room : HSet E → Memory → HSet E
  make_room s mem =
      if leb s.maxelem s.elements && s.exts.with_timeout then expire k mem.expire s else s

  -- `forceadd` of the code: the set was full before it was expired, and is still full
  unfoldable pub must_force : HSet E → HSet E → Bool
  must_force s s' = leb s.maxelem s.elements && leb s'.maxelem s'.elements && s'.forceadd

  unfoldable pub add : HSet E → Memory → E → Ext → Bool → Status × HSet E
  unfolding add_at make_room must_force
  add s mem d ext flag_exist =
      let s' = make_room s mem in
      let key = hkey m d s'.initval s'.htable_bits in
      add_at s' key (must_force s s') mem d ext flag_exist (bucket_at s'.buckets key)
