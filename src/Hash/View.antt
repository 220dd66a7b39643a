-- ===== src/Hash/View.antt =====
-- What the table means: which elements are used, which are alive, where each may stand; and the
-- invariant of the table.
use dset.Ext.{ElemExt, Extensions}
use dset.Hash.Defs.{MType, Slot, HBucket, HSet, hkey, bucket_at, ahash_init_size, ahash_max}
use dset.Hash.Slots.{slot_expired}
use dset.Kernel.{Kernel}
use dset.Prelude.{
  ℕ, ◌+◌, ◌%◌, ◌^◌, ◌≤◌, ◌≡◌, ◌≢◌, Bool, true, false, not, ◌&&◌, Option, none, some, List, [], ◌∷◌,
  if◌then◌else◌, length,
}

abbrev pub to_nat : Bool → ℕ
to_nat true = 1
to_nat false = 0

module _ {E : Type 0} where
  abbrev pub slots_of : Option (HBucket E) → List (Slot E)
  slots_of none = []
  slots_of (some n) = n.slots

  abbrev pub slots_at : List (Option (HBucket E)) → ℕ → List (Slot E)
  slots_at bs i = slots_of (bucket_at bs i)

  -- the number of used positions
  unfoldable pub used_count : List (Slot E) → ℕ
  used_count [] = 0
  used_count (x ∷ xs) = to_nat x.used + used_count xs

  unfoldable pub total : List (Option (HBucket E)) → ℕ
  total [] = 0
  total (b ∷ bs) = used_count (slots_of b) + total bs

  -- the array: positions below and from `pos` make up `size`, which is a multiple of
  -- AHASH_INIT_SIZE up to its bound
  abbrev pub Fits : Option (HBucket E) → Type 0
  Fits none = Unit {0}
  Fits (some n) =
      (length n.slots + length n.spare ≡ n.size)
      × (n.size ≤ ahash_max)
      × (n.size % ahash_init_size ≡ 0)

module _ {E : Type 0} (m : MType E) where
  abbrev pub hits : E → Slot E → Bool
  hits q x = x.used && m.data_equal x.elem q

  unfoldable pub count : E → List (Slot E) → ℕ
  count q [] = 0
  count q (x ∷ xs) = to_nat (hits q x) + count q xs

  abbrev pub home : HSet E → E → ℕ
  home s q = hkey m q s.initval s.htable_bits

  -- an element is used at most once, and only in its home bucket
  abbrev pub IsPlaced : HSet E → Type 0
  IsPlaced s =
      (q : E) (i : ℕ)
      → (count q (slots_at s.buckets i) ≤ 1) × (home s q ≢ i → count q (slots_at s.buckets i) ≡ 0)

  pub record IsValid (s : HSet E) : Type 0 where
    pub width : length s.buckets ≡ 2 ^ s.htable_bits
    pub fits : (i : ℕ) → Fits (bucket_at s.buckets i)
    pub placed : IsPlaced s
    pub counted : s.elements ≡ total s.buckets % 2 ^ 32

  module _ (k : Kernel) where
    -- an element's slot that is used and has not expired
    abbrev pub is_live : Extensions → E → Slot E → Bool
    is_live exts q x = hits q x && not (slot_expired k exts x)

    unfoldable pub find_live : Extensions → E → List (Slot E) → Option ElemExt
    find_live exts q [] = none
    find_live exts q (x ∷ xs) = if is_live exts q x then some x.ext else find_live exts q xs

    -- the abstract set: the extensions of each live element
    unfoldable pub live : HSet E → E → Option ElemExt
    live s q = find_live s.exts q (slots_at s.buckets (home s q))
