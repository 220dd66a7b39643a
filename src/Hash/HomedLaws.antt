-- ===== src/Hash/HomedLaws.antt =====
-- What the copying loop of `mtype_resize` brings together: the elements of one new bucket, out of
-- all slots of the old table.
use dset.Ext.{Extensions}
use dset.Hash.CopyLaws.{all_slots, homed}
use dset.Hash.Defs.{MType, Slot, HBucket, hkey}
use dset.Hash.SlotLaws.{count-append, find_live-append, find_live-append_none, used_count-append}
use dset.Hash.View.{slots_of, slots_at, used_count, total, count, hits, find_live}
use dset.Kernel.{Kernel}
use dset.Prelude.{ℕ, zero, suc, ◌≡◌, ◌≢◌, refl, ap, ◌∙◌, true, Option, List, [], ◌∷◌, arith}

pub used_count-all_slots :
    {E : Type 0} (bs : List (Option (HBucket E))) → used_count (all_slots bs) ≡ total bs
unfolding all_slots total used_count
used_count-all_slots [] = refl
used_count-all_slots (b ∷ bs) =
    omega (arith, used_count-append (slots_of b) (all_slots bs), used_count-all_slots bs)

module _ {E : Type 0} (m : MType E) (q : E) where
  absent-all_slots :
      (bs : List (Option (HBucket E)))
      → ((j : ℕ) → count m q (slots_at bs j) ≡ 0)
      → count m q (all_slots bs) ≡ 0
  unfolding all_slots count
  absent-all_slots [] h = refl
  absent-all_slots (b ∷ bs) h = omega (
    arith,
    count-append m q (slots_of b) (all_slots bs),
    h 0,
    absent-all_slots bs (λ j. h (suc j)),
  )

  -- an element that stands in the bucket `i` alone
  pub count-all_slots :
      (bs : List (Option (HBucket E))) (i : ℕ)
      → ((j : ℕ) → j ≢ i → count m q (slots_at bs j) ≡ 0)
      → count m q (all_slots bs) ≡ count m q (slots_at bs i)
  unfolding all_slots count
  count-all_slots [] i h = refl
  count-all_slots (b ∷ bs) zero h = omega (
    arith,
    count-append m q (slots_of b) (all_slots bs),
    absent-all_slots bs (λ j. h (suc j) (omega arith)),
  )
  count-all_slots (b ∷ bs) (suc i) h = omega (
    arith,
    count-append m q (slots_of b) (all_slots bs),
    h 0 (omega arith),
    count-all_slots bs i (λ j n. h (suc j) (omega arith)),
  )

  module _ (k : Kernel) (exts : Extensions) where
    pub find_live-all_slots :
        (bs : List (Option (HBucket E))) (i : ℕ)
        → ((j : ℕ) → j ≢ i → count m q (slots_at bs j) ≡ 0)
        → find_live m k exts q (all_slots bs) ≡ find_live m k exts q (slots_at bs i)
    unfolding all_slots
    find_live-all_slots [] i h = refl
    find_live-all_slots (b ∷ bs) zero h =
        find_live-append_none m k exts q (slots_of b) (all_slots bs)
          (absent-all_slots bs (λ j. h (suc j) (omega arith)))
    find_live-all_slots (b ∷ bs) (suc i) h =
        find_live-append m k exts q (slots_of b) (all_slots bs) (h 0 (omega arith))
        ∙ find_live-all_slots bs i (λ j n. h (suc j) (omega arith))

  module _ (initval bits : ℕ) where
    -- a slot that holds the element has its key
    hits-key : (x : Slot E) → hits m q x ≡ true → hkey m x.elem initval bits ≡ hkey m q initval bits
    hits-key x h = ap (λ e. hkey m e initval bits) ((m.data_equal_iff x.elem q).0 (ground arith))

    pub count-homed :
        (xs : List (Slot E))
        → count m q (homed m initval bits (hkey m q initval bits) xs) ≡ count m q xs
    unfolding homed count
    count-homed [] = refl
    count-homed (x ∷ xs) = ground (arith, count-homed xs, hits-key x)

    pub count-homed_far :
        (xs : List (Slot E)) (i : ℕ)
        → hkey m q initval bits ≢ i
        → count m q (homed m initval bits i xs) ≡ 0
    unfolding homed count
    count-homed_far [] i far = refl
    count-homed_far (x ∷ xs) i far = ground (arith, count-homed_far xs i, hits-key x)

    pub find_live-homed :
        (k : Kernel) (exts : Extensions) (xs : List (Slot E))
        → find_live m k exts q (homed m initval bits (hkey m q initval bits) xs)
          ≡ find_live m k exts q xs
    unfolding homed find_live
    find_live-homed k exts [] = refl
    find_live-homed k exts (x ∷ xs) = ground (arith, find_live-homed k exts xs, hits-key x)
