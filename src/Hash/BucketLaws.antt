-- ===== src/Hash/BucketLaws.antt =====
-- Freeing and shrinking a bucket after elements were cleared: `expire_shrink` and `del_shrink`.
use dset.Ext.{Extensions, zero_ext}
use dset.Hash.Defs.{MType, Slot, HBucket, Account, ahash_init_size}
use dset.Hash.Del.{del_shrink}
use dset.Hash.Expire.{expire_shrink}
use dset.Hash.SlotLaws.{
  count-used_slots, length-used_slots, used_count-used_slots, used-unused, find_live-used_slots,
  find_live-eq-none,
}
use dset.Hash.Slots.{compact, count_unused, used_slots}
use dset.Hash.View.{slots_of, used_count, Fits, count, find_live}
use dset.Kernel.{Kernel}
use dset.Prelude.{
  ℕ, ◌-◌, ◌≤◌, ◌≡◌, refl, sym, Bool, ◌&&◌, Option, none, some, List, [], ◌∷◌, leb, leb→le, ◌==◌,
  length, length-replicate, if_cases, arith,
}

module _ {E : Type 0} (m : MType E) where
  pub count-le-used : (q : E) (xs : List (Slot E)) → count m q xs ≤ used_count xs
  unfolding count used_count
  count-le-used q [] = omega arith
  count-le-used q (x ∷ xs) = ground (arith, count-le-used q xs)

  module _ (k : Kernel) (exts : Extensions) where
    -- the bucket `b` holds what `n` holds
    pub record Keeps (n : HBucket E) (b : Option (HBucket E)) : Type 0 where
      pub fits : Fits b
      pub counts : (q : E) → count m q (slots_of b) ≤ count m q n.slots
      pub finds : (q : E) → find_live m k exts q (slots_of b) ≡ find_live m k exts q n.slots
      pub used : used_count (slots_of b) ≡ used_count n.slots

    module _ (n : HBucket E) (fits : Fits (some n)) where
      same-Keeps : Keeps n (some n)
      same-Keeps = record { fits = fits; counts = λ q. omega arith; finds = λ q. refl; used = refl }

      compact-Keeps : ahash_init_size ≤ count_unused n.slots → Keeps n (some (compact n))
      unfolding compact
      compact-Keeps h = record {
        fits = (
          omega (
            arith,
            length-replicate (n.size - ahash_init_size - length (used_slots n.slots)) zero_ext,
            length-used_slots n.slots,
            used-unused n.slots,
          ),
          omega (arith, used-unused n.slots),
          omega (arith, used-unused n.slots),
        );
        counts = λ q. omega (arith, count-used_slots m q n.slots);
        finds = λ q. find_live-used_slots m k exts q n.slots;
        used = used_count-used_slots n.slots;
      }

      drop-Keeps : used_count n.slots ≡ 0 → Keeps n none
      unfolding count find_live used_count
      drop-Keeps h = record {
        fits = tt;
        counts = λ q. omega arith;
        finds = λ q.
            sym (find_live-eq-none m k exts q n.slots (omega (arith, count-le-used q n.slots)));
        used = sym h;
      }

      -- a bucket and an account that keep what `n` holds
      abbrev pub IsKept : ℕ → Option (HBucket E) × Account → Type 0
      IsKept elements r = Keeps n r.0 × (r.1.elements ≡ elements)

      pub expire_shrink-IsKept :
          (dsize : ℕ) (alloc : Bool) (a : Account)
          → IsKept a.elements (expire_shrink k dsize alloc n a)
      unfolding expire_shrink
      expire_shrink-IsKept dsize alloc a =
          let P = IsKept a.elements in
          if_cases P (leb ahash_init_size (count_unused n.slots))
            (λ h.
              if_cases P (leb n.size (count_unused n.slots))
                (λ g. (drop-Keeps (omega (arith, leb→le, used-unused n.slots)), refl))
                (λ g.
                  if_cases P alloc (λ _. (compact-Keeps (leb→le _ _ h), refl))
                    (λ _. (same-Keeps, refl))))
            (λ _. (same-Keeps, refl))

      pub del_shrink-IsKept :
          (dsize : ℕ) (alloc : Bool) (a : Account)
          → IsKept a.elements (del_shrink k dsize alloc n a)
      unfolding del_shrink
      del_shrink-IsKept dsize alloc a =
          let P = IsKept a.elements in
          let free = count_unused n.slots in
          if_cases P (length n.slots == 0 && free == 0)
            (λ h. (drop-Keeps (ground (arith, used-unused n.slots)), refl))
            (λ _.
              if_cases P (leb ahash_init_size free && alloc)
                (λ h. (compact-Keeps (ground arith), refl)) (λ _. (same-Keeps, refl)))
