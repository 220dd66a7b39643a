-- ===== src/Hash/ExpireLaws.antt =====
-- Expiring keeps the invariant and every live element.
use dset.Ext.{Extensions}
use dset.Hash.Defs.{MType, Slot, HBucket, HSet, Account, account, bucket_at}
use dset.Hash.Expire.{expire_slot, expire_slots, expire_bucket, expire_from, expire}
use dset.Hash.BucketLaws.{expire_shrink-IsKept}
use dset.Hash.Slots.{clear_slot}
use dset.Hash.View.{
  to_nat, slots_of, used_count, total, Fits, hits, count, home, IsValid, is_live, find_live, live,
}
use dset.Kernel.{Kernel}
use dset.Prelude.{
  ℕ, zero, suc, ◌+◌, ◌%◌, ◌^◌, ◌≤◌, ◌<◌, ◌≡◌, refl, ◌∙◌, ap, Bool, true, Option, none, some, List,
  [], ◌∷◌, length, arith,
}

module _ {E : Type 0} (m : MType E) (k : Kernel) (exts : Extensions)
    (timed : exts.with_timeout ≡ true) where
  expire_slot-counts :
      (q : E) (x : Slot E) (a : Account)
      → let y = (expire_slot k exts x a).0 in
        (to_nat (hits m q y) ≤ to_nat (hits m q x))
        × (is_live m k exts q y ≡ is_live m k exts q x)
        × (is_live m k exts q x ≡ true → y ≡ x)
  unfolding expire_slot clear_slot
  expire_slot-counts q x a = ground arith

  count-expire_slots :
      (q : E) (xs : List (Slot E)) (a : Account)
      → count m q (expire_slots k exts xs a).0 ≤ count m q xs
  unfolding expire_slots count
  count-expire_slots q [] a = omega arith
  count-expire_slots q (x ∷ xs) a =
      omega (arith, expire_slot-counts q x a, count-expire_slots q xs (expire_slot k exts x a).1)

  find_live-expire_slots :
      (q : E) (xs : List (Slot E)) (a : Account)
      → find_live m k exts q (expire_slots k exts xs a).0 ≡ find_live m k exts q xs
  unfolding expire_slots find_live
  find_live-expire_slots q [] a = refl
  find_live-expire_slots q (x ∷ xs) a =
      ground
        (arith, find_live-expire_slots q xs (expire_slot k exts x a).1, expire_slot-counts q x a)

  length-expire_slots :
      (xs : List (Slot E)) (a : Account) → length (expire_slots k exts xs a).0 ≡ length xs
  unfolding expire_slots
  length-expire_slots [] a = refl
  length-expire_slots (x ∷ xs) a = ap suc (length-expire_slots xs _)

-- the counter of elements follows the used positions, modulo 2 ^ 32
abbrev pub Follows : ℕ → ℕ → ℕ → ℕ → Type 0
Follows e n e' n' = ((e' + n) % 2 ^ 32 ≡ (e + n') % 2 ^ 32) × (e < 2 ^ 32 → e' < 2 ^ 32)

module _ {E : Type 0} (k : Kernel) (exts : Extensions) where
  expire_slot-Follows :
      (x : Slot E) (a : Account)
      → let r = expire_slot k exts x a in
        Follows a.elements (to_nat x.used) r.1.elements (to_nat r.0.used)
  unfolding expire_slot clear_slot
  expire_slot-Follows x a = ground arith

  expire_slots-Follows :
      (xs : List (Slot E)) (a : Account)
      → let r = expire_slots k exts xs a in
        Follows a.elements (used_count xs) r.1.elements (used_count r.0)
  unfolding expire_slots used_count
  expire_slots-Follows [] a = omega arith
  expire_slots-Follows (x ∷ xs) a =
      let here = expire_slot-Follows x a in
      let rest = expire_slots-Follows xs (expire_slot k exts x a).1 in
      (omega (arith, here.0, rest.0), λ h. rest.1 (here.1 h))

module _ {E : Type 0} (m : MType E) (k : Kernel) (exts : Extensions)
    (timed : exts.with_timeout ≡ true) where
  -- what expiring does to a bucket
  record Shrinks (b b' : Option (HBucket E)) : Type 0 where
    fits : Fits b'
    counts : (q : E) → count m q (slots_of b') ≤ count m q (slots_of b)
    finds : (q : E) → find_live m k exts q (slots_of b') ≡ find_live m k exts q (slots_of b)

  module _ (dsize : ℕ) where
    expire_bucket-Shrinks :
        (alloc : Bool) (b : Option (HBucket E)) (a : Account)
        → Fits b
        → let r = expire_bucket k exts dsize alloc b a in
          Shrinks b r.0
          × Follows a.elements (used_count (slots_of b)) r.1.elements (used_count (slots_of r.0))
    unfolding expire_bucket used_count
    expire_bucket-Shrinks alloc none a fits =
        (record { fits = tt; counts = λ q. omega arith; finds = λ q. refl }, omega arith)
    expire_bucket-Shrinks alloc (some n) a fits =
        let r = expire_slots k exts n.slots a in
        let (kept, same) =
          expire_shrink-IsKept m k exts (record n { slots = r.0 })
            (omega (arith, length-expire_slots m k exts timed n.slots a), fits.1, fits.2) dsize
            alloc r.1 in
        let follows = expire_slots-Follows k exts n.slots a in
        (
          record {
            fits = kept.fits;
            counts =
                λ q. omega (arith, kept.counts q, count-expire_slots m k exts timed q n.slots a);
            finds = λ q. kept.finds q ∙ find_live-expire_slots m k exts timed q n.slots a;
          },
          (rw (same, kept.used) follows.0, rw same follows.1),
        )

    expire_from-Shrinks :
        (alloc : ℕ → Bool) (i : ℕ) (bs : List (Option (HBucket E))) (a : Account)
        → ((j : ℕ) → Fits (bucket_at bs j))
        → (j : ℕ) → Shrinks (bucket_at bs j) (bucket_at (expire_from k exts dsize alloc i bs a).0 j)
    unfolding expire_from
    expire_from-Shrinks alloc i [] a fits j = record {
      fits = tt;
      counts = λ q. omega arith;
      finds = λ q. refl;
    }
    expire_from-Shrinks alloc i (b ∷ bs) a fits zero =
        (expire_bucket-Shrinks (alloc i) b a (fits 0)).0
    expire_from-Shrinks alloc i (b ∷ bs) a fits (suc j) =
        expire_from-Shrinks alloc (suc i) bs _ (λ t. fits (suc t)) j

    expire_from-Follows :
        (alloc : ℕ → Bool) (i : ℕ) (bs : List (Option (HBucket E))) (a : Account)
        → ((j : ℕ) → Fits (bucket_at bs j))
        → let r = expire_from k exts dsize alloc i bs a in
          Follows a.elements (total bs) r.1.elements (total r.0)
    unfolding expire_from total
    expire_from-Follows alloc i [] a fits = omega arith
    expire_from-Follows alloc i (b ∷ bs) a fits =
        let here = (expire_bucket-Shrinks (alloc i) b a (fits 0)).1 in
        let rest =
          expire_from-Follows alloc (suc i) bs (expire_bucket k exts dsize (alloc i) b a).1
            (λ t. fits (suc t)) in
        (omega (arith, here.0, rest.0), λ h. rest.1 (here.1 h))

    length-expire_from :
        (alloc : ℕ → Bool) (i : ℕ) (bs : List (Option (HBucket E))) (a : Account)
        → length (expire_from k exts dsize alloc i bs a).0 ≡ length bs
    unfolding expire_from
    length-expire_from alloc i [] a = refl
    length-expire_from alloc i (b ∷ bs) a = ap suc (length-expire_from alloc (suc i) bs _)

module _ {E : Type 0} (m : MType E) (k : Kernel) {s : HSet E} (valid : IsValid m s) where
  -- On a set with timeouts, expiring keeps the invariant of the table, whatever allocations fail.
  pub expire-IsValid :
      (alloc : ℕ → Bool) → s.exts.with_timeout ≡ true → IsValid m (expire k alloc s)
  unfolding expire
  expire-IsValid alloc timed =
      let shrinks =
        expire_from-Shrinks m k s.exts timed s.dsize alloc 0 s.buckets (account s) valid.fits in
      let follows =
        expire_from-Follows m k s.exts timed s.dsize alloc 0 s.buckets (account s) valid.fits in
      record {
        width =
            length-expire_from m k s.exts timed s.dsize alloc 0 s.buckets (account s) ∙ valid.width;
        fits = λ i. (shrinks i).fits;
        placed = λ q i. (
          omega (arith, (shrinks i).counts q, (valid.placed q i).0),
          λ n. omega (arith, (shrinks i).counts q, (valid.placed q i).1 n),
        );
        counted = omega (arith, follows.0, follows.1 (omega (arith, valid.counted)), valid.counted);
      }

  -- On a set with timeouts that satisfies the invariant, expiring changes no live element: neither
  -- which elements are live nor their extensions.
  pub live-expire :
      (alloc : ℕ → Bool)
      → s.exts.with_timeout ≡ true
      → (q : E) → live m k (expire k alloc s) q ≡ live m k s q
  unfolding expire live
  live-expire alloc timed q =
      (expire_from-Shrinks m k s.exts timed s.dsize alloc 0 s.buckets (account s) valid.fits
          (home m s q)).finds
        q
