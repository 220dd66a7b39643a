-- ===== src/Hash/DelLaws.antt =====
-- `mtype_del`: a live element leaves the set, and nothing else changes; where there is none, the
-- set is as it was.
use mathlib.Core.Path.{subst}
use dset.Ext.{Extensions}
use dset.Hash.BucketLaws.{Keeps, del_shrink-IsKept}
use dset.Hash.Defs.{MType, Slot, HBucket, HSet, Account, account, bucket_at}
use dset.Hash.Del.{find_slot, remove_slot, del_found, del_at, del}
use dset.Hash.RemoveLaws.{FoundAt, find_slot-FoundAt, find_live_only, Left, remove_slot-Left}
use dset.Hash.SlotLaws.{
  count-set, find_live-set_other, find_live-eq-none, used_count-set, hits-le-count,
}
use dset.Hash.Slots.{clear_slot, slot_expired}
use dset.Hash.TableLaws.{home-lt, total-set, set-IsValid, live-replaced, replaced}
use dset.Hash.View.{
  to_nat, slots_of, slots_at, used_count, total, Fits, hits, count, home, IsValid, is_live,
  find_live, live,
}
use dset.Kernel.{Kernel}
use dset.Prelude.{
  ℕ, ◌+◌, ◌%◌, ◌^◌, ◌≤◌, ◌≡◌, refl, sym, ap, ◌∙◌, ◌≢◌, Bool, true, false, Option, none, some,
  if◌then◌else◌, get_elem?, set, if_cases, sub32, arith,
}
use dset.Uapi.{Status, ok, err, fault, exist}

module _ {E : Type 0} (k : Kernel) where
  cleared_free :
      (exts : Extensions) (x : Slot E) (a : Account) → (clear_slot k exts x a).0.used ≡ false
  unfolding clear_slot
  cleared_free exts x a = refl

  cleared_fewer :
      (exts : Extensions) (x : Slot E) (a : Account)
      → (clear_slot k exts x a).1.elements ≡ sub32 a.elements 1
  unfolding clear_slot
  cleared_fewer exts x a = refl

module _ {E : Type 0} (m : MType E) (k : Kernel) (d : E) where
  pub record Deleted (s s' : HSet E) : Type 0 where
    pub valid : IsValid m s'
    pub was : live m k s d ≢ none
    pub gone : live m k s' d ≡ none
    pub others : (q : E) → m.data_equal q d ≡ false → live m k s' q ≡ live m k s q
    pub fewer : s'.elements ≡ sub32 s.elements 1

  abbrev pub Deletion : HSet E → Status × HSet E → Type 0
  Deletion s (ok, s') = Deleted s s'
  Deletion s (err e, s') = (e ≡ exist) × (s' ≡ s) × (live m k s d ≡ none)
  Deletion s (fault f, s') = ⊥

  module _ {s : HSet E} (valid : IsValid m s) (alloc : Bool) where
    module _ (n : HBucket E) (is_home : bucket_at s.buckets (home m s d) ≡ some n) (i : ℕ)
        (x : Slot E) (at : get_elem? n.slots i ≡ some x) (hit : hits m d x ≡ true) where
      only : count m d n.slots ≡ to_nat (hits m d x)
      only = ground (
        arith,
        hits-le-count m d n.slots i x at,
        (valid.placed d (home m s d)).0,
        ap (λ b. count m d (slots_of b)) is_home,
      )

      live_here : live m k s d ≡ (if is_live m k s.exts d x then some x.ext else none)
      unfolding live
      live_here =
          ap (λ b. find_live m k s.exts d (slots_of b)) is_home
          ∙ find_live_only m k s.exts d n.slots i x at only

      was_live : slot_expired k s.exts x ≡ false → live m k s d ≢ none
      was_live young none_there = ground (arith, live_here)

      -- the bucket `b` holds what is left after `x` was cleared to `x'`
      module _ (x' : Slot E) (free : x'.used ≡ false) (b : Option (HBucket E))
          (kept : Keeps m k s.exts (remove_slot n i x') b) where
        left : Left m k s.exts n i x' (remove_slot n i x')
        left =
            remove_slot-Left m k s.exts n i x' (subst Fits is_home (valid.fits (home m s d))) free

        no_hit : (q : E) → hits m q x' ≡ false
        no_hit q = ground arith

        counts_left :
            (q : E)
            → count m q (slots_of b) + to_nat (hits m q x)
              ≤ count m q (slots_at s.buckets (home m s d))
        counts_left q = omega (
          arith,
          kept.counts q,
          left.counts q,
          count-set m q n.slots i x' x at,
          ap to_nat (no_hit q),
          ap (λ c. count m q (slots_of c)) is_home,
        )

        others_left :
            (q : E)
            → m.data_equal q d ≡ false
            → find_live m k s.exts q (slots_of b)
              ≡ find_live m k s.exts q (slots_at s.buckets (home m s d))
        others_left q n' =
            kept.finds q
            ∙ left.finds q
            ∙ find_live-set_other m k s.exts q n.slots i x' x at
                (ground (
                  arith,
                  m.data_equal_iff x.elem d,
                  m.data_equal_iff x.elem q,
                  m.data_equal_iff q d,
                ))
                (ground (arith, no_hit q))
            ∙ ap (λ c. find_live m k s.exts q (slots_of c)) (sym is_home)

        counted_left : sub32 s.elements 1 ≡ total (set s.buckets (home m s d) b) % 2 ^ 32
        counted_left = omega (
          arith,
          valid.counted,
          total-set s.buckets (home m s d) b (home-lt m s d valid.width),
          kept.used,
          left.used,
          used_count-set n.slots i x' x at,
          ap (λ c. used_count (slots_of c)) is_home,
          ap to_nat free,
          ap to_nat used_here,
        )
          where
            used_here : x.used ≡ true
            used_here = ground arith

        cleared-Deleted :
            (elements size : ℕ)
            → elements ≡ sub32 s.elements 1
            → slot_expired k s.exts x ≡ false
            → Deleted s (replaced m valid d b elements size)
        unfolding live
        cleared-Deleted elements size e young = record {
          valid =
              set-IsValid m valid d b elements size kept.fits
                (λ q. omega (arith, counts_left q, (valid.placed q (home m s d)).0))
                (λ q far. omega (arith, counts_left q, (valid.placed q (home m s d)).1 far))
                (e ∙ counted_left);
          was = was_live young;
          gone =
              live-replaced m valid d b elements size k d none
                (λ _.
                  find_live-eq-none m k s.exts d (slots_of b)
                    (omega (arith, counts_left d, (valid.placed d (home m s d)).0, ap to_nat hit)))
                (λ far. absurd (far refl));
          others = λ q n'.
              live-replaced m valid d b elements size k q (live m k s q)
                (λ same.
                  others_left q n'
                  ∙ ap (λ j. find_live m k s.exts q (slots_at s.buckets j)) (sym same))
                (λ _. refl);
          fewer = e;
        }

      del_found-Deletion : Deletion s (del_found k s (home m s d) alloc n i x)
      unfolding del_found
      del_found-Deletion =
          if_cases (Deletion s) (slot_expired k s.exts x)
            (λ old. (refl, refl, live_here ∙ ground arith))
            (λ young.
              let c = clear_slot k s.exts x (account s) in
              let n' = remove_slot n i c.0 in
              let free : c.0.used ≡ false = cleared_free k s.exts x (account s) in
              let fits =
                (remove_slot-Left m k s.exts n i c.0 (subst Fits is_home (valid.fits (home m s d)))
                  free).fits in
              let (kept, same) = del_shrink-IsKept m k s.exts n' fits s.dsize alloc c.1 in
              cleared-Deleted c.0 free _ kept _ _ (same ∙ cleared_fewer k s.exts x (account s))
                young)

    live_absent :
        (n : HBucket E)
        → bucket_at s.buckets (home m s d) ≡ some n
        → count m d n.slots ≡ 0
        → live m k s d ≡ none
    unfolding live
    live_absent n is_home absent =
        ap (λ b. find_live m k s.exts d (slots_of b)) is_home
        ∙ find_live-eq-none m k s.exts d n.slots absent

    found-Deletion :
        (n : HBucket E) (r : Option (ℕ × Slot E))
        → bucket_at s.buckets (home m s d) ≡ some n
        → FoundAt m k s.exts d 0 n.slots r
        → find_slot m d 0 n.slots ≡ r
        → Deletion s (del_at m k s (home m s d) alloc d (some n))
    unfolding del_at
    found-Deletion n none is_home absent e =
        rw (e, del_at) (refl, refl, live_absent n is_home absent)
    found-Deletion n (some (i, x)) is_home (o, e', at, hit) e =
        rw (e, del_at)
          (let i_eq : i ≡ o = omega arith in del_found-Deletion n is_home i x (rw i_eq at) hit)

    del_at-Deletion :
        (b : Option (HBucket E))
        → bucket_at s.buckets (home m s d) ≡ b
        → Deletion s (del_at m k s (home m s d) alloc d b)
    unfolding del_at live
    del_at-Deletion none is_home = (
      refl,
      refl,
      ap (λ b. find_live m k s.exts d (slots_of b)) is_home ∙ unfold find_live in refl,
    )
    del_at-Deletion (some n) is_home =
        found-Deletion n _ is_home (find_slot-FoundAt m k s.exts d 0 n.slots) refl

    -- On a table that satisfies the invariant, deleting `d` succeeds exactly if it is live. Then it is gone, every other live element is as
    -- it was, the counter of elements falls by one and the invariant holds; where it is not live
    -- the answer is `exist` and the set is untouched.
    pub del-Deletion : Deletion s (del m k s alloc d)
    unfolding del
    del-Deletion = del_at-Deletion _ refl
