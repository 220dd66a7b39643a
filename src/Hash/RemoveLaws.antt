-- ===== src/Hash/RemoveLaws.antt =====
-- Clearing one position of a bucket: the search for it, and the positions that are left.
use dset.Ext.{Extensions}
use dset.Hash.Defs.{MType, Slot, HBucket}
use dset.Hash.Del.{find_slot, remove_slot}
use dset.Hash.SlotLaws.{
  count-append, find_live-append_none, find_live-eq-none, used_count-append, used_count_one,
  hits-le-count,
}
use dset.Hash.View.{to_nat, used_count, Fits, hits, count, is_live, find_live}
use dset.Kernel.{Kernel}
use dset.Prelude.{
  ℕ, zero, suc, ◌+◌, ◌≡◌, refl, sym, ap, ◌∙◌, true, false, Option, none, some, List, [], ◌∷◌, ◌++◌,
  if◌then◌else◌, ◌==◌, length, get_elem?, set, take, length-set, length-append, ==_iff, if_cases,
  arith,
}

module _ {E : Type 0} where
  set_last :
      (xs : List (Slot E)) (i : ℕ) (x : Slot E)
      → i + 1 ≡ length xs
      → set xs i x ≡ take i xs ++ x ∷ []
  set_last [] i x h = absurd (omega arith)
  set_last (y ∷ []) zero x h = refl
  set_last (y ∷ z ∷ xs) zero x h = absurd (omega arith)
  set_last (y ∷ xs) (suc i) x h = ap (◌∷◌ y) (set_last xs i x (omega arith))

module _ {E : Type 0} (m : MType E) (k : Kernel) (exts : Extensions) where
  abbrev pub FoundAt : E → ℕ → List (Slot E) → Option (ℕ × Slot E) → Type 0
  FoundAt d base xs none = count m d xs ≡ 0
  FoundAt d base xs (some (i, x)) =
      (o : ℕ) × (i ≡ base + o) × (get_elem? xs o ≡ some x) × (hits m d x ≡ true)

  FoundAt-cons :
      (d : E) (base : ℕ) (x : Slot E) (xs : List (Slot E)) (r : Option (ℕ × Slot E))
      → hits m d x ≡ false
      → FoundAt d (suc base) xs r
      → FoundAt d base (x ∷ xs) r
  unfolding count
  FoundAt-cons d base x xs none miss h = ground arith
  FoundAt-cons d base x xs (some (i, y)) miss (o, e, at, hit) = (suc o, omega arith, at, hit)

  pub find_slot-FoundAt :
      (d : E) (base : ℕ) (xs : List (Slot E)) → FoundAt d base xs (find_slot m d base xs)
  unfolding find_slot count
  find_slot-FoundAt d base [] = refl
  find_slot-FoundAt d base (x ∷ xs) =
      if_cases (FoundAt d base (x ∷ xs)) (hits m d x) (λ hit. (0, omega arith, refl, hit))
        (λ miss. FoundAt-cons d base x xs _ miss (find_slot-FoundAt d (suc base) xs))

  -- the one slot of an element decides whether it is live
  pub find_live_only :
      (d : E) (xs : List (Slot E)) (i : ℕ) (x : Slot E)
      → get_elem? xs i ≡ some x
      → count m d xs ≡ to_nat (hits m d x)
      → find_live m k exts d xs ≡ (if is_live m k exts d x then some x.ext else none)
  unfolding find_live count
  find_live_only d [] i x at only = cc
  find_live_only d (y ∷ xs) zero x at only = ground (arith, find_live-eq-none m k exts d xs)
  find_live_only d (y ∷ xs) (suc i) x at only =
      ground (arith, find_live_only d xs i x at, hits-le-count m d xs i x at)

  -- the bucket `n'` reads like `n` with the slot `x`, whose bit is clear, at position `i`
  pub record Left (n : HBucket E) (i : ℕ) (x : Slot E) (n' : HBucket E) : Type 0 where
    pub counts : (q : E) → count m q n'.slots ≡ count m q (set n.slots i x)
    pub finds : (q : E) → find_live m k exts q n'.slots ≡ find_live m k exts q (set n.slots i x)
    pub used : used_count n'.slots ≡ used_count (set n.slots i x)
    pub fits : Fits (some n')

  module _ (n : HBucket E) (i : ℕ) (x : Slot E) (fits : Fits (some n)) (free : x.used ≡ false) where
    no_hit : (q : E) → count m q (x ∷ []) ≡ 0
    unfolding count
    no_hit q = ground arith

    middle-Left : Left n i x (record n { slots = set n.slots i x })
    middle-Left = record {
      counts = λ q. refl;
      finds = λ q. refl;
      used = refl;
      fits = (rw length-set fits.0, fits.1, fits.2);
    }

    last-Left :
        i + 1 ≡ length n.slots
        → Left n i x (record n { slots = take i n.slots; spare = x.ext ∷ n.spare })
    last-Left last =
        let e = set_last n.slots i x last in
        record {
          counts = λ q.
              omega (arith, ap (count m q) e, count-append m q (take i n.slots) (x ∷ []), no_hit q);
          finds = λ q. sym (
              ap (find_live m k exts q) e
              ∙ find_live-append_none m k exts q (take i n.slots) (x ∷ []) (no_hit q));
          used = omega (
            arith,
            ap used_count e,
            used_count-append (take i n.slots) (x ∷ []),
            used_count_one x,
            ap to_nat free,
          );
          fits = (
            omega (
              arith,
              fits.0,
              ap length e,
              length-set n.slots i x,
              length-append (take i n.slots) (x ∷ []),
            ),
            fits.1,
            fits.2,
          );
        }

    pub remove_slot-Left : Left n i x (remove_slot n i x)
    unfolding remove_slot
    remove_slot-Left =
        if_cases (Left n i x) (i + 1 == length n.slots)
          (λ last. last-Left ((==_iff (i + 1) (length n.slots)).0 last)) (λ _. middle-Left)
