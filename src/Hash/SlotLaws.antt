-- ===== src/Hash/SlotLaws.antt =====
-- Counting and finding elements in the positions of one bucket.
use dset.Ext.{Extensions}
use dset.Hash.Defs.{MType, Slot}
use dset.Hash.Slots.{used_slots, count_unused}
use dset.Hash.View.{to_nat, used_count, hits, count, is_live, find_live}
use dset.Kernel.{Kernel}
use dset.Prelude.{
  ℕ, zero, suc, ◌+◌, ◌≤◌, ◌<◌, ◌≡◌, refl, true, false, none, some, List, [], ◌∷◌, ◌++◌,
  if◌then◌else◌, length, get_elem?, set, arith,
}

module _ {E : Type 0} where
  pub used_count-append :
      (xs ys : List (Slot E)) → used_count (xs ++ ys) ≡ used_count xs + used_count ys
  unfolding used_count
  used_count-append [] ys = omega arith
  used_count-append (x ∷ xs) ys = omega (arith, used_count-append xs ys)

  pub used_count_one : (x : Slot E) → used_count (x ∷ []) ≡ to_nat x.used
  unfolding used_count
  used_count_one x = omega arith

  pub used_count-set :
      (xs : List (Slot E)) (i : ℕ) (x y : Slot E)
      → get_elem? xs i ≡ some y
      → used_count (set xs i x) + to_nat y.used ≡ used_count xs + to_nat x.used
  unfolding used_count
  used_count-set [] i x y h = cc
  used_count-set (z ∷ xs) zero x y h = ground arith
  used_count-set (z ∷ xs) (suc i) x y h = omega (arith, used_count-set xs i x y h)

  pub length-used_slots : (xs : List (Slot E)) → length (used_slots xs) ≡ used_count xs
  unfolding used_slots used_count
  length-used_slots [] = refl
  length-used_slots (x ∷ xs) = ground (arith, length-used_slots xs)

  pub used_count-used_slots : (xs : List (Slot E)) → used_count (used_slots xs) ≡ used_count xs
  unfolding used_slots used_count
  used_count-used_slots [] = refl
  used_count-used_slots (x ∷ xs) = ground (arith, used_count-used_slots xs)

  pub used-unused : (xs : List (Slot E)) → used_count xs + count_unused xs ≡ length xs
  unfolding count_unused used_count
  used-unused [] = refl
  used-unused (x ∷ xs) = ground (arith, used-unused xs)

  pub get_elem?-lt :
      (xs : List (Slot E)) (i : ℕ) (y : Slot E) → get_elem? xs i ≡ some y → i < length xs
  get_elem?-lt [] i y h = cc
  get_elem?-lt (x ∷ xs) zero y h = omega arith
  get_elem?-lt (x ∷ xs) (suc i) y h = omega (arith, get_elem?-lt xs i y h)

module _ {E : Type 0} (m : MType E) where
  pub count-append :
      (q : E) (xs ys : List (Slot E)) → count m q (xs ++ ys) ≡ count m q xs + count m q ys
  unfolding count
  count-append q [] ys = omega arith
  count-append q (x ∷ xs) ys = omega (arith, count-append q xs ys)

  pub count-set :
      (q : E) (xs : List (Slot E)) (i : ℕ) (x y : Slot E)
      → get_elem? xs i ≡ some y
      → count m q (set xs i x) + to_nat (hits m q y) ≡ count m q xs + to_nat (hits m q x)
  unfolding count
  count-set q [] i x y h = cc
  count-set q (z ∷ xs) zero x y h = ground arith
  count-set q (z ∷ xs) (suc i) x y h = omega (arith, count-set q xs i x y h)

  pub count-used_slots : (q : E) (xs : List (Slot E)) → count m q (used_slots xs) ≡ count m q xs
  unfolding used_slots count
  count-used_slots q [] = refl
  count-used_slots q (x ∷ xs) = ground (arith, count-used_slots q xs)

  pub hits-le-count :
      (q : E) (xs : List (Slot E)) (i : ℕ) (y : Slot E)
      → get_elem? xs i ≡ some y
      → to_nat (hits m q y) ≤ count m q xs
  unfolding count
  hits-le-count q [] i y h = cc
  hits-le-count q (x ∷ xs) zero y h = ground arith
  hits-le-count q (x ∷ xs) (suc i) y h = omega (arith, hits-le-count q xs i y h)

  -- two different elements are not equal to one
  pub equal_apart :
      (a b c : E) → m.data_equal a b ≡ true → m.data_equal c b ≡ false → m.data_equal c a ≡ false
  equal_apart a b c h n = rw ((m.data_equal_iff a b).0 h) n

  module _ (k : Kernel) (exts : Extensions) where
    pub find_live-append :
        (q : E) (xs ys : List (Slot E))
        → count m q xs ≡ 0
        → find_live m k exts q (xs ++ ys) ≡ find_live m k exts q ys
    unfolding count find_live
    find_live-append q [] ys h = refl
    find_live-append q (x ∷ xs) ys h = ground (arith, find_live-append q xs ys)

    pub find_live-append_none :
        (q : E) (xs ys : List (Slot E))
        → count m q ys ≡ 0
        → find_live m k exts q (xs ++ ys) ≡ find_live m k exts q xs
    unfolding count find_live
    find_live-append_none q [] [] h = refl
    find_live-append_none q [] (y ∷ ys) h = ground (arith, find_live-append_none q [] ys)
    find_live-append_none q (x ∷ xs) ys h = ground (arith, find_live-append_none q xs ys)

    pub find_live-eq-none :
        (q : E) (xs : List (Slot E)) → count m q xs ≡ 0 → find_live m k exts q xs ≡ none
    unfolding count find_live
    find_live-eq-none q [] h = refl
    find_live-eq-none q (x ∷ xs) h = ground (arith, find_live-eq-none q xs)

    -- a write that neither removes nor makes a live slot of `q`
    pub find_live-set_other :
        (q : E) (xs : List (Slot E)) (i : ℕ) (x y : Slot E)
        → get_elem? xs i ≡ some y
        → is_live m k exts q y ≡ false
        → is_live m k exts q x ≡ false
        → find_live m k exts q (set xs i x) ≡ find_live m k exts q xs
    unfolding find_live
    find_live-set_other q [] i x y h hy hx = cc
    find_live-set_other q (z ∷ xs) zero x y h hy hx = ground arith
    find_live-set_other q (z ∷ xs) (suc i) x y h hy hx =
        ground (arith, find_live-set_other q xs i x y h hy hx)

    -- a write at the only slot that may hold `q`
    pub find_live-set_self :
        (q : E) (xs : List (Slot E)) (i : ℕ) (x y : Slot E)
        → get_elem? xs i ≡ some y
        → count m q xs ≡ to_nat (hits m q y)
        → find_live m k exts q (set xs i x) ≡ (if is_live m k exts q x then some x.ext else none)
    unfolding find_live count
    find_live-set_self q [] i x y h c = cc
    find_live-set_self q (z ∷ xs) zero x y h c = ground (arith, find_live-eq-none q xs)
    find_live-set_self q (z ∷ xs) (suc i) x y h c =
        ground (arith, find_live-set_self q xs i x y h, hits-le-count q xs i y h)

    pub find_live-used_slots :
        (q : E) (xs : List (Slot E))
        → find_live m k exts q (used_slots xs) ≡ find_live m k exts q xs
    unfolding find_live used_slots
    find_live-used_slots q [] = refl
    find_live-used_slots q (x ∷ xs) = ground (arith, find_live-used_slots q xs)
