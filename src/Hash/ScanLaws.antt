-- ===== src/Hash/ScanLaws.antt =====
-- How the loop of `mtype_add` over the positions of a bucket can end.
use mathlib.Core.Path.{subst}
use dset.Ext.{Extensions}
use dset.Hash.Add.{Scan, overwrite, refused, scanned, or_first, scan}
use dset.Hash.Defs.{MType, Slot}
use dset.Hash.Slots.{slot_expired}
use dset.Hash.View.{hits, count, find_live}
use dset.Kernel.{Kernel}
use dset.Prelude.{
  ℕ, zero, suc, ◌+◌, ◌≡◌, refl, ◌≢◌, inl, inr, Bool, true, false, not, ◌||◌, Option, none, some,
  List, [], ◌∷◌, if◌then◌else◌, get_elem?, Bool-cases, if_cases, arith,
}

module _ {E : Type 0} (m : MType E) (k : Kernel) (exts : Extensions) where
  -- position `i`, counted from `base`, is free (`deleted`) or holds an expired element
  abbrev pub Reusable : List (Slot E) → ℕ → ℕ × Bool → Type 0
  Reusable xs base (i, deleted) =
      (o : ℕ) × (y : Slot E) × (i ≡ base + o)
      × (get_elem? xs o ≡ some y)
      × (y.used ≡ not deleted)
      × ((deleted || slot_expired k exts y) ≡ true)

  abbrev pub Picked : List (Slot E) → ℕ → Option (ℕ × Bool) → Option (ℕ × Bool) → Type 0
  Picked xs base (some p) j = j ≡ some p
  Picked xs base none (some p) = Reusable xs base p
  Picked xs base none none =
      (o : ℕ) (y : Slot E)
      → get_elem? xs o ≡ some y
      → (y.used ≡ true) × (slot_expired k exts y ≡ false)

  module _ (d : E) (flag_exist : Bool) where
    abbrev pub Ends : List (Slot E) → ℕ → Option (ℕ × Bool) → Scan → Type 0
    Ends xs base j (overwrite i) =
        (o : ℕ) × (y : Slot E) × (i ≡ base + o)
        × (get_elem? xs o ≡ some y)
        × (hits m d y ≡ true)
        × ((flag_exist || slot_expired k exts y) ≡ true)
    Ends xs base j refused = (flag_exist ≡ false) × (find_live m k exts d xs ≢ none)
    Ends xs base j (scanned j') = (count m d xs ≡ 0) × Picked xs base j j'

    abbrev next_pick : Slot E → ℕ → Option (ℕ × Bool) → Option (ℕ × Bool)
    next_pick x base j =
        if x.used
        then if slot_expired k exts x then or_first j (base, false) else j
        else or_first j (base, true)

    -- the first position is not reusable: what is found stands further on
    Picked-later :
        (x : Slot E) (xs : List (Slot E)) (base : ℕ) (j' : Option (ℕ × Bool))
        → x.used ≡ true
        → slot_expired k exts x ≡ false
        → Picked xs (suc base) none j'
        → Picked (x ∷ xs) base none j'
    Picked-later x xs base none u n h = λ o y. go o y
      where
        go :
            (o : ℕ) (y : Slot E)
            → get_elem? (x ∷ xs) o ≡ some y
            → (y.used ≡ true) × (slot_expired k exts y ≡ false)
        go zero y at = ground arith
        go (suc o) y at = h o y at
    Picked-later x xs base (some p) u n (o, y, e, at, free, r) =
        (suc o, y, omega arith, at, free, r)

    Picked-here :
        (x : Slot E) (xs : List (Slot E)) (base : ℕ) (deleted : Bool) (j' : Option (ℕ × Bool))
        → x.used ≡ not deleted
        → (deleted || slot_expired k exts x) ≡ true
        → j' ≡ some (base, deleted)
        → Picked (x ∷ xs) base none j'
    Picked-here x xs base deleted j' u r e = rw e (0, x, omega arith, refl, u, r)

    Picked-cons :
        (x : Slot E) (xs : List (Slot E)) (base : ℕ) (j j' : Option (ℕ × Bool))
        → Picked xs (suc base) (next_pick x base j) j'
        → Picked (x ∷ xs) base j j'
    Picked-cons x xs base (some p) j' = λ h. ground arith
    Picked-cons x xs base none j' = λ h.
        let with_pick : (p : Option (ℕ × Bool))
            → next_pick x base none ≡ p
            → Picked xs (suc base) p j' =
          λ p e. subst (λ t. Picked xs (suc base) t j') e h in
        elim (Bool-cases x.used) [
          | inr free ↦
              Picked-here x xs base true j' free refl (with_pick (some (base, true)) (ground arith))
          | inl used ↦ elim (Bool-cases (slot_expired k exts x)) [
            | inl old ↦
                Picked-here x xs base false j' used old
                  (with_pick (some (base, false)) (ground arith))
            | inr young ↦ Picked-later x xs base j' used young (with_pick none (ground arith))
          ]
        ]

    Ends-cons :
        (x : Slot E) (xs : List (Slot E)) (base : ℕ) (j : Option (ℕ × Bool)) (r : Scan)
        → hits m d x ≡ false
        → Ends xs (suc base) (next_pick x base j) r
        → Ends (x ∷ xs) base j r
    unfolding count find_live
    Ends-cons x xs base j (overwrite i) miss (o, y, e, at, hit, free) =
        (suc o, y, omega arith, at, hit, free)
    Ends-cons x xs base j refused miss h = (h.0, λ e. h.1 (ground arith))
    Ends-cons x xs base j (scanned j') miss h = (ground arith, Picked-cons x xs base j j' h.1)

    pub scan-Ends :
        (xs : List (Slot E)) (base : ℕ) (j : Option (ℕ × Bool))
        → Ends xs base j (scan m k exts d flag_exist base j xs)
    unfolding scan count find_live
    scan-Ends [] base none = (refl, λ o y at. cc)
    scan-Ends [] base (some p) = (refl, refl)
    scan-Ends (x ∷ xs) base j = elim (Bool-cases (hits m d x)) [
      | inl hit ↦ rw hit (
          if_cases (Ends (x ∷ xs) base j) (flag_exist || slot_expired k exts x)
            (λ e. (0, x, omega arith, refl, hit, e)) (λ e. (ground arith, λ f. ground arith)))
      | inr miss ↦
          rw miss (Ends-cons x xs base j _ miss (scan-Ends xs (suc base) (next_pick x base j)))
    ]
