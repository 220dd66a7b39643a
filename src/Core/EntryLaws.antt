-- ===== src/Core/EntryLaws.antt =====
-- The entries of the array of sets after one is replaced, after the array grows, after all change.
use dset.Core.Sets.{DomainSet, set_at}
use dset.Prelude.{
  ℕ, zero, suc, ◌+◌, ◌≡◌, refl, sym, ap, ◌⊎◌, inl, inr, Option, none, some, List, [], ◌∷◌, ◌++◌,
  replicate, get_or-replicate, set, take, arith, ◌<◌, length, map,
}

pub at_offset : (i o : ℕ) → i ≡ 0 + o → i ≡ o
at_offset i o e = omega arith

pub take-take : (n : ℕ) (xs : List ℕ) → take n (take n xs) ≡ take n xs
take-take zero xs = refl
take-take (suc n) [] = refl
take-take (suc n) (x ∷ xs) = ap (◌∷◌ x) (take-take n xs)

module _ {D : Type 0} where
  -- an entry after one was replaced
  pub set_at-set :
      (sets : List (Option (DomainSet D))) (i : ℕ) (v : Option (DomainSet D)) (j : ℕ)
      → (set_at (set sets i v) j ≡ set_at sets j) ⊎ ((i ≡ j) × (set_at (set sets i v) j ≡ v))
  set_at-set [] i v j = inl refl
  set_at-set (x ∷ xs) zero v zero = inr (refl, refl)
  set_at-set (x ∷ xs) zero v (suc j) = inl refl
  set_at-set (x ∷ xs) (suc i) v zero = inl refl
  set_at-set (x ∷ xs) (suc i) v (suc j) = elim (set_at-set xs i v j) [
    | inl e ↦ inl e
    | inr (e, e') ↦ inr (ap suc e, e')
  ]

  pub set_at-grow :
      (sets : List (Option (DomainSet D))) (n j : ℕ)
      → set_at (sets ++ replicate n none) j ≡ set_at sets j
  set_at-grow [] n j = get_or-replicate n j none
  set_at-grow (x ∷ xs) n zero = refl
  set_at-grow (x ∷ xs) n (suc j) = set_at-grow xs n j

  pub set_at-map :
      (f : Option (DomainSet D) → Option (DomainSet D)) (sets : List (Option (DomainSet D))) (j : ℕ)
      → f none ≡ none
      → set_at (map f sets) j ≡ f (set_at sets j)
  set_at-map f [] j e = sym e
  set_at-map f (x ∷ xs) zero e = refl
  set_at-map f (x ∷ xs) (suc j) e = set_at-map f xs j e

  pub set_at-some-lt :
      (sets : List (Option (DomainSet D))) (j : ℕ) (s : DomainSet D)
      → set_at sets j ≡ some s
      → j < length sets
  set_at-some-lt [] j s e = cc
  set_at-some-lt (x ∷ xs) zero s e = omega arith
  set_at-some-lt (x ∷ xs) (suc j) s e = omega (arith, set_at-some-lt xs j s e)
