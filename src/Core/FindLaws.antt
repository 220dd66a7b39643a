-- ===== src/Core/FindLaws.antt =====
-- The loops over the array of sets find what they look for (`find_set_and_id`, `find_free_id` and
-- the loop of `domain_set_rename`).
use dset.Core.Commands.{any_named}
use dset.Core.Sets.{
  DomainSet, Net, set_at, names_set, find_from, find_set_and_id, FreeId, free, clash, no_room,
  or_index, find_free,
}
use dset.Core.Types.{name_eq}
use dset.Domain.Text.{text_eq_iff}
use dset.Prelude.{
  ◌∙◌, ◌⊎◌, inl, inr, ℕ, zero, suc, ◌+◌, ◌<◌, ◌≡◌, ◌↔◌, refl, true, false, Option, none, some, List,
  [], ◌∷◌, length, if_cases, take, arith,
}
use dset.Uapi.{max_name_len}

pub name_eq_iff :
    (a b : List ℕ) → (name_eq a b ≡ true) ↔ (take max_name_len a ≡ take max_name_len b)
name_eq_iff a b = text_eq_iff (take max_name_len a) (take max_name_len b)

name_eq_sym : (a b : List ℕ) → name_eq a b ≡ name_eq b a
name_eq_sym a b = ground (arith, name_eq_iff a b, name_eq_iff b a)

module _ {D : Type 0} where
  -- no set of the array has the name
  abbrev pub IsFree : List ℕ → List (Option (DomainSet D)) → Type 0
  IsFree name sets = (i : ℕ) → names_set name (set_at sets i) ≡ false

  -- what a search from index `i` on finds
  abbrev pub Finds : List ℕ → ℕ → List (Option (DomainSet D)) → Option (ℕ × DomainSet D) → Type 0
  Finds name i sets none = IsFree name sets
  Finds name i sets (some (j, s)) =
      (o : ℕ) × (j ≡ i + o) × (set_at sets o ≡ some s) × (name_eq s.name name ≡ true)

  IsFree-cons :
      (name : List ℕ) (o : Option (DomainSet D)) (rest : List (Option (DomainSet D)))
      → names_set name o ≡ false
      → IsFree name rest
      → IsFree name (o ∷ rest)
  IsFree-cons name o rest n h zero = n
  IsFree-cons name o rest n h (suc t) = h t

  Finds-skip :
      (name : List ℕ) (i : ℕ) (o : Option (DomainSet D)) (rest : List (Option (DomainSet D)))
      → names_set name o ≡ false
      → (r : Option (ℕ × DomainSet D)) → Finds name (suc i) rest r
      → Finds name i (o ∷ rest) r
  Finds-skip name i o rest n none h = IsFree-cons name o rest n h
  Finds-skip name i o rest n (some (j, s)) (t, e, at, eq) = (suc t, omega arith, at, eq)

  find_from-Finds :
      (name : List ℕ) (i : ℕ) (sets : List (Option (DomainSet D)))
      → Finds name i sets (find_from name i sets)
  unfolding find_from
  find_from-Finds name i [] = λ t. refl
  find_from-Finds name i (none ∷ rest) =
      Finds-skip name i none rest refl _ (find_from-Finds name (suc i) rest)
  find_from-Finds name i (some s ∷ rest) =
      let later = find_from-Finds name (suc i) rest in
      if_cases (Finds name i (some s ∷ rest)) (name_eq s.name name) (λ h. (0, omega arith, refl, h))
        (λ h. Finds-skip name i (some s) rest h _ later)

  pub find_set_and_id-Finds :
      (inst : Net D) (name : List ℕ) → Finds name 0 inst.sets (find_set_and_id inst name)
  unfolding find_set_and_id
  find_set_and_id-Finds inst name = find_from-Finds name 0 inst.sets

  pub any_named-IsFree :
      (name : List ℕ) (sets : List (Option (DomainSet D)))
      → any_named name sets ≡ false
      → IsFree name sets
  unfolding any_named
  any_named-IsFree name [] h t = refl
  any_named-IsFree name (o ∷ rest) h zero = ground arith
  any_named-IsFree name (o ∷ rest) h (suc t) = any_named-IsFree name rest (ground arith) t

  -- what `find_free_id` picks from index `i` on, `index` being the first free index before
  abbrev pub Picks : List ℕ → ℕ → Option ℕ → List (Option (DomainSet D)) → FreeId D → Type 0
  Picks name i index sets (free f) =
      IsFree name sets
      × ((index ≡ some f)
          ⊎ ((index ≡ none) × (o : ℕ) × (f ≡ i + o) × (set_at sets o ≡ none) × (o < length sets)))
  Picks name i index sets (clash s) =
      (o : ℕ) × (set_at sets o ≡ some s) × (name_eq s.name name ≡ true)
  Picks name i index sets no_room = IsFree name sets × (index ≡ none)

  Picks-skip :
      (name : List ℕ) (i : ℕ) (index : Option ℕ) (o : Option (DomainSet D))
      (rest : List (Option (DomainSet D)))
      → names_set name o ≡ false
      → (r : FreeId D) → Picks name (suc i) index rest r
      → Picks name i index (o ∷ rest) r
  Picks-skip name i index o rest n (free f) (h, inl e) = (IsFree-cons name o rest n h, inl e)
  Picks-skip name i index o rest n (free f) (h, inr (e, t, is, at, lt)) =
      (IsFree-cons name o rest n h, inr (e, suc t, omega arith, at, omega arith))
  Picks-skip name i index o rest n (clash s) (t, at, eq) = (suc t, at, eq)
  Picks-skip name i index o rest n no_room (h, e) = (IsFree-cons name o rest n h, e)

  Picks-here :
      (name : List ℕ) (i : ℕ) (index : Option ℕ) (rest : List (Option (DomainSet D))) (r : FreeId D)
      → Picks name (suc i) (or_index index i) rest r
      → Picks name i index (none ∷ rest) r
  Picks-here name i none rest (free f) (h, inl e) =
      (IsFree-cons name none rest refl h, inr (refl, 0, ground arith, refl, omega arith))
  Picks-here name i none rest (free f) (h, inr (e, t, is, at, lt)) = cc
  Picks-here name i none rest (clash s) h = Picks-skip name i none none rest refl (clash s) h
  Picks-here name i none rest no_room (h, e) = cc
  Picks-here name i (some j) rest r h = Picks-skip name i (some j) none rest refl r h

  pub find_free-Picks :
      (name : List ℕ) (i : ℕ) (index : Option ℕ) (sets : List (Option (DomainSet D)))
      → Picks name i index sets (find_free name i index sets)
  unfolding find_free
  find_free-Picks name i none [] = (λ t. refl, refl)
  find_free-Picks name i (some f) [] = (λ t. refl, inl refl)
  find_free-Picks name i index (none ∷ rest) =
      Picks-here name i index rest _ (find_free-Picks name (suc i) (or_index index i) rest)
  find_free-Picks name i index (some s ∷ rest) =
      let later = find_free-Picks name (suc i) index rest in
      if_cases (Picks name i index (some s ∷ rest)) (name_eq name s.name)
        (λ h. (0, refl, name_eq_sym s.name name ∙ h))
        (λ h. Picks-skip name i index (some s) rest (name_eq_sym s.name name ∙ h) _ later)
