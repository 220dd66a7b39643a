-- ===== src/Core/NameLaws.antt =====
-- The names of the sets are unique: what may be done to the array so that this stays.
use dset.Core.EntryLaws.{take-take, set_at-set}
use dset.Core.FindLaws.{name_eq_iff, IsFree}
use dset.Core.Sets.{DomainSet, Net, set_at, names_set}
use dset.Core.Types.{name_eq}
use dset.Prelude.{
  ℕ, zero, suc, ◌≡◌, refl, ◌∙◌, sym, ap, true, false, Option, none, some, List, [], ◌∷◌, replicate,
  take, arith, set, map, inl, inr, get_or-replicate,
}
use dset.Uapi.{Status, max_name_len}
use mathlib.Core.Path.{subst}

abbrev Sets : Type 0 → Type 0
Sets D = List (Option (DomainSet D))

module _ {D : Type 0} where
  -- two sets of the array that answer to one name are the same
  abbrev pub IsNamed : List (Option (DomainSet D)) → Type 0
  IsNamed sets =
      (name : List ℕ) (i j : ℕ)
      → names_set name (set_at sets i) ≡ true
      → names_set name (set_at sets j) ≡ true
      → i ≡ j

  -- arrays whose entries answer to the same names
  pub IsNamed-congr :
      (sets sets' : Sets D)
      → ((name : List ℕ) (j : ℕ) → names_set name (set_at sets' j) ≡ names_set name (set_at sets j))
      → IsNamed sets
      → IsNamed sets'
  IsNamed-congr sets sets' same named name i j hi hj =
      named name i j (sym (same name i) ∙ hi) (sym (same name j) ∙ hj)

  -- an entry may be replaced by one that answers to no name of another entry
  pub set-IsNamed :
      (sets : Sets D) (i : ℕ) (v : Option (DomainSet D))
      → IsNamed sets
      → ((name : List ℕ) (j : ℕ)
          → names_set name v ≡ true
          → names_set name (set_at sets j) ≡ true
          → i ≡ j)
      → IsNamed (set sets i v)
  set-IsNamed sets i v named fresh name a b ha hb = elim (set_at-set sets i v a) [
    | inl ea ↦ elim (set_at-set sets i v b) [
      | inl eb ↦ named name a b (to_old ea ha) (to_old eb hb)
      | inr (e, eb) ↦ sym (fresh name a (to_old eb hb) (to_old ea ha)) ∙ e
    ]
    | inr (e, ea) ↦ elim (set_at-set sets i v b) [
      | inl eb ↦ sym e ∙ fresh name b (to_old ea ha) (to_old eb hb)
      | inr (e', eb) ↦ sym e ∙ e'
    ]
  ]
    where
      to_old :
          {x y : Option (DomainSet D)} → x ≡ y → names_set name x ≡ true → names_set name y ≡ true
      to_old e h = subst (λ o. names_set name o ≡ true) e h

  -- the names that a set answers to, in an array where its name is free
  fresh_name :
      (sets : Sets D) (s : DomainSet D) (name : List ℕ) (j : ℕ)
      → IsFree s.name sets
      → name_eq s.name name ≡ true
      → names_set name (set_at sets j) ≡ true
      → ⊥
  fresh_name sets s name j free_name h g = go (set_at sets j) (free_name j) g
    where
      go : (o : Option (DomainSet D)) → names_set s.name o ≡ false → names_set name o ≡ true → ⊥
      go none n y = cc
      go (some t) n y =
          ground
            (arith, name_eq_iff s.name name, name_eq_iff t.name name, name_eq_iff t.name s.name)

  pub place-IsNamed :
      (sets : Sets D) (i : ℕ) (s : DomainSet D)
      → IsNamed sets
      → IsFree s.name sets
      → IsNamed (set sets i (some s))
  place-IsNamed sets i s named free_name =
      set-IsNamed sets i (some s) named
        (λ name j h g. absurd (fresh_name sets s name j free_name h g))

  pub clear-IsNamed : (sets : Sets D) (i : ℕ) → IsNamed sets → IsNamed (set sets i none)
  clear-IsNamed sets i named = set-IsNamed sets i none named (λ name j h g. cc)

  pub all_clear-IsNamed : (sets : Sets D) → IsNamed (map (λ _. none) sets)
  all_clear-IsNamed sets name i j h g = absurd (empty sets i h)
    where
      empty :
          (xs : Sets D) (i : ℕ) → names_set {D = D} name (set_at (map (λ _. none) xs) i) ≡ true → ⊥
      empty [] i h = cc
      empty (x ∷ xs) zero h = cc
      empty (x ∷ xs) (suc i) h = empty xs i h

  -- a name of 32 bytes at most is what a lookup compares
  pub cut_IsFree :
      (name : List ℕ) (sets : Sets D) → IsFree name sets → IsFree (take max_name_len name) sets
  cut_IsFree name sets h i = go (set_at sets i) (h i)
    where
      go :
          (o : Option (DomainSet D))
          → names_set name o ≡ false
          → names_set (take max_name_len name) o ≡ false
      go none n = refl
      go (some t) n = rw (take-take max_name_len name) n

  -- two entries change places and keep the names of the places
  pub swap-names :
      (sets : Sets D) (i j : ℕ) (x y from to : DomainSet D)
      → set_at sets i ≡ some from
      → set_at sets j ≡ some to
      → x.name ≡ from.name
      → y.name ≡ to.name
      → (name : List ℕ) (l : ℕ)
      → names_set name (set_at (set (set sets i (some x)) j (some y)) l)
        ≡ names_set name (set_at sets l)
  swap-names sets i j x y from to at at' ex ey name l =
      elim (set_at-set (set sets i (some x)) j (some y) l) [
        | inr (e, e') ↦
            ap (names_set name) e'
            ∙ ap (λ n. name_eq n name) ey
            ∙ ap (names_set name) (sym at' ∙ ap (set_at sets) e)
        | inl e ↦ ap (names_set name) e ∙ first
      ]
    where
      first : names_set name (set_at (set sets i (some x)) l) ≡ names_set name (set_at sets l)
      first = elim (set_at-set sets i (some x) l) [
        | inr (e, e') ↦
            ap (names_set name) e'
            ∙ ap (λ n. name_eq n name) ex
            ∙ ap (names_set name) (sym at ∙ ap (set_at sets) e)
        | inl e ↦ ap (names_set name) e
      ]

  abbrev pub Named : Status × Net D → Type 0
  Named (r, inst) = IsNamed inst.sets

-- the array that `domain_set_net_init` makes
pub none-IsNamed : (D : Type 0) (n : ℕ) → IsNamed {D = D} (replicate n none)
none-IsNamed D n q i j h g =
    let empty : set_at (replicate n none) i ≡ none =
      get_or-replicate {A = Option (DomainSet D)} n i none in
    let never : false ≡ true = ap (names_set q) (sym empty) ∙ h in cc
