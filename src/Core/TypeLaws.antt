-- ===== src/Core/TypeLaws.antt =====
-- The registered set types: `domain_set_type_register`, `domain_set_type_unregister` and the
-- revisions of `__find_set_type_minmax`.
use dset.Core.Types.{
  SetType, is_kind, find_set_type, MinMax, widen, minmax_loop, find_set_type_minmax, type_register,
  list_del, type_unregister, name_eq,
}
use dset.Domain.Text.{text_eq, text_eq_refl}
use dset.Prelude.{
  Option-cases, Bool-cases, Bool, false, sym, ltb, ◌⊎◌, inl, inr, ℕ, ◌≤◌, ◌≡◌, refl, true, not,
  none, some, List, [], ◌∷◌, ◌==◌, All, take, arith, if_cases, if◌then◌else◌,
}
use mathlib.Core.List.{Mem, mem-cons_self, mem-cons_of_mem}
use mathlib.Core.Path.{subst}
use dset.Uapi.{Status, ok, err, fault, Errno, protocol_version, max_name_len}

-- the reached range holds the range of every type of this name and family
abbrev pub Covers : List ℕ → ℕ → MinMax → SetType → Type 0
Covers name family r t =
    is_kind name family t ≡ true
    → (r.least ≤ t.revision_min) × (t.revision_max ≤ r.greatest) × (r.any ≡ true)

module _ (name : List ℕ) (family : ℕ) where
  -- the range only grows
  minmax_loop-grows :
      (ts : List SetType) (r : MinMax)
      → let r' = minmax_loop ts name family r in
        (r'.least ≤ r.least) × (r.greatest ≤ r'.greatest) × (r.any ≡ true → r'.any ≡ true)
  unfolding minmax_loop widen
  minmax_loop-grows [] r = (omega arith, omega arith, λ h. h)
  minmax_loop-grows (t ∷ ts) r =
      let later = minmax_loop-grows ts (if is_kind name family t then widen t r else r) in
      ground arith

  minmax_loop-Covers :
      (ts : List SetType) (r : MinMax) → All (Covers name family (minmax_loop ts name family r)) ts
  unfolding minmax_loop widen
  minmax_loop-Covers [] r = tt
  minmax_loop-Covers (t ∷ ts) r =
      let r' = if is_kind name family t then widen t r else r in
      let later = minmax_loop-grows ts r' in (λ h. ground arith, minmax_loop-Covers ts r')

-- a type of the list, of this name and family, has the bound
abbrev pub IsBound : List ℕ → ℕ → List SetType → (SetType → ℕ) → ℕ → Type 0
IsBound name family ts bound n =
    (t : SetType) × Mem t ts × (is_kind name family t ≡ true) × (n ≡ bound t)

-- The range holds all types of this name and family, and is not larger: its ends are bounds of such
-- types, if not 255 and 0, the ends of an empty range; and a type was found if it is said so.
abbrev pub Spans : List ℕ → ℕ → List SetType → MinMax → Type 0
Spans name family ts r =
    All (Covers name family r) ts
    × ((r.least ≡ 255) ⊎ IsBound name family ts (λ t. t.revision_min) r.least)
    × ((r.greatest ≡ 0) ⊎ IsBound name family ts (λ t. t.revision_max) r.greatest)
    × ((r.any ≡ false) ⊎ ((t : SetType) × Mem t ts × (is_kind name family t ≡ true)))

module _ (name : List ℕ) (family : ℕ) (full : List SetType) where
  -- a bound that the loop reaches is the one before it or that of a type of the list
  abbrev Reached : (SetType → ℕ) → ℕ → ℕ → Type 0
  Reached bound n n' = (n' ≡ n) ⊎ IsBound name family full bound n'

  Reached-trans :
      (bound : SetType → ℕ) (a b c : ℕ) → Reached bound a b → Reached bound b c → Reached bound a c
  Reached-trans bound a b c h (inr t) = inr t
  Reached-trans bound a b c h (inl e) = subst (Reached bound a) (sym e) h

  -- no type was found, or there is one
  abbrev Seen : Bool → Type 0
  Seen any = (any ≡ false) ⊎ ((t : SetType) × Mem t full × (is_kind name family t ≡ true))

  minmax_loop-Reached :
      (ts : List SetType) (r : MinMax)
      → ((t : SetType) → Mem t ts → Mem t full)
      → Seen r.any
      → let r' = minmax_loop ts name family r in
        Reached (λ t. t.revision_min) r.least r'.least
        × Reached (λ t. t.revision_max) r.greatest r'.greatest
        × Seen r'.any
  unfolding minmax_loop widen
  minmax_loop-Reached [] r sub seen = (inl refl, inl refl, seen)
  minmax_loop-Reached (t ∷ ts) r sub seen = elim (Bool-cases (is_kind name family t)) [
    | inr other ↦
        rw (other, minmax_loop) (minmax_loop-Reached ts r (λ u m. sub u (mem-cons_of_mem t m)) seen)
    | inl is ↦
        let here : Mem t full = sub t mem-cons_self in
        let (low, high, found) =
          minmax_loop-Reached ts (widen t r) (λ u m. sub u (mem-cons_of_mem t m))
            (inr (t, here, is)) in
        rw (is, minmax_loop)
          (
            Reached-trans (λ u. u.revision_min) r.least (widen t r).least _ (lower here is) low,
            Reached-trans (λ u. u.revision_max) r.greatest (widen t r).greatest _ (higher here is)
                high,
            found,
          )
  ]
    where
      lower :
          Mem t full
          → is_kind name family t ≡ true
          → Reached (λ u. u.revision_min) r.least (widen t r).least
      lower here is =
          if_cases (Reached (λ u. u.revision_min) r.least) (ltb t.revision_min r.least)
            (λ _. inr (t, here, is, refl)) (λ _. inl refl)

      higher :
          Mem t full
          → is_kind name family t ≡ true
          → Reached (λ u. u.revision_max) r.greatest (widen t r).greatest
      higher here is =
          if_cases (Reached (λ u. u.revision_max) r.greatest) (ltb r.greatest t.revision_max)
            (λ _. inr (t, here, is, refl)) (λ _. inl refl)

-- The range of revisions that `__find_set_type_minmax` computes: it holds the range of every registered
-- type of the name and family; its least revision is the least of one of them, or 255, and its
-- greatest the greatest of one of them, or 0; and the types are said to be there exactly if there is one.
pub find_set_type_minmax-Spans :
    (ts : List SetType) (name : List ℕ) (family : ℕ)
    → Spans name family ts (find_set_type_minmax ts name family)
unfolding find_set_type_minmax
find_set_type_minmax-Spans ts name family =
    let start : MinMax = record { least = 255; greatest = 0; any = false } in
    let (low, high, seen) = minmax_loop-Reached name family ts ts start (λ t m. m) (inl refl) in
    (minmax_loop-Covers name family ts start, low, high, seen)

-- what registering a type does
abbrev pub Registered : SetType → List SetType → Status × List SetType → Type 0
Registered t ts (ok, ts') =
    (find_set_type ts t.name t.family t.revision_min ≡ none)
    × (find_set_type ts' t.name t.family t.revision_min ≡ some t)
    × (type_unregister t ts' ≡ ts)
Registered t ts (err e, ts') = (e ≡ Errno.einval) × (ts' ≡ ts)
Registered t ts (fault f, ts') = ⊥

-- A type whose range of revisions is not empty: if it registers it was not there, is found afterwards, and unregistering it restores the list
-- of types; a refusal is EINVAL and leaves the list.
pub register-Registered :
    (t : SetType) (ts : List SetType)
    → t.revision_min ≤ t.revision_max
    → Registered t ts (type_register t ts)
unfolding type_register find_set_type text_eq
register-Registered t ts range =
    if_cases (Registered t ts) (not (t.protocol == protocol_version)) (λ _. (refl, refl))
      (λ _. elim (Option-cases (find_set_type ts t.name t.family t.revision_min)) [
        | inl absent ↦ rw absent (absent, here, unregistered)
        | inr (u, e) ↦ rw e (refl, refl)
      ])
  where
    named : name_eq t.name t.name ≡ true
    named = text_eq_refl (take max_name_len t.name)

    here : find_set_type (t ∷ ts) t.name t.family t.revision_min ≡ some t
    here = unfold find_set_type is_kind in ground (arith, named)

    unregistered : type_unregister t (t ∷ ts) ≡ ts
    unregistered = unfold type_unregister in rw here (unfold list_del in ground arith)
