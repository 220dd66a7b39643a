-- ===== src/Core/SwapLaws.antt =====
-- What swap does to the array of sets, on every branch (`domain_set_swap`).
use mathlib.Core.Path.{subst}
use dset.Core.Commands.{protocol_min_failed, swap_sets, swap_found, swap_both, swap}
use dset.Core.EntryLaws.{at_offset, set_at-set, set_at-some-lt}
use dset.Core.FindLaws.{Finds, find_set_and_id-Finds}
use dset.Core.Sets.{DomainSet, Net, set_at, find_set_and_id}
use dset.Prelude.{
  ℕ, ◌≡◌, ◌≢◌, refl, sym, ap, ◌∙◌, inl, inr, not, ◌&&◌, ◌||◌, ◌==◌, Option, none, some, List, set,
  if_cases, arith, get_or-set_self, get_or-set_ne, length-set, length, ◌<◌,
}
use dset.Uapi.{Status, ok, err, fault}

module _ {D : Type 0} where
  -- a set with the name and the references of another
  abbrev pub in_place_of : DomainSet D → DomainSet D → DomainSet D
  in_place_of s old = record s { name = old.name; ref = old.ref }

  module _ (inst : Net D) where
    abbrev pub Swapped : List ℕ → List ℕ → Status × Net D → Type 0
    Swapped a b (ok, inst') =
        (i : ℕ) × (from : DomainSet D) × (j : ℕ) × (to : DomainSet D) × (find_set_and_id inst a
          ≡ some (i, from))
        × (find_set_and_id inst b ≡ some (j, to))
        × (set_at inst'.sets i ≡ some (in_place_of to from))
        × (set_at inst'.sets j ≡ some (in_place_of from to))
        × ((l : ℕ) → i ≢ l → j ≢ l → set_at inst'.sets l ≡ set_at inst.sets l)
    Swapped a b (err e, inst') = inst' ≡ inst
    Swapped a b (fault f, inst') = ⊥

    -- the first place after both are written, also if it is the second
    first_place :
        (i j : ℕ) (from to : DomainSet D)
        → set_at inst.sets i ≡ some from
        → set_at inst.sets j ≡ some to
        → set_at
            (set (set inst.sets i (some (in_place_of to from))) j (some (in_place_of from to)))
            i
          ≡ some (in_place_of to from)
    first_place i j from to at at' =
        elim (set_at-set (set inst.sets i (some (in_place_of to from))) j
          (some (in_place_of from to)) i) [
            | inl e ↦ e ∙ get_or-set_self inst.sets i _ none (set_at-some-lt inst.sets i from at)
            | inr (here, e) ↦
                let found : some from ≡ some to = sym at ∙ ap (set_at inst.sets) (sym here) ∙ at' in
                let same : from ≡ to = cc in
                e ∙ subst (λ t. some (in_place_of from t) ≡ some (in_place_of t from)) same refl
          ]

    -- Swapping two sets exchanges what their places hold, while the name and the number of
    -- references stay with the place; every other entry is as it was, and on an error nothing
    -- changes.
    pub swap-Swapped :
        (protocol : Option ℕ) (a b : List ℕ) → Swapped a b (swap inst protocol (some a) (some b))
    unfolding swap swap_both swap_found swap_sets
    swap-Swapped protocol a b =
        if_cases (Swapped a b) (protocol_min_failed protocol) (λ _. refl)
          (λ _. found _ _ (find_set_and_id-Finds inst a) (find_set_and_id-Finds inst b) refl refl)
      where
        found :
            (x y : Option (ℕ × DomainSet D))
            → Finds a 0 inst.sets x
            → Finds b 0 inst.sets y
            → find_set_and_id inst a ≡ x
            → find_set_and_id inst b ≡ y
            → Swapped a b (swap_found inst x y)
        found none y hx hy ex ey = refl
        found (some (i, from)) none hx hy ex ey = refl
        found (some (i, from)) (some (j, to)) (o, e, at, eq) (o', e', at', eq') ex ey =
            let at_i = ap (set_at inst.sets) (at_offset i o e) ∙ at in
            let at_j = ap (set_at inst.sets) (at_offset j o' e') ∙ at' in
            let once = set inst.sets i (some (in_place_of to from)) in
            let within : j < length once = omega (
              arith,
              length-set inst.sets i (some (in_place_of to from)),
              set_at-some-lt inst.sets j to at_j,
            ) in
            if_cases (Swapped a b)
              (not (from.kind.features == to.kind.features && from.family == to.family)) (λ _. refl)
              (λ _.
                if_cases (Swapped a b) (not (from.ref_netlink == 0) || not (to.ref_netlink == 0))
                  (λ _. refl)
                  (λ _. (
                    i,
                    from,
                    j,
                    to,
                    ex,
                    ey,
                    first_place i j from to at_i at_j,
                    get_or-set_self once j (some (in_place_of from to)) none within,
                    λ l n n'.
                        get_or-set_ne once j l (some (in_place_of from to)) none n'
                        ∙ get_or-set_ne inst.sets i l (some (in_place_of to from)) none n,
                  )))
