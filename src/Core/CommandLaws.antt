-- ===== src/Core/CommandLaws.antt =====
-- What destroy and rename do to the array of sets, on every branch, and what a lookup by name
-- finds.
use dset.Core.Commands.{
  in_use, any_in_use, any_named, destroy_one, destroy_named, destroy, rename_found, rename_both,
  rename, protocol_min_failed,
}
use dset.Core.EntryLaws.{at_offset, set_at-map, set_at-some-lt, take-take}
use dset.Core.FindLaws.{Finds, any_named-IsFree, find_set_and_id-Finds}
use dset.Core.HoldLaws.{any_in_use-used}
use dset.Core.NameLaws.{IsNamed, place-IsNamed, cut_IsFree}
use dset.Core.Sets.{DomainSet, Net, set_at, names_set, find_set_and_id}
use dset.Core.Types.{name_eq}
use dset.Domain.Text.{text_eq_refl}
use dset.Prelude.{
  ℕ, ◌≡◌, ◌≢◌, refl, sym, ap, ◌∙◌, true, false, Option, none, some, List, set, take, if_cases,
  get_or-set_self, get_or-set_ne,
}
use dset.Uapi.{Status, ok, err, fault, max_name_len}

module _ {D : Type 0} (inst : Net D) where
  -- Where names are unique, `find_set_and_id` finds each set of the array by its name, with its
  -- index.
  pub find_set_and_id-IsNamed :
      IsNamed inst.sets
      → (i : ℕ) (s : DomainSet D) (name : List ℕ) → set_at inst.sets i ≡ some s
      → name_eq s.name name ≡ true
      → find_set_and_id inst name ≡ some (i, s)
  find_set_and_id-IsNamed named i s name at eq = go _ (find_set_and_id-Finds inst name)
    where
      here : names_set name (set_at inst.sets i) ≡ true
      here = ap (names_set name) at ∙ eq

      go : (r : Option (ℕ × DomainSet D)) → Finds name 0 inst.sets r → r ≡ some (i, s)
      go none free_name = let never : true ≡ false = sym here ∙ free_name i in cc
      go (some (j, t)) (o, e, at', eq') =
          let same : j ≡ i =
            at_offset j o e ∙ named name o i (ap (names_set name) at' ∙ eq') here in
          let sets_same : some t ≡ some s =
            sym at' ∙ ap (set_at inst.sets) (sym (at_offset j o e) ∙ same) ∙ at in
          cc

  -- what `destroy` does without a name, and with one
  abbrev pub Destroyed : Option (List ℕ) → Status × Net D → Type 0
  Destroyed none (ok, inst') =
      (i : ℕ) → (in_use (set_at inst.sets i) ≡ false) × (set_at inst'.sets i ≡ none)
  Destroyed (some name) (ok, inst') =
      (i : ℕ) × (s : DomainSet D) × (set_at inst.sets i ≡ some s)
      × (name_eq s.name name ≡ true)
      × (in_use (some s) ≡ false)
      × (set_at inst'.sets i ≡ none)
      × ((j : ℕ) → i ≢ j → set_at inst'.sets j ≡ set_at inst.sets j)
  Destroyed name (err e, inst') = inst' ≡ inst
  Destroyed name (fault f, inst') = ⊥

  -- Destroying is all or nothing. Without a name it succeeds only if no set is referenced, and
  -- then every entry is empty; with a name it takes away one set of that name, which is not
  -- referenced, and leaves every other entry; on an error nothing changes.
  pub destroy-Destroyed :
      (protocol : Option ℕ) (name : Option (List ℕ)) → Destroyed name (destroy inst protocol name)
  unfolding destroy destroy_named destroy_one
  destroy-Destroyed protocol none =
      if_cases (Destroyed none) (protocol_min_failed protocol) (λ _. refl)
        (λ _.
          if_cases (Destroyed none) (any_in_use inst.sets) (λ _. refl)
            (λ unused i.
              (any_in_use-used inst.sets i unused, set_at-map (λ _. none) inst.sets i refl)))
  destroy-Destroyed protocol (some name) =
      if_cases (Destroyed (some name)) (protocol_min_failed protocol) (λ _. refl)
        (λ _. one _ (find_set_and_id-Finds inst name))
    where
      one :
          (r : Option (ℕ × DomainSet D))
          → Finds name 0 inst.sets r
          → Destroyed (some name) (destroy_one inst r)
      one none h = refl
      one (some (i, s)) (o, e, at, eq) =
          let at_i : set_at inst.sets i ≡ some s = ap (set_at inst.sets) (at_offset i o e) ∙ at in
          if_cases (Destroyed (some name)) (in_use (some s)) (λ _. refl)
            (λ unused. (
              i,
              s,
              at_i,
              eq,
              unused,
              get_or-set_self inst.sets i none none (set_at-some-lt inst.sets i s at_i),
              λ j n. get_or-set_ne inst.sets i j none none n,
            ))

  -- what `rename` does
  abbrev pub Renamed : List ℕ → List ℕ → Status × Net D → Type 0
  Renamed a b (ok, inst') =
      (i : ℕ) × (s : DomainSet D) × (find_set_and_id inst a ≡ some (i, s))
      × (in_use (some s) ≡ false)
      × (find_set_and_id inst' b ≡ some (i, record s { name = take max_name_len b }))
      × ((j : ℕ) → i ≢ j → set_at inst'.sets j ≡ set_at inst.sets j)
  Renamed a b (err e, inst') = inst' ≡ inst
  Renamed a b (fault f, inst') = ⊥

-- Where names are unique, a successful renaming takes a set that is not referenced to a name that no set has: the new name finds the
-- set at its index, every other entry is as it was, and on an error nothing changes.
pub rename-Renamed :
    {D : Type 0} (inst : Net D)
    → IsNamed inst.sets
    → (protocol : Option ℕ) (a b : List ℕ)
    → Renamed inst a b (rename inst protocol (some a) (some b))
unfolding rename rename_both rename_found
rename-Renamed {D} inst named protocol a b =
    if_cases (Renamed inst a b) (protocol_min_failed protocol) (λ _. refl)
      (λ _. found _ (find_set_and_id-Finds inst a) refl)
  where
    found :
        (r : Option (ℕ × DomainSet D))
        → Finds a 0 inst.sets r
        → find_set_and_id inst a ≡ r
        → Renamed inst a b (rename_found inst b r)
    found none h is = refl
    found (some (i, s)) (o, e, at, eq) is =
        let at_i : set_at inst.sets i ≡ some s = ap (set_at inst.sets) (at_offset i o e) ∙ at in
        let t : DomainSet D = record s { name = take max_name_len b } in
        let inst' : Net D = record inst { sets = set inst.sets i (some t) } in
        if_cases (Renamed inst a b) (in_use (some s)) (λ _. refl)
          (λ unused.
            if_cases (Renamed inst a b) (any_named b inst.sets) (λ _. refl)
              (λ free_name. (
                i,
                s,
                is,
                unused,
                find_set_and_id-IsNamed inst'
                    (place-IsNamed inst.sets i t named
                      (cut_IsFree b inst.sets (any_named-IsFree b inst.sets free_name)))
                    i t b
                    (get_or-set_self inst.sets i (some t) none (set_at-some-lt inst.sets i s at_i))
                    (rw (take-take max_name_len b) (text_eq_refl (take max_name_len b))),
                λ j n. get_or-set_ne inst.sets i j (some t) none n,
              )))
