-- ===== src/Core/NamedCommands.antt =====
-- Every command on the array of sets keeps the names of the sets unique.
use dset.Core.NameLaws.{
  IsNamed, IsNamed-congr, place-IsNamed, clear-IsNamed, all_clear-IsNamed, cut_IsFree, swap-names,
  Named,
}
use dset.Core.Commands.{
  create_grow, create_placed, create_constructed, destroy_one, destroy_named, destroy, rename_found,
  rename, swap_sets, swap_found, swap, any_named, any_in_use, in_use, domain_set_inc, both,
  protocol_min_failed, rename_both, swap_both, flush_set, flush_one, flush_named, flush_sets,
}
use dset.Core.EntryLaws.{at_offset, set_at-set, set_at-grow, set_at-map}
use dset.Core.FindLaws.{Finds, find_set_and_id-Finds, any_named-IsFree, Picks, find_free-Picks}
use dset.Core.Sets.{
  DomainSet, Net, set_at, names_set, FreeId, free, clash, no_room, find_set_and_id,
}
use dset.Prelude.{
  ℕ, ◌≡◌, refl, ◌∙◌, sym, ap, Bool, not, ◌&&◌, ◌||◌, Option, none, some, List, ◌++◌, length,
  replicate, if_cases, take, ◌==◌, inl, inr,
}
use dset.Uapi.{max_name_len}

module _ {D : Type 0} where
  module _ (inst : Net D) (named : IsNamed inst.sets) where
    pub create-IsNamed :
        (same_set : DomainSet D → DomainSet D → Bool) (flag_exist alloc : Bool) (s : DomainSet D)
        → IsNamed (create_constructed same_set flag_exist inst alloc s).1.sets
    unfolding create_constructed create_placed create_grow
    create-IsNamed same_set flag_exist alloc s = placed _ (find_free-Picks s.name 0 none inst.sets)
      where
        placed :
            (r : FreeId D)
            → Picks s.name 0 none inst.sets r
            → IsNamed (create_placed same_set flag_exist inst alloc s r).1.sets
        placed (free f) (free_name, later) = place-IsNamed inst.sets f s named free_name
        placed (clash other) h = named
        placed no_room (free_name, later) =
            let grown = inst.sets ++ replicate domain_set_inc none in
            if_cases Named _ (λ _. named)
              (λ _.
                place-IsNamed grown (length inst.sets) s
                  (IsNamed-congr inst.sets grown
                    (λ name j. ap (names_set name) (set_at-grow inst.sets domain_set_inc j)) named)
                  (λ j.
                    ap (names_set s.name) (set_at-grow inst.sets domain_set_inc j) ∙ free_name j))

    pub destroy-IsNamed :
        (protocol : Option ℕ) (name : Option (List ℕ)) → IsNamed (destroy inst protocol name).1.sets
    unfolding destroy destroy_named destroy_one
    destroy-IsNamed protocol name =
        if_cases Named (protocol_min_failed protocol) (λ _. named) (λ _. by_name name)
      where
        one : (r : Option (ℕ × DomainSet D)) → IsNamed (destroy_one inst r).1.sets
        one none = named
        one (some (i, s)) =
            if_cases Named (in_use (some s)) (λ _. named) (λ _. clear-IsNamed inst.sets i named)

        by_name : (name : Option (List ℕ)) → IsNamed (destroy_named inst name).1.sets
        by_name none =
            if_cases Named (any_in_use inst.sets) (λ _. named) (λ _. all_clear-IsNamed inst.sets)
        by_name (some name) = one (find_set_and_id inst name)

    pub rename-IsNamed :
        (protocol : Option ℕ) (name1 name2 : Option (List ℕ))
        → IsNamed (rename inst protocol name1 name2).1.sets
    unfolding rename rename_both rename_found
    rename-IsNamed protocol name1 name2 =
        elim (both name1 name2) as (λ names. IsNamed (rename_both inst protocol names).1.sets) [
          | none ↦ named
          | some (a, b) ↦
              if_cases Named (protocol_min_failed protocol) (λ _. named)
                (λ _. renamed b (find_set_and_id inst a))
        ]
      where
        renamed :
            (name2 : List ℕ) (r : Option (ℕ × DomainSet D))
            → IsNamed (rename_found inst name2 r).1.sets
        renamed name2 none = named
        renamed name2 (some (i, s)) =
            if_cases Named (in_use (some s)) (λ _. named)
              (λ _.
                if_cases Named (any_named name2 inst.sets) (λ _. named)
                  (λ h.
                    place-IsNamed inst.sets i (record s { name = take max_name_len name2 }) named
                      (cut_IsFree name2 inst.sets (any_named-IsFree name2 inst.sets h))))

    pub swap-IsNamed :
        (protocol : Option ℕ) (name1 name2 : Option (List ℕ))
        → IsNamed (swap inst protocol name1 name2).1.sets
    unfolding swap swap_both swap_found swap_sets
    swap-IsNamed protocol name1 name2 =
        elim (both name1 name2) as (λ names. IsNamed (swap_both inst protocol names).1.sets) [
          | none ↦ named
          | some (a, b) ↦
              if_cases Named (protocol_min_failed protocol) (λ _. named)
                (λ _. swapped a b _ _ (find_set_and_id-Finds inst a) (find_set_and_id-Finds inst b))
        ]
      where
        swapped :
            (a b : List ℕ) (x y : Option (ℕ × DomainSet D))
            → Finds a 0 inst.sets x
            → Finds b 0 inst.sets y
            → IsNamed (swap_found inst x y).1.sets
        swapped a b none y hx hy = named
        swapped a b (some (i, from)) none hx hy = named
        swapped a b (some (i, from)) (some (j, to)) (o, e, at, eq) (o', e', at', eq') =
            if_cases Named
              (not (from.kind.features == to.kind.features && from.family == to.family))
              (λ _. named)
              (λ _.
                if_cases Named (not (from.ref_netlink == 0) || not (to.ref_netlink == 0))
                  (λ _. named)
                  (λ _.
                    IsNamed-congr _ _
                      (swap-names inst.sets i j _ _ from to
                        (ap (set_at inst.sets) (at_offset i o e) ∙ at)
                        (ap (set_at inst.sets) (at_offset j o' e') ∙ at') refl refl)
                      named))

    pub flush-IsNamed :
        (flush : D → D) (protocol : Option ℕ) (name : Option (List ℕ))
        → IsNamed (flush_sets flush inst protocol name).1.sets
    unfolding flush_sets flush_named flush_one
    flush-IsNamed flush protocol name =
        if_cases Named (protocol_min_failed protocol) (λ _. named) (λ _. by_name name)
      where
        one :
            (a : List ℕ) (r : Option (ℕ × DomainSet D))
            → Finds a 0 inst.sets r
            → IsNamed (flush_one flush inst r).1.sets
        one a none h = named
        one a (some (i, s)) (o, e, at, eq) =
            IsNamed-congr inst.sets _
              (λ q j. elim (set_at-set inst.sets i (flush_set flush (some s)) j) [
                | inl same ↦ ap (names_set q) same
                | inr (here, new) ↦
                    ap (names_set q) new
                    ∙ ap (names_set q)
                        (sym at ∙ ap (set_at inst.sets) (sym (at_offset i o e) ∙ here))
              ])
              named

        names_flushed :
            (q : List ℕ) (o : Option (DomainSet D))
            → names_set q (flush_set flush o) ≡ names_set q o
        names_flushed q none = refl
        names_flushed q (some s) = refl

        by_name : (name : Option (List ℕ)) → IsNamed (flush_named flush inst name).1.sets
        by_name none =
            IsNamed-congr inst.sets _
              (λ q j.
                ap (names_set q) (set_at-map (flush_set flush) inst.sets j refl)
                ∙ names_flushed q (set_at inst.sets j))
              named
        by_name (some name) = one name _ (find_set_and_id-Finds inst name)
