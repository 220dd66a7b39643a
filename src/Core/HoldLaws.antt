-- ===== src/Core/HoldLaws.antt =====
-- A reference holds a set: no command takes it away, renames it or moves it.
use dset.Core.Commands.{
  create_placed, create_grow, create_constructed, in_use, any_in_use, destroy_one, destroy_named,
  destroy, flush_set, flush_one, flush_named, flush_sets, any_named, rename_found, rename_both,
  rename, swap_sets, swap_found, swap_both, swap, both, protocol_min_failed, domain_set_inc,
}
use dset.Core.EntryLaws.{at_offset, set_at-set, set_at-grow, set_at-map, set_at-some-lt}
use dset.Core.FindLaws.{Finds, find_set_and_id-Finds, Picks, find_free-Picks}
use dset.Core.Sets.{DomainSet, Net, set_at, FreeId, free, clash, no_room}
use dset.Prelude.{
  ℕ, zero, suc, ◌+◌, ◌≡◌, ◌≢◌, refl, sym, ap, ◌∙◌, inl, inr, Bool, false, not, ◌&&◌, ◌||◌, Option,
  none, some, List, [], ◌∷◌, ◌++◌, ◌==◌, length, replicate, set, if_cases, arith,
}
use dset.Uapi.{Status}

module _ {D : Type 0} where
  -- the set at an index has this name and this number of references
  abbrev pub Holds : ℕ → List ℕ → ℕ → List (Option (DomainSet D)) → Type 0
  Holds i name ref sets =
      (s : DomainSet D) × (set_at sets i ≡ some s) × (s.name ≡ name) × (s.ref ≡ ref)

  abbrev Held : ℕ → List ℕ → ℕ → Status × Net D → Type 0
  Held i name ref (r, inst) = Holds i name ref inst.sets

  pub any_in_use-used :
      (sets : List (Option (DomainSet D))) (j : ℕ)
      → any_in_use sets ≡ false
      → in_use (set_at sets j) ≡ false
  unfolding any_in_use
  any_in_use-used [] j h = refl
  any_in_use-used (x ∷ xs) zero h = ground arith
  any_in_use-used (x ∷ xs) (suc j) h = any_in_use-used xs j (ground arith)

  module _ (i : ℕ) {name : List ℕ} {ref : ℕ} where
    -- another entry is replaced, or this one by a set of the same name and references
    set-Holds :
        (sets : List (Option (DomainSet D))) (j : ℕ) (v : Option (DomainSet D))
        → Holds i name ref sets
        → (j ≡ i → (s : DomainSet D) × (v ≡ some s) × (s.name ≡ name) × (s.ref ≡ ref))
        → Holds i name ref (set sets j v)
    set-Holds sets j v (s, at, e, e') same = elim (set_at-set sets j v i) [
      | inl kept ↦ (s, kept ∙ at, e, e')
      | inr (here, new) ↦ let (t, is, n, r) = same here in (t, new ∙ is, n, r)
    ]

    -- the entry that a command found at this index is the set that is held
    same_entry :
        (sets : List (Option (DomainSet D))) (j o : ℕ) (s : DomainSet D)
        → j ≡ 0 + o
        → set_at sets o ≡ some s
        → Holds i name ref sets
        → j ≡ i
        → (s.name ≡ name) × (s.ref ≡ ref)
    same_entry sets j o s e at (t, at', n, r) here =
        let is_t : some t ≡ some s = sym at' ∙ ap (set_at sets) (sym here ∙ at_offset j o e) ∙ at in
        (cc, cc)

    module _ (inst : Net D) (held : Holds i name ref inst.sets) where
      pub create-Holds :
          (same_set : DomainSet D → DomainSet D → Bool) (flag_exist alloc : Bool) (s : DomainSet D)
          → Holds i name ref (create_constructed same_set flag_exist inst alloc s).1.sets
      unfolding create_constructed create_placed create_grow
      create-Holds same_set flag_exist alloc s = placed _ (find_free-Picks s.name 0 none inst.sets)
        where
          placed :
              (r : FreeId D)
              → Picks s.name 0 none inst.sets r
              → Holds i name ref (create_placed same_set flag_exist inst alloc s r).1.sets
          placed (free f) (free_name, inl e) = cc
          placed (free f) (free_name, inr (e, o, is, at, lt)) =
              set-Holds inst.sets f (some s) held (λ here.
                let empty : none ≡ some held.0 =
                  sym at ∙ ap (set_at inst.sets) (sym (at_offset f o is) ∙ here) ∙ held.1 in
                cc)
          placed (clash other) h = held
          placed no_room h =
              let grown = inst.sets ++ replicate domain_set_inc none in
              if_cases (Held i name ref) _ (λ _. held)
                (λ _.
                  set-Holds grown (length inst.sets) (some s)
                    (held.0, set_at-grow inst.sets domain_set_inc i ∙ held.1, held.2, held.3)
                    (λ here.
                      absurd (omega (arith, here, set_at-some-lt inst.sets i held.0 held.1))))

      pub destroy-Holds :
          ref ≢ 0
          → (protocol : Option ℕ) (name' : Option (List ℕ))
          → Holds i name ref (destroy inst protocol name').1.sets
      unfolding destroy destroy_named destroy_one
      destroy-Holds n protocol name' =
          if_cases (Held i name ref) (protocol_min_failed protocol) (λ _. held) (λ _. by_name name')
        where
          one :
              (a : List ℕ) (r : Option (ℕ × DomainSet D))
              → Finds a 0 inst.sets r
              → Holds i name ref (destroy_one inst r).1.sets
          one a none h = held
          one a (some (j, s)) (o, e, at, eq) =
              if_cases (Held i name ref) (in_use (some s)) (λ _. held)
                (λ unused. set-Holds inst.sets j none held (λ here.
                  let same = same_entry inst.sets j o s e at held here in
                  absurd (n (ground (arith, same.1)))))

          by_name : (name' : Option (List ℕ)) → Holds i name ref (destroy_named inst name').1.sets
          by_name none =
              if_cases (Held i name ref) (any_in_use inst.sets) (λ _. held)
                (λ unused.
                  let here : in_use (some held.0) ≡ false =
                    ap in_use (sym held.1) ∙ any_in_use-used inst.sets i unused in
                  absurd (n (ground (arith, held.3))))
          by_name (some a) = one a _ (find_set_and_id-Finds inst a)

      pub flush-Holds :
          (flush : D → D) (protocol : Option ℕ) (name' : Option (List ℕ))
          → Holds i name ref (flush_sets flush inst protocol name').1.sets
      unfolding flush_sets flush_named flush_one
      flush-Holds flush protocol name' =
          if_cases (Held i name ref) (protocol_min_failed protocol) (λ _. held) (λ _. by_name name')
        where
          one :
              (a : List ℕ) (r : Option (ℕ × DomainSet D))
              → Finds a 0 inst.sets r
              → Holds i name ref (flush_one flush inst r).1.sets
          one a none h = held
          one a (some (j, s)) (o, e, at, eq) =
              set-Holds inst.sets j (flush_set flush (some s)) held
                (λ here. let (n, r) = same_entry inst.sets j o s e at held here in (_, refl, n, r))

          by_name :
              (name' : Option (List ℕ)) → Holds i name ref (flush_named flush inst name').1.sets
          by_name none = (
            record held.0 { content = flush held.0.content },
            set_at-map (flush_set flush) inst.sets i refl ∙ ap (flush_set flush) held.1,
            held.2,
            held.3,
          )
          by_name (some a) = one a _ (find_set_and_id-Finds inst a)

      pub rename-Holds :
          ref ≢ 0
          → (protocol : Option ℕ) (name1 name2 : Option (List ℕ))
          → Holds i name ref (rename inst protocol name1 name2).1.sets
      unfolding rename rename_both rename_found
      rename-Holds n protocol name1 name2 =
          elim (both name1 name2)
            as (λ names. Holds i name ref (rename_both inst protocol names).1.sets) [
              | none ↦ held
              | some (a, b) ↦
                  if_cases (Held i name ref) (protocol_min_failed protocol) (λ _. held)
                    (λ _. renamed a b _ (find_set_and_id-Finds inst a))
            ]
        where
          renamed :
              (a b : List ℕ) (r : Option (ℕ × DomainSet D))
              → Finds a 0 inst.sets r
              → Holds i name ref (rename_found inst b r).1.sets
          renamed a b none h = held
          renamed a b (some (j, s)) (o, e, at, eq) =
              if_cases (Held i name ref) (in_use (some s)) (λ _. held)
                (λ unused.
                  if_cases (Held i name ref) (any_named b inst.sets) (λ _. held)
                    (λ _. set-Holds inst.sets j _ held (λ here.
                      let same = same_entry inst.sets j o s e at held here in
                      absurd (n (ground (arith, same.1))))))

      pub swap-Holds :
          (protocol : Option ℕ) (name1 name2 : Option (List ℕ))
          → Holds i name ref (swap inst protocol name1 name2).1.sets
      unfolding swap swap_both swap_found swap_sets
      swap-Holds protocol name1 name2 =
          elim (both name1 name2)
            as (λ names. Holds i name ref (swap_both inst protocol names).1.sets) [
              | none ↦ held
              | some (a, b) ↦
                  if_cases (Held i name ref) (protocol_min_failed protocol) (λ _. held)
                    (λ _.
                      swapped a b _ _ (find_set_and_id-Finds inst a) (find_set_and_id-Finds inst b))
            ]
        where
          swapped :
              (a b : List ℕ) (x y : Option (ℕ × DomainSet D))
              → Finds a 0 inst.sets x
              → Finds b 0 inst.sets y
              → Holds i name ref (swap_found inst x y).1.sets
          swapped a b none y hx hy = held
          swapped a b (some (j, from)) none hx hy = held
          swapped a b (some (j, from)) (some (l, to)) (o, e, at, eq) (o', e', at', eq') =
              if_cases (Held i name ref)
                (not (from.kind.features == to.kind.features && from.family == to.family))
                (λ _. held)
                (λ _.
                  if_cases (Held i name ref)
                    (not (from.ref_netlink == 0) || not (to.ref_netlink == 0)) (λ _. held)
                    (λ _.
                      set-Holds _ l _
                        (set-Holds inst.sets j _ held (λ here.
                          let (n, r) = same_entry inst.sets j o from e at held here in
                          (_, refl, n, r)))
                        (λ here.
                          let (n, r) = same_entry inst.sets l o' to e' at' held here in
                          (_, refl, n, r))))
