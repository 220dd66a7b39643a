-- ===== src/Core/Steps.antt =====
-- The commands on the array of sets as steps, one after the other, from `domain_set_net_init` on.
use dset.Core.AdtCommands.{Variant, Reply, AdAttrs, Answered, domain_set_ad, utest}
use dset.Core.ContentLaws.{
  ContentOnly-Holds, ContentOnly-IsNamed, ad-ContentOnly, utest-ContentOnly,
}
use dset.Core.Commands.{create_constructed, destroy, flush_sets, rename, swap}
use dset.Core.NameLaws.{IsNamed, none-IsNamed}
use dset.Core.NamedCommands.{
  create-IsNamed, destroy-IsNamed, flush-IsNamed, rename-IsNamed, swap-IsNamed,
}
use dset.Core.HoldLaws.{Holds, create-Holds, destroy-Holds, flush-Holds, rename-Holds, swap-Holds}
use dset.Core.Refs.{net_init}
use dset.Core.Sets.{DomainSet, Net}
use dset.Domain.Kadt.{Adt}
use dset.Prelude.{ℕ, ◌≡◌, ◌≢◌, Bool, true, false, Option, none, some, List, [], ap}
use mathlib.Core.Path.{subst}

module _ {D : Type 0} where
  -- one command, whatever its outcome
  pub data Step (T : Type 0) : Net D → Net D → Type 0 where
    created :
        {inst : Net D} (same_set : DomainSet D → DomainSet D → Bool) (flag_exist alloc : Bool)
        (s : DomainSet D)
        → Step T inst (create_constructed same_set flag_exist inst alloc s).1
    destroyed :
        {inst : Net D} (protocol : Option ℕ) (name : Option (List ℕ))
        → Step T inst (destroy inst protocol name).1
    flushed :
        {inst : Net D} (flush : D → D) (protocol : Option ℕ) (name : Option (List ℕ))
        → Step T inst (flush_sets flush inst protocol name).1
    renamed :
        {inst : Net D} (protocol : Option ℕ) (name1 name2 : Option (List ℕ))
        → Step T inst (rename inst protocol name1 name2).1
    swapped :
        {inst : Net D} (protocol : Option ℕ) (name1 name2 : Option (List ℕ))
        → Step T inst (swap inst protocol name1 name2).1
    elements_changed :
        {inst : Net D} (fuel : ℕ) (variants : ℕ → Variant D T) (replies : ℕ → Reply) (adt : Adt)
        (flags : ℕ) (a : AdAttrs T) (r : Answered (Net D))
        → domain_set_ad fuel variants replies adt flags a inst ≡ some r
        → Step T inst r.after
    element_tested :
        {inst : Net D} (v : Variant D T) (a : AdAttrs T) → Step T inst (utest v a inst).1

  pub data Steps (T : Type 0) : Net D → Net D → Type 0 where
    done : {inst : Net D} → Steps T inst inst
    next : {a b c : Net D} → Step T a b → Steps T b c → Steps T a c

  Step-IsNamed : {T : Type 0} {a b : Net D} → Step T a b → IsNamed a.sets → IsNamed b.sets
  Step-IsNamed (created {inst} same_set flag_exist alloc s) named =
      create-IsNamed inst named same_set flag_exist alloc s
  Step-IsNamed (destroyed {inst} protocol name) named = destroy-IsNamed inst named protocol name
  Step-IsNamed (flushed {inst} flush protocol name) named =
      flush-IsNamed inst named flush protocol name
  Step-IsNamed (renamed {inst} protocol name1 name2) named =
      rename-IsNamed inst named protocol name1 name2
  Step-IsNamed (swapped {inst} protocol name1 name2) named =
      swap-IsNamed inst named protocol name1 name2
  Step-IsNamed (elements_changed {inst} fuel variants replies adt flags a r e) named =
      ContentOnly-IsNamed inst.sets r.after.sets
        (ad-ContentOnly fuel variants replies adt flags a inst r e) named
  Step-IsNamed (element_tested {inst} v a) named =
      ContentOnly-IsNamed inst.sets _ (utest-ContentOnly v a inst) named

  Steps-IsNamed : {T : Type 0} {a b : Net D} → Steps T a b → IsNamed a.sets → IsNamed b.sets
  Steps-IsNamed done named = named
  Steps-IsNamed (next step later) named = Steps-IsNamed later (Step-IsNamed step named)

  Step-Holds :
      {T : Type 0} {a b : Net D}
      → Step T a b
      → (i : ℕ) (name : List ℕ) (ref : ℕ) → ref ≢ 0
      → Holds i name ref a.sets
      → Holds i name ref b.sets
  Step-Holds (created {inst} same_set flag_exist alloc s) i name ref n h =
      create-Holds i inst h same_set flag_exist alloc s
  Step-Holds (destroyed {inst} protocol name') i name ref n h =
      destroy-Holds i inst h n protocol name'
  Step-Holds (flushed {inst} flush protocol name') i name ref n h =
      flush-Holds i inst h flush protocol name'
  Step-Holds (renamed {inst} protocol name1 name2) i name ref n h =
      rename-Holds i inst h n protocol name1 name2
  Step-Holds (swapped {inst} protocol name1 name2) i name ref n h =
      swap-Holds i inst h protocol name1 name2
  Step-Holds (elements_changed {inst} fuel variants replies adt flags a r e) i name ref n h =
      ContentOnly-Holds i name ref inst.sets r.after.sets
        (ad-ContentOnly fuel variants replies adt flags a inst r e) h
  Step-Holds (element_tested {inst} v a) i name ref n h =
      ContentOnly-Holds i name ref inst.sets _ (utest-ContentOnly v a inst) h

  -- A set that is referenced keeps its index, its name and its number of references through any
  -- sequence of create, destroy, flush, rename, swap, add, delete and test commands.
  pub Steps-Holds :
      {T : Type 0} {a b : Net D}
      → Steps T a b
      → (i : ℕ) (name : List ℕ) (ref : ℕ) → ref ≢ 0
      → Holds i name ref a.sets
      → Holds i name ref b.sets
  Steps-Holds done i name ref n h = h
  Steps-Holds (next step later) i name ref n h =
      Steps-Holds later i name ref n (Step-Holds step i name ref n h)

  net_init-IsNamed :
      (alloc : Bool) (max_sets config_max : ℕ) (inst : Net D)
      → net_init alloc max_sets config_max ≡ some inst
      → IsNamed inst.sets
  unfolding net_init
  net_init-IsNamed true max_sets config_max inst e = subst IsNamed (ap sets_of e) (none-IsNamed D _)
    where
      sets_of : Option (Net D) → List (Option (DomainSet D))
      sets_of none = []
      sets_of (some n) = n.sets
  net_init-IsNamed false max_sets config_max inst e = cc

  -- From an initialised array on, whatever commands run, no two sets answer to one name.
  pub reached-IsNamed :
      (alloc : Bool) (max_sets config_max : ℕ) {T : Type 0} {a b : Net D}
      → net_init alloc max_sets config_max ≡ some a
      → Steps T a b
      → IsNamed b.sets
  reached-IsNamed alloc max_sets config_max {a} e steps =
      Steps-IsNamed steps (net_init-IsNamed alloc max_sets config_max a e)
