-- ===== src/Tests/CoreRuns.antt =====
-- An array of sets, with one that is referenced and one that is not.
use dset.Core.CommandLaws.{
  Destroyed, Renamed, destroy-Destroyed, rename-Renamed, find_set_and_id-IsNamed,
}
use dset.Core.Commands.{create_constructed, destroy, rename, swap}
use dset.Core.HoldLaws.{Holds}
use dset.Core.NameLaws.{IsNamed}
use dset.Core.RefLaws.{put-get}
use dset.Core.Refs.{net_init, nfnl_get_byindex, nfnl_put}
use dset.Core.Queries.{Netlink, protocol, family, index, setname, byname, byindex}
use dset.Core.QueryLaws.{byindex-byname}
use dset.Core.Sets.{DomainSet, Net, set_at, find_set_and_id}
use dset.Core.Steps.{created, swapped, destroyed, Steps, done, next, Steps-Holds, reached-IsNamed}
use dset.Core.SwapLaws.{Swapped, swap-Swapped}
use dset.Core.TypeLaws.{Spans, Registered, find_set_type_minmax-Spans, register-Registered}
use dset.Core.Types.{SetType, name_eq, find_set_type_minmax, type_register}
use dset.Core.FindLaws.{name_eq_iff}
use dset.Domain.Text.{text_eq_refl}
use dset.Prelude.{
  sym, ◌∙◌, ℕ, zero, suc, ◌≡◌, refl, true, false, none, some, List, [], ◌∷◌, arith, set, replicate,
}
use dset.Uapi.{Errno, ok, err, protocol_version}

-- hash:domain, protocol 9, family unspecified
abbrev hash_domain : SetType
hash_domain = record {
  address = 1;
  name = 104 ∷ 100 ∷ [];
  protocol = 9;
  family = 0;
  revision_min = 0;
  revision_max = 2;
  features = 1;
}

abbrev new_set : ℕ → ℕ → DomainSet ℕ
new_set letter ref = record {
  name = letter ∷ [];
  ref = ref;
  ref_netlink = 0;
  kind = hash_domain;
  family = 0;
  revision = 0;
  content = letter;
}

-- `a` is referenced, `b` is not
abbrev two_sets : Net ℕ
two_sets = record {
  sets = some (new_set 97 1) ∷ some (new_set 98 0) ∷ [];
  is_deleted = false;
  is_destroyed = false;
}

apart : (name : List ℕ) → name_eq (97 ∷ []) name ≡ true → name_eq (98 ∷ []) name ≡ true → ⊥
apart name h g =
    let a = (name_eq_iff (97 ∷ []) name).0 h in
    let b = (name_eq_iff (98 ∷ []) name).0 g in
    let same : ◌≡◌ {A = List ℕ} (97 ∷ []) (98 ∷ []) = a ∙ sym b in ground arith

two_sets-IsNamed : IsNamed two_sets.sets
two_sets-IsNamed name zero zero h g = refl
two_sets-IsNamed name zero (suc zero) h g = absurd (apart name h g)
two_sets-IsNamed name zero (suc (suc j)) h g = cc
two_sets-IsNamed name (suc zero) zero h g = absurd (apart name g h)
two_sets-IsNamed name (suc zero) (suc zero) h g = refl
two_sets-IsNamed name (suc zero) (suc (suc j)) h g = cc
two_sets-IsNamed name (suc (suc i)) j h g = cc

find_set_and_id-IsNamed_example : find_set_and_id two_sets (98 ∷ []) ≡ some (1, new_set 98 0)
find_set_and_id-IsNamed_example =
    find_set_and_id-IsNamed two_sets two_sets-IsNamed 1 (new_set 98 0) (98 ∷ []) refl
      (text_eq_refl (98 ∷ []))

destroy-Destroyed_example :
    Destroyed two_sets (some (98 ∷ [])) (destroy two_sets (some 9) (some (98 ∷ [])))
destroy-Destroyed_example = destroy-Destroyed two_sets (some 9) (some (98 ∷ []))

rename-Renamed_example :
    Renamed two_sets
      (98 ∷ [])
      (99 ∷ [])
      (rename two_sets (some 9) (some (98 ∷ [])) (some (99 ∷ [])))
rename-Renamed_example = rename-Renamed two_sets two_sets-IsNamed (some 9) (98 ∷ []) (99 ∷ [])

swap-Swapped_example :
    Swapped two_sets (97 ∷ []) (98 ∷ []) (swap two_sets (some 9) (some (97 ∷ [])) (some (98 ∷ [])))
swap-Swapped_example = swap-Swapped two_sets (some 9) (97 ∷ []) (98 ∷ [])

put-get_example :
    (nfnl_get_byindex two_sets 0
      ≡ (0, record two_sets { sets = set two_sets.sets 0 (some (new_set 97 2)) }))
    × (nfnl_put (nfnl_get_byindex two_sets 0).1 0 ≡ (ok, two_sets))
put-get_example = put-get two_sets 0 (new_set 97 1) refl refl (omega arith)

-- the sets are swapped, then `b` is destroyed
abbrev session :
    Steps ℕ two_sets
      (destroy
        (swap two_sets (some 9) (some (97 ∷ [])) (some (98 ∷ []))).1
        (some 9)
        (some (98 ∷ []))).1
session =
    next (swapped (some 9) (some (97 ∷ [])) (some (98 ∷ [])))
      (next (destroyed (some 9) (some (98 ∷ []))) done)

Steps-Holds_example :
    Holds 0
      (97 ∷ [])
      1
      (destroy
        (swap two_sets (some 9) (some (97 ∷ [])) (some (98 ∷ []))).1
        (some 9)
        (some (98 ∷ []))).1.sets
Steps-Holds_example =
    Steps-Holds session 0 (97 ∷ []) 1 (omega arith) (new_set 97 1, refl, refl, refl)

abbrev empty : Net ℕ
empty = record { sets = replicate 4 none; is_deleted = false; is_destroyed = false }

abbrev new_sets : Net ℕ → Net ℕ
new_sets inst = (create_constructed (λ _ _. true) false inst true (new_set 97 0)).1

empty_init : net_init true 4 256 ≡ some empty
unfolding net_init
empty_init = refl

reached-IsNamed_example : IsNamed (new_sets (new_sets empty)).sets
reached-IsNamed_example = reached-IsNamed true 4 256 {T = ℕ} empty_init (
    next (created (λ _ _. true) false true (new_set 97 0))
      (next (created (λ _ _. true) false true (new_set 97 0)) done))

register-Registered_example : Registered hash_domain [] (type_register hash_domain [])
register-Registered_example = register-Registered hash_domain [] (omega arith)

find_set_type_minmax-Spans_example :
    Spans
      (104 ∷ 100 ∷ [])
      2
      (hash_domain ∷ [])
      (find_set_type_minmax (hash_domain ∷ []) (104 ∷ 100 ∷ []) 2)
find_set_type_minmax-Spans_example =
    find_set_type_minmax-Spans (hash_domain ∷ []) (104 ∷ 100 ∷ []) 2

abbrev open_netlink : Netlink
open_netlink = record { alloc = true; start = true; room = λ n. true; unicast = ok }

byindex-byname_example :
    ((s : DomainSet ℕ)
      → set_at two_sets.sets 1 ≡ some s
      → name_eq s.name (98 ∷ []) ≡ true
      → (byname open_netlink two_sets (some protocol_version) (some (98 ∷ []))
          ≡ (ok, some (protocol protocol_version ∷ family s.family ∷ index 1 ∷ [])))
        × (byindex open_netlink two_sets (some protocol_version) (some 1)
            ≡ (ok, some (protocol protocol_version ∷ setname s.name ∷ []))))
    × (set_at two_sets.sets 1 ≡ none
        → byindex open_netlink two_sets (some protocol_version) (some 1) ≡ (err Errno.enoent, none))
    × (find_set_and_id two_sets (98 ∷ []) ≡ none
        → byname open_netlink two_sets (some protocol_version) (some (98 ∷ []))
          ≡ (err Errno.enoent, none))
byindex-byname_example =
    byindex-byname open_netlink two_sets (refl, refl, refl, λ n. refl) two_sets-IsNamed
      (omega arith) (98 ∷ []) 1
