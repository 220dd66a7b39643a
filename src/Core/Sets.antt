-- ===== src/Core/Sets.antt =====
-- The array of sets: `struct domain_set_net`, `find_set_and_id`, `find_free_id`
-- (kernel/net/netfilter/dset/domain_set_core.c).
use dset.Core.Types.{SetType, name_eq}
use dset.Prelude.{ℕ, suc, Bool, Option, none, some, List, [], ◌∷◌, if◌then◌else◌, get_or}

-- `struct domain_set`, with the type's own data of type `D`
pub record DomainSet (D : Type 0) : Type 0 where
  pub name : List ℕ
  pub ref : ℕ
  pub ref_netlink : ℕ
  pub kind : SetType
  pub family : ℕ
  pub revision : ℕ
  pub content : D

-- `struct domain_set_net`; `domain_set_max` is the length of the list
pub record Net (D : Type 0) : Type 0 where
  pub sets : List (Option (DomainSet D))
  pub is_deleted : Bool
  pub is_destroyed : Bool

module _ {D : Type 0} where
  abbrev pub set_at : List (Option (DomainSet D)) → ℕ → Option (DomainSet D)
  set_at sets i = get_or sets i none

  abbrev pub names_set : List ℕ → Option (DomainSet D) → Bool
  names_set name none = Bool.false
  names_set name (some s) = name_eq s.name name

  -- the loop of `find_set_and_id` from index `i` on
  unfoldable pub find_from : List ℕ → ℕ → List (Option (DomainSet D)) → Option (ℕ × DomainSet D)
  find_from name i [] = none
  find_from name i (none ∷ rest) = find_from name (suc i) rest
  find_from name i (some s ∷ rest) =
      if name_eq s.name name then some (i, s) else find_from name (suc i) rest

  unfoldable pub find_set_and_id : Net D → List ℕ → Option (ℕ × DomainSet D)
  unfolding find_from
  find_set_and_id inst name = find_from name 0 inst.sets

-- what `find_free_id` returns
pub data FreeId (D : Type 0) : Type 0 where
  free : ℕ → FreeId D
  clash : DomainSet D → FreeId D
  no_room : FreeId D

abbrev pub or_index : Option ℕ → ℕ → Option ℕ
or_index none i = some i
or_index (some j) i = some j

module _ {D : Type 0} where
  abbrev pub free_or_full : Option ℕ → FreeId D
  free_or_full none = no_room
  free_or_full (some i) = free i

  -- the loop of `find_free_id`; `index` is the first free index so far
  unfoldable pub find_free : List ℕ → ℕ → Option ℕ → List (Option (DomainSet D)) → FreeId D
  find_free name i index [] = free_or_full index
  find_free name i index (none ∷ rest) = find_free name (suc i) (or_index index i) rest
  find_free name i index (some s ∷ rest) =
      if name_eq name s.name then clash s else find_free name (suc i) index rest
