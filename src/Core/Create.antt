-- ===== src/Core/Create.antt =====
-- `domain_set_create` (kernel/net/netfilter/dset/domain_set_core.c): the guards, the set type, the
-- construction, and the place in the array.
use dset.Core.Commands.{protocol_min_failed, create_constructed}
use dset.Core.Sets.{DomainSet, Net}
use dset.Core.Types.{SetType, TypeResult, found, missing}
use dset.Prelude.{ℕ, ◌-◌, Bool, false, not, ◌||◌, Option, none, some, List, if◌then◌else◌, take}
use dset.Uapi.{Errno, Status, err, max_name_len}

-- the attributes of the command; `nested` is the NLA_F_NESTED bit of DSET_ATTR_DATA, if it is there
pub record CreateAttrs : Type 0 where
  pub protocol : Option ℕ
  pub setname : Option (List ℕ)
  pub typename : Option (List ℕ)
  pub revision : Option ℕ
  pub family : Option ℕ
  pub nested : Option Bool

-- the attributes that a create command must have
pub record CreateArgs : Type 0 where
  pub setname : List ℕ
  pub typename : List ℕ
  pub revision : ℕ
  pub family : ℕ

abbrev pub badly_nested : Option Bool → Bool
badly_nested none = false
badly_nested (some nested) = not nested

unfoldable pub required :
    Option (List ℕ) → Option (List ℕ) → Option ℕ → Option ℕ → Option CreateArgs
required (some s) (some t) (some r) (some f) =
    some (record { setname = s; typename = t; revision = r; family = f })
required _ _ _ _ = none

-- the first `if` of the function: `none` is DSET_ERR_PROTOCOL
unfoldable pub create_args : CreateAttrs → Option CreateArgs
unfolding required
create_args a =
    if protocol_min_failed a.protocol || badly_nested a.nested
    then none
    else required a.setname a.typename a.revision a.family

-- what the type's `create` returns: an error, or its data
pub data Built (D : Type 0) : Type 0 where
  built : D → Built D
  refused : Errno → Built D

-- The code that is called: the type's operations, netlink's parser, the allocator. `find_type` is
-- `find_set_type_get` with the registered types put in.
pub record Callees (D : Type 0) : Type 0 where
  pub alloc_set : Bool
  pub find_type : List ℕ → ℕ → ℕ → TypeResult
  pub parses : SetType → Bool
  pub build : SetType → ℕ → Built D
  pub same_set : DomainSet D → DomainSet D → Bool
  pub alloc_list : Bool

module _ {D : Type 0} (c : Callees D) (flag_exist : Bool) (inst : Net D) where
  unfoldable pub create_built : CreateArgs → SetType → Built D → Status × Net D
  create_built a t (refused e) = (err e, inst)
  create_built a t (built content) =
      create_constructed c.same_set flag_exist inst c.alloc_list (record {
        name = take (max_name_len - 1) a.setname;
        ref = 0;
        ref_netlink = 0;
        kind = t;
        family = a.family;
        revision = a.revision;
        content = content;
      })

  unfoldable pub create_typed : CreateArgs → TypeResult → Status × Net D
  unfolding create_built
  create_typed a (missing e) = (err e, inst)
  create_typed a (found t) =
      if c.parses t then create_built a t (c.build t a.family) else (err Errno.protocol, inst)

  unfoldable pub create_checked : Option CreateArgs → Status × Net D
  unfolding create_typed
  create_checked none = (err Errno.protocol, inst)
  create_checked (some a) =
      if c.alloc_set
      then create_typed a (c.find_type a.typename a.family a.revision)
      else (err Errno.enomem, inst)

  -- `domain_set_create`
  unfoldable pub create : CreateAttrs → Status × Net D
  unfolding create_checked create_args
  create attrs = create_checked (create_args attrs)
