-- ===== src/User/TypeList.antt =====
-- The list of the set types of userspace, and the type of a set (lib/types.c). The list is a value; the
-- structures in it are told apart by their address. What is kept of a type in the data and in the
-- cache is the structure as it was then: nothing reads `kernel_check` through those pointers.
use dset.Domain.Text.{text_eq}
use dset.Prelude.{
  ℕ, ◌-◌, Bool, true, false, ◌&&◌, ◌||◌, Option, none, some, List, [], ◌∷◌, if◌then◌else◌, ltb,
  ◌==◌, length,
}
use dset.Uapi.{Errno, Status, ok, err, max_name_len}
use dset.User.Args.{KernelCheck, OptArg, UserType, add_full}
use dset.User.Cache.{unspec}

-- NFPROTO_IPV4, NFPROTO_DSET_IPV46
abbrev pub ipv4 : ℕ
ipv4 = 2

abbrev pub ipv46 : ℕ
ipv46 = 255

-- MATCH_FAMILY
unfoldable pub match_family : UserType → ℕ → Bool
match_family t f = f == unspec || t.family == f || t.family == ipv46

-- the loop of `dset_match_typename` over the aliases
unfoldable pub any_alias : List ℕ → List (List ℕ) → Bool
any_alias name [] = false
any_alias name (a ∷ rest) = text_eq name a || any_alias name rest

unfoldable pub match_typename : List ℕ → UserType → Bool
unfolding any_alias
match_typename name t = text_eq name t.name || any_alias name t.alias

abbrev pub is_mismatch : KernelCheck → Bool
is_mismatch KernelCheck.mismatch = true
is_mismatch c = false

abbrev pub is_kernel_ok : KernelCheck → Bool
is_kernel_ok KernelCheck.kernel_ok = true
is_kernel_ok c = false

-- `t->kernel_check = c` for the structure at an address
unfoldable pub set_check : ℕ → KernelCheck → List UserType → List UserType
set_check a c [] = []
set_check a c (t ∷ rest) =
    if t.address == a then record t { kernel_check = c } ∷ rest else t ∷ set_check a c rest

-- `dset_typename_resolve`, and `type_find` of lib/dset.c, which returns the type
unfoldable pub type_find : List ℕ → List UserType → Option UserType
unfolding match_typename
type_find name [] = none
type_find name (t ∷ rest) = if match_typename name t then some t else type_find name rest

unfoldable pub typename_resolve : List ℕ → List UserType → Option (List ℕ)
unfolding match_typename
typename_resolve name [] = none
typename_resolve name (t ∷ rest) =
    if match_typename name t then some t.name else typename_resolve name rest

-- `dset_type_higher_rev`
unfoldable pub type_higher_rev : UserType → List UserType → UserType
type_higher_rev type [] = type
type_higher_rev type (t ∷ []) = type
type_higher_rev type (t ∷ u ∷ rest) =
    if text_eq type.name t.name && type.family == t.family && type.address == u.address
    then t
    else type_higher_rev type (u ∷ rest)

-- where a type to add stands with regard to one of the list
pub data Place : Type 0 where
  same_revision before_it further : Place

unfoldable pub place : UserType → UserType → Place
place n t =
    if text_eq t.name n.name
    then if t.revision == n.revision
      then same_revision
      else if ltb t.revision n.revision
      then before_it
      else further
    else further

unfoldable pub place_next : UserType → List UserType → Place
unfolding place
place_next n [] = further
place_next n (u ∷ rest) = place n u

-- how the loop of `dset_type_add` over the list ends
pub data Inserted : Type 0 where
  exists run_through : Inserted
  inserted : List UserType → Inserted

abbrev pub behind : UserType → Inserted → Inserted
behind t exists = exists
behind t run_through = run_through
behind t (inserted l) = inserted (t ∷ l)

unfoldable pub insert_type : UserType → List UserType → Inserted
unfolding place place_next
insert_type n [] = run_through
insert_type n (t ∷ rest) =
    let more = insert_type n rest in
    elim (place n t) [
      | same_revision ↦ exists
      | before_it ↦ inserted (n ∷ t ∷ rest)
      | further ↦ elim (place_next n rest) [
        | same_revision ↦ exists
        | before_it ↦ inserted (t ∷ n ∷ rest)
        | further ↦ behind t more
      ]
    ]

-- the flags of the arguments of each command
unfoldable pub fill_full : List OptArg → List OptArg
unfolding add_full
fill_full [] = []
fill_full (c ∷ cs) = record c { full = add_full c.args c.full } ∷ fill_full cs

abbrev pub type_add_end : UserType → List UserType → Inserted → Status × List UserType
type_add_end n types exists = (err Errno.eexist, types)
type_add_end n types (inserted l) = (ok, l)
type_add_end n types run_through = (ok, n ∷ types)

-- `dset_type_add`
unfoldable pub type_add : UserType → List UserType → Status × List UserType
unfolding insert_type fill_full
type_add type types =
    let n : UserType = record type { cmd = fill_full type.cmd } in
    if ltb (max_name_len - 1) (length type.name)
    then (err Errno.einval, types)
    else type_add_end n types (insert_type n types)
