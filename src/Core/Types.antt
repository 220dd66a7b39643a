-- ===== src/Core/Types.antt =====
-- The registered set types: `find_set_type`, `__find_set_type_get`, `__find_set_type_minmax`,
-- `domain_set_type_register` and `domain_set_type_unregister`
-- (kernel/net/netfilter/dset/domain_set_core.c).
use dset.Domain.Text.{text_eq}
use dset.Prelude.{
  ℕ, Bool, true, false, not, ◌&&◌, ◌||◌, Option, none, some, List, [], ◌∷◌, if◌then◌else◌, ltb, leb,
  ◌==◌, take,
}
use dset.Uapi.{Errno, Status, ok, err, max_name_len, protocol_version}

-- `struct domain_set_type`; `address` tells two registered structures apart
pub record SetType : Type 0 where
  pub address : ℕ
  pub name : List ℕ
  pub protocol : ℕ
  pub family : ℕ
  pub revision_min : ℕ
  pub revision_max : ℕ
  pub features : ℕ

-- STRNCMP
abbrev pub name_eq : List ℕ → List ℕ → Bool
name_eq a b = text_eq (take max_name_len a) (take max_name_len b)

-- NFPROTO_UNSPEC
abbrev pub family_unspec : ℕ
family_unspec = 0

-- the test on a type's name and family
unfoldable pub is_kind : List ℕ → ℕ → SetType → Bool
is_kind name family t = name_eq t.name name && (t.family == family || t.family == family_unspec)

unfoldable pub find_set_type : List SetType → List ℕ → ℕ → ℕ → Option SetType
unfolding is_kind
find_set_type [] name family revision = none
find_set_type (t ∷ ts) name family revision =
    if is_kind name family t && leb t.revision_min revision && leb revision t.revision_max
    then some t
    else find_set_type ts name family revision

-- is a type of this name registered, whatever its family and revisions
unfoldable pub is_loaded : List SetType → List ℕ → Bool
is_loaded [] name = false
is_loaded (t ∷ ts) name = name_eq t.name name || is_loaded ts name

-- a reference to a type, or an error
pub data TypeResult : Type 0 where
  found : SetType → TypeResult
  missing : Errno → TypeResult

module _ (module_get : SetType → Bool) where
  -- one pass of `__find_set_type_get`; `none` asks for another with the module loaded.
  -- `module_get` is `try_module_get`.
  unfoldable pub type_lookup : List SetType → List ℕ → ℕ → ℕ → Option TypeResult
  unfolding find_set_type is_loaded
  type_lookup ts name family revision = elim (find_set_type ts name family revision) [
    | some t ↦ some (if module_get t then found t else missing Errno.efault)
    | none ↦ if is_loaded ts name then some (missing Errno.find_type) else none
  ]

  -- `find_set_type_get`; `load` is `request_module`: the registered types afterwards, or a failure
  unfoldable pub find_set_type_get :
      (List ℕ → Option (List SetType)) → List SetType → List ℕ → ℕ → ℕ → TypeResult × List SetType
  unfolding type_lookup
  find_set_type_get load ts name family revision = elim (type_lookup ts name family revision) [
    | some r ↦ (r, ts)
    | none ↦ elim (load name) [
      | none ↦ (missing Errno.find_type, ts)
      | some ts' ↦ elim (type_lookup ts' name family revision) [
        | some r ↦ (r, ts')
        | none ↦ (missing Errno.find_type, ts')
      ]
    ]
  ]

-- the revisions that the loop of `__find_set_type_minmax` reaches: the least, the greatest, and
-- whether a type was found
pub record MinMax : Type 0 where
  pub least : ℕ
  pub greatest : ℕ
  pub any : Bool

unfoldable pub widen : SetType → MinMax → MinMax
widen t r = record {
  least = if ltb t.revision_min r.least then t.revision_min else r.least;
  greatest = if ltb r.greatest t.revision_max then t.revision_max else r.greatest;
  any = true;
}

unfoldable pub minmax_loop : List SetType → List ℕ → ℕ → MinMax → MinMax
unfolding is_kind widen
minmax_loop [] name family r = r
minmax_loop (t ∷ ts) name family r =
    minmax_loop ts name family (if is_kind name family t then widen t r else r)

-- one pass of `__find_set_type_minmax`
unfoldable pub find_set_type_minmax : List SetType → List ℕ → ℕ → MinMax
unfolding minmax_loop
find_set_type_minmax ts name family =
    minmax_loop ts name family (record { least = 255; greatest = 0; any = false })

-- `domain_set_type_register`
unfoldable pub type_register : SetType → List SetType → Status × List SetType
type_register t ts =
    if not (t.protocol == protocol_version)
    then (err Errno.einval, ts)
    else elim (find_set_type ts t.name t.family t.revision_min) [
      | some _ ↦ (err Errno.einval, ts)
      | none ↦ (ok, t ∷ ts)
    ]

-- `list_del_rcu`
unfoldable pub list_del : ℕ → List SetType → List SetType
list_del address [] = []
list_del address (t ∷ ts) = if t.address == address then ts else t ∷ list_del address ts

-- `domain_set_type_unregister`
unfoldable pub type_unregister : SetType → List SetType → List SetType
unfolding list_del
type_unregister t ts = elim (find_set_type ts t.name t.family t.revision_min) [
  | none ↦ ts
  | some _ ↦ list_del t.address ts
]
