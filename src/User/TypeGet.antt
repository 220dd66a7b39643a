-- ===== src/User/TypeGet.antt =====
-- The type of a set, chosen among those of userspace (lib/types.c): `create_type_get`,
-- `adt_type_get`, `dset_type_get`, `dset_type_check`. What a private message to the kernel
-- (`dset_cmd`) returns and leaves in the data is an argument.
use dset.Domain.Text.{text_eq}
use dset.Prelude.{
  ℕ, Bool, false, not, ◌&&◌, ◌||◌, Option, none, some, List, [], ◌∷◌, if◌then◌else◌, ltb, ◌==◌,
}
use dset.User.Args.{KernelCheck, UserType}
use dset.User.Blob.{Value, Union, Blob, data_test, data_ignored}
use dset.User.BlobSet.{data_set, data_get, data_setname}
use dset.User.Cache.{Cached, unspec, find_cached}
use dset.User.Opts.{Opt}
use dset.User.TypeList.{
  ipv4, ipv46, match_family, match_typename, is_mismatch, is_kernel_ok, set_check,
}

-- `dset_cmd` with DSET_CMD_TYPE or DSET_CMD_HEADER: whether it returned zero, and the data after
abbrev pub Query : Type 0 → Type 0
Query U = Blob U → Bool × Blob U

-- the type, NULL, or an assertion or a null pointer
pub data Chosen : Type 0 where
  chosen : UserType → Chosen
  refused crashed : Chosen

-- the data and the list of types
pub record TypeState (U : Type 0) : Type 0 where
  pub blob : Blob U
  pub types : List UserType

-- is the type one that may serve
abbrev pub serves : List ℕ → ℕ → UserType → Bool
serves name family t =
    not (is_mismatch t.kernel_check) && (match_typename name t && match_family t family)

-- `match`, `tmin` and `tmax`
pub record Range : Type 0 where
  pub match : UserType
  pub tmin : ℕ
  pub tmax : ℕ

abbrev pub widen : UserType → Option Range → Option Range
widen t none = some (record { match = t; tmin = t.revision; tmax = t.revision })
widen t (some r) =
    if t.family == r.match.family then some (record r { tmin = t.revision }) else some r

-- the first loop of `create_type_get`
unfoldable pub scan_types : List ℕ → ℕ → List UserType → Option Range → Option Range
unfolding match_typename match_family
scan_types name family [] found = found
scan_types name family (t ∷ rest) found =
    scan_types name family rest (if serves name family t then widen t found else found)

-- the second loop: revisions that the kernel does not support are disabled, and the first that it
-- supports is taken
unfoldable pub disable_types :
    List ℕ → ℕ → ℕ → ℕ → List UserType → Option UserType → List UserType × Option UserType
unfolding match_typename match_family
disable_types name family kmin kmax [] found = ([], found)
disable_types name family kmin kmax (t ∷ rest) found =
    let out = ltb t.revision kmin || ltb kmax t.revision in
    let t' : UserType =
      if serves name family t && out then record t { kernel_check = KernelCheck.mismatch } else t in
    let found' =
      if serves name family t && not out
      then elim found [ none ↦ some t | some m ↦ some m ]
      else found in
    let (rest', m) = disable_types name family kmin kmax rest found' in (t' ∷ rest', m)

abbrev pub max_of : ℕ → ℕ → ℕ
max_of a b = if ltb b a then a else b

abbrev pub min_of : ℕ → ℕ → ℕ
min_of a b = if ltb a b then a else b

module _ {U : Type 0} (un : Union U) where
  -- the label `found`
  unfoldable pub take_type : Bool → UserType → TypeState U → Chosen × TypeState U
  unfolding data_ignored
  take_type ignore_family m st =
      let d = (data_set un st.blob Opt.kind (Value.user_type m)).1 in
      (chosen m, record st { blob = if ignore_family then (data_ignored d Opt.family).1 else d })

  -- the revisions of the kernel; `none` is a null pointer that is read, or one of another kind
  unfoldable pub kernel_range : Blob U → Option (ℕ × ℕ)
  kernel_range d = elim (data_get un d Opt.revision) [
    | some (Value.u8 kmax) ↦
        if data_test d Opt.revision_min
        then elim (data_get un d Opt.revision_min) [
          | some (Value.u8 kmin) ↦ some (kmin, kmax)
          | some _ ↦ none
          | none ↦ none
        ]
        else some (kmax, kmax)
    | some _ ↦ none
    | none ↦ none
  ]

  abbrev pub take_disabled :
      Bool → TypeState U → List UserType × Option UserType → Chosen × TypeState U
  take_disabled ignore_family st (types, none) = (crashed, record st { types = types })
  take_disabled ignore_family st (types, some m) =
      take_type ignore_family (record m { kernel_check = KernelCheck.kernel_ok })
        (record st { types = set_check m.address KernelCheck.kernel_ok types })

  -- with the answer of the kernel
  unfoldable pub take_supported :
      List ℕ → ℕ → Bool → Range → TypeState U → Option (ℕ × ℕ) → Chosen × TypeState U
  unfolding disable_types take_type
  take_supported name family ignore_family r st none = (crashed, st)
  take_supported name family ignore_family r st (some (kmin, kmax)) =
      if ltb (min_of r.tmax kmax) (max_of r.tmin kmin)
      then (refused, st)
      else take_disabled ignore_family st (disable_types name family kmin kmax st.types none)

  -- the family that is set from the type
  abbrev pub family_of : UserType → ℕ
  family_of m = if m.family == ipv46 then ipv4 else m.family

  abbrev pub with_family : UserType → TypeState U → TypeState U
  with_family m st =
      if m.family == unspec
      then st
      else record st { blob = (data_set un st.blob Opt.family (Value.u8 (family_of m))).1 }

  unfoldable pub ask_kernel : Query U → List ℕ → Range → TypeState U → Chosen × TypeState U
  unfolding take_type kernel_range take_supported
  ask_kernel query name r st =
      let ignore_family = r.match.family == ipv46 in
      let (done, d) = query st.blob in
      if is_kernel_ok r.match.kernel_check
      then take_type ignore_family r.match st
      else if done
      then take_supported name (family_of r.match) ignore_family r (record st { blob = d })
          (kernel_range d)
      else (refused, record st { blob = d })

  unfoldable pub create_type_get : Query U → TypeState U → Chosen × TypeState U
  unfolding scan_types ask_kernel
  create_type_get query st = elim (data_get un st.blob Opt.typename) [
    | some (Value.text name) ↦ elim (scan_types name unspec st.types none) [
      | none ↦ (refused, st)
      | some r ↦ ask_kernel query name r (with_family r.match st)
    ]
    | some _ ↦ (crashed, st)
    | none ↦ (crashed, st)
  ]

  -- the first type of a name, or an alias of it, and a revision
  unfoldable pub same_type :
      (List ℕ → UserType → Bool) → List ℕ → ℕ → List UserType → Option UserType
  unfolding match_family
  same_type matches name revision [] = none
  same_type matches name revision (t ∷ rest) =
      if not (is_mismatch t.kernel_check)
        && (matches name t && (match_family t unspec && revision == t.revision))
      then some t
      else same_type matches name revision rest

  -- STREQ with the name alone
  abbrev pub has_name : List ℕ → UserType → Bool
  has_name name t = text_eq name t.name

  -- the type that the data tell by name and revision
  abbrev pub with_told : TypeState U → (List ℕ → ℕ → Chosen × TypeState U) → Chosen × TypeState U
  with_told st f = elim (data_get un st.blob Opt.typename) [
    | some (Value.text name) ↦ elim (data_get un st.blob Opt.revision) [
      | some (Value.u8 revision) ↦ f name revision
      | some _ ↦ (crashed, st)
      | none ↦ (crashed, st)
    ]
    | some _ ↦ (crashed, st)
    | none ↦ (crashed, st)
  ]

  -- `adt_type_get` behind the search of the cache
  unfoldable pub type_in_kernel : Query U → TypeState U → Chosen × TypeState U
  unfolding take_type same_type
  type_in_kernel query st =
      let (done, d) = query st.blob in
      let st' : TypeState U = record st { blob = d } in
      if done
      then with_told st' (λ name revision. elim (same_type has_name name revision st.types) [
        | none ↦ (refused, st')
        | some m ↦
            take_type false (record m { kernel_check = KernelCheck.kernel_ok })
              (record st' { types = set_check m.address KernelCheck.kernel_ok st.types })
      ])
      else (refused, st')

  unfoldable pub adt_type_get :
      Query U → List (Cached UserType) → TypeState U → Chosen × TypeState U
  unfolding type_in_kernel take_type
  adt_type_get query cache st = elim (data_setname un st.blob) [
    | none ↦ (crashed, st)
    | some name ↦ elim (find_cached name cache) [
      | some t ↦ take_type false t st
      | none ↦ type_in_kernel query st
    ]
  ]

  -- `dset_type_get` for DSET_CMD_CREATE
  unfoldable pub type_get_create : Query U → TypeState U → Chosen × TypeState U
  unfolding create_type_get
  type_get_create query st =
      if data_test st.blob Opt.kind
      then elim (data_get un st.blob Opt.kind) [
        | some (Value.user_type t) ↦ (chosen t, st)
        | some _ ↦ (crashed, st)
        | none ↦ (crashed, st)
      ]
      else create_type_get query st

  -- `dset_type_check`
  unfoldable pub type_check : TypeState U → Chosen × TypeState U
  unfolding same_type take_type
  type_check st = with_told st (λ name revision.
      elim (same_type match_typename name revision st.types) [
        | none ↦ (refused, st)
        | some m ↦ take_type false m st
      ])
