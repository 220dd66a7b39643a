-- ===== src/User/TypeGetLaws.antt =====
-- `create_type_get` (lib/types.c): the type that is chosen serves the name, and the kernel has it.
use dset.Prelude.{ℕ, ◌≤◌, ◌≡◌, ◌⊎◌, true, Option, none, some, List, All}
use mathlib.Core.List.{Mem}
use dset.User.Args.{KernelCheck, UserType}
use dset.User.Blob.{Value, Union, Blob}
use dset.User.BlobSet.{data_get}
use dset.User.Opts.{Opt}
use dset.User.TypeGet.{
  Query, Chosen, chosen, refused, crashed, TypeState, serves, Range, kernel_range,
}
use dset.User.TypeList.{match_typename}

abbrev IsFor : List ℕ → UserType → Type 0
IsFor name t = match_typename name t ≡ true

-- the type is one of the list, for the name
abbrev IsListed : List ℕ → List UserType → UserType → Type 0
IsListed name types t = IsFor name t × Mem t types

abbrev RangeFor : List ℕ → List UserType → Option Range → Type 0
RangeFor name types none = Unit {0}
RangeFor name types (some r) = IsListed name types r.match

-- the revision is one that the kernel supports
abbrev pub IsWithin : ℕ → ℕ → UserType → Type 0
IsWithin kmin kmax t = (kmin ≤ t.revision) × (t.revision ≤ kmax)

-- what the second loop takes, and that all that serve are out of range if it takes nothing
abbrev Taken : List ℕ → ℕ → ℕ → ℕ → List UserType → Option UserType → Type 0
Taken name family kmin kmax types (some m) = IsFor name m × IsWithin kmin kmax m
Taken name family kmin kmax types none =
    All (λ t. serves name family t ≡ true → ¬ IsWithin kmin kmax t) types

-- what the kernel answers to the query about a name
abbrev pub Says : {U : Type 0} → Union U → Query U → Option (ℕ × ℕ) → Type 0
Says un query range = (d : Blob _) → kernel_range un (query d).1 ≡ range

-- a type was asked for by name: which is chosen
abbrev pub Answer :
    {U : Type 0} → Union U → List ℕ → Option (ℕ × ℕ) → List UserType → Chosen × TypeState U → Type 0
Answer un name range types (chosen t, st) =
    IsFor name t
    × (t.kernel_check ≡ KernelCheck.kernel_ok)
    × (data_get un st.blob Opt.kind ≡ some (Value.user_type t))
    × (((st.types ≡ types) × Mem t types)
        ⊎ ((kmin : ℕ) × (kmax : ℕ) × (range ≡ some (kmin, kmax)) × IsWithin kmin kmax t))
Answer un name range types (refused, st) = st.types ≡ types
Answer un name range types (crashed, st) =
    (range ≡ none)
    ⊎ ((kmin : ℕ) × (kmax : ℕ) × (family : ℕ) × (range ≡ some (kmin, kmax))
        × All (λ t. serves name family t ≡ true → ¬ IsWithin kmin kmax t) types)
