-- ===== src/User/UnknownLaws.antt =====
-- The search for a newer revision that knows an argument (the label `err_unknown` of `call_parser`,
-- lib/dset.c) ends.
use dset.Prelude.{ℕ, suc, ◌<◌, ◌≡◌, ◌⊎◌, false, List, [], ◌∷◌, if◌then◌else◌, some, ◌==◌, All}
use dset.User.Args.{UserType, Arg}
use dset.User.Options.{Adt, Problem, unknown_argument, newer, unknown, find_arg, cmd_of}

-- no two types at one address
abbrev pub IsApart : List UserType → Type 0
IsApart [] = Unit {0}
IsApart (t ∷ rest) = All (λ u. (t.address == u.address) ≡ false) rest × IsApart rest

-- the first place of an address
unfoldable position : ℕ → List UserType → ℕ
position a [] = 0
position a (t ∷ rest) = if t.address == a then 0 else suc (position a rest)

-- the type in front of another stands before it
abbrev Before : List UserType → UserType → UserType → Type 0
Before l type r = (r.address ≡ type.address) ⊎ (position r.address l < position type.address l)

-- the argument is known to no revision, or the command of a type with the revision has it
abbrev pub IsAnswer : Adt → List ℕ → Problem → Type 0
IsAnswer cmd str p =
    (p ≡ unknown_argument str)
    ⊎ ((u : UserType) × (arg : Arg) × (find_arg str (cmd_of u cmd).args ≡ some arg)
        × (p ≡ newer str u.revision))

-- an answer that fuel for one more place does not change
abbrev pub Ends : List UserType → UserType → Adt → List ℕ → ℕ → ℕ → Type 0
Ends types t cmd str fuel more =
    (p : Problem) × (unknown fuel types t cmd str ≡ some p)
    × (unknown more types t cmd str ≡ some p)
    × IsAnswer cmd str p
