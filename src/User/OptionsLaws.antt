-- ===== src/User/OptionsLaws.antt =====
-- The options of a command (lib/dset.c): which are parsed, and what is reported.
use dset.Prelude.{
  ℕ, zero, suc, ◌+◌, ◌≤◌, ◌<◌, ◌≡◌, ◌≢◌, ◌↔◌, Option, inl, inr, refl, ap, ◌∙◌, Bool, true, false,
  not, ◌||◌, none, some, List, [], ◌∷◌, if◌then◌else◌, All, arith, Bool-cases,
}
use mathlib.Core.Path.{fun_ext, subst}
use native.Mathlib.Decide.{ℕ_discrete}
use dset.User.Args.{Keyword, OptArg, keyword}
use dset.User.Blob.{Union, Blob}
use dset.User.Opts.{OptBits}
use dset.User.Options.{
  Problem, cannot_check, Parsed, parsed, Adt, find_arg, parse_one, takes_value, option_loop,
  cmd_flags, name_of_option, allowed_loop, check_allowed,
}
use dset.User.Parse.{Libc}

-- an option that the command has a flag for is set, and the type allows it
abbrev pub IsAllowed : Adt → OptArg → OptBits → ℕ → Type 0
IsAllowed a cmd flags i = cmd_flags a i ≡ true → flags i ≡ true → cmd.full i ≡ true

module _ (a : Adt) (cmd : OptArg) (flags : OptBits) where
  reported :
      (i : ℕ)
      → (elim cmd.args [ [] ↦ some cannot_check | k ∷ ks ↦ some (name_of_option i cmd.args) ])
        ≢ none
  reported i = ground arith

  allowed_loop-IsAllowed :
      (n i : ℕ)
      → allowed_loop a cmd flags n i ≡ none
      → (j : ℕ) → i ≤ j
      → j < i + n
      → IsAllowed a cmd flags j
  unfolding allowed_loop
  allowed_loop-IsAllowed zero i h j low high = absurd (omega arith)
  allowed_loop-IsAllowed (suc n) i h j low high =
      elim (Bool-cases (not (cmd_flags a i) || (cmd.full i || not (flags i)))) [
        | inl fine ↦ elim (ℕ_discrete i j) [
          | yes e ↦ subst (IsAllowed a cmd flags) e (λ p q. ground arith)
          | no n' ↦ allowed_loop-IsAllowed n (i + 1) (ground arith) j (omega arith) (omega arith)
        ]
        | inr bad ↦ absurd (reported i (ground arith))
      ]

  passes : (p q r : Bool) → (p ≡ true → q ≡ true → r ≡ true) → (not p || (r || not q)) ≡ true
  passes true true r h = ap (λ b. b || false) (h refl refl)
  passes true false true h = refl
  passes true false false h = refl
  passes false q r h = refl

  IsAllowed-allowed_loop :
      (n i : ℕ)
      → ((j : ℕ) → i ≤ j → j < i + n → IsAllowed a cmd flags j)
      → allowed_loop a cmd flags n i ≡ none
  unfolding allowed_loop
  IsAllowed-allowed_loop zero i h = refl
  IsAllowed-allowed_loop (suc n) i h =
      ap
        (λ b.
          if b
          then allowed_loop a cmd flags n (i + 1)
          else elim cmd.args [ [] ↦ some cannot_check | k ∷ ks ↦ some (name_of_option i cmd.args) ])
        (passes (cmd_flags a i) (flags i) (cmd.full i) (h i (omega arith) (omega arith)))
      ∙ IsAllowed-allowed_loop n (i + 1) (λ j low high. h j (omega arith) (omega arith))

  -- `check_allowed` reports nothing exactly when each option from DSET_OPT_DOMAIN to below
  -- DSET_OPT_FLAGS that is set, and that the command has a flag for, is in the full set of the type.
  pub check_allowed-none :
      (check_allowed a cmd flags ≡ none) ↔ ((i : ℕ) → 4 ≤ i → i < 48 → IsAllowed a cmd flags i)
  unfolding check_allowed
  check_allowed-none = (
    λ h i low high. allowed_loop-IsAllowed 44 4 h i low (omega arith),
    λ h. IsAllowed-allowed_loop 44 4 (λ i low high. h i low (omega arith)),
  )

module _ {U : Type 0} (un : Union U) (c : Libc) (unk : List ℕ → Option Problem)
    (args : List Keyword) where
  -- the words of options with their values
  abbrev pub words_of : List (Keyword × List ℕ) → List (List ℕ)
  words_of [] = []
  words_of ((k, value) ∷ rest) = (keyword k).name ∷ value ∷ words_of rest

  -- parsing them one after the other
  abbrev pub parse_all : List (Keyword × List ℕ) → Blob U → Parsed U
  parse_all [] d = parsed d
  parse_all ((k, value) ∷ rest) d = parse_one un c false (keyword k) value d (parse_all rest)

  -- a keyword that takes a value, and the first of the command with its name
  abbrev pub IsValued : Keyword × List ℕ → Type 0
  IsValued (k, value) =
      (find_arg (keyword k).name args ≡ some (keyword k))
      × (takes_value un c (keyword k).has_arg ≡ true)

  -- Options that take a value, written each as its name and its value, are parsed from left to right
  -- until one fails; in the first pass of `create`, which looks for a family, none is.
  pub option_loop-words :
      (pairs : List (Keyword × List ℕ)) (d : Blob U)
      → All IsValued pairs
      → (option_loop un c false unk args (words_of pairs) d ≡ parse_all pairs d)
        × (option_loop un c true unk args (words_of pairs) d ≡ parsed d)
  unfolding option_loop
  option_loop-words [] d h = (refl, refl)
  option_loop-words ((k, value) ∷ rest) d ((named, valued), h) = (
    rw (named, valued, option_loop)
        (ap (parse_one un c false (keyword k) value d)
          (fun_ext (λ d'. (option_loop-words rest d' h).0))),
    rw (named, valued, option_loop) (unfold parse_one in (option_loop-words rest d h).1),
  )
