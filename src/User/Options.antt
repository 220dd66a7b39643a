-- ===== src/User/Options.antt =====
-- The options of a command (lib/dset.c): `call_parser`, `check_mandatory`, `check_allowed`. What is
-- reported by `custom_error` is a value.
use dset.Prelude.{
  ℕ, zero, suc, ◌+◌, Bool, true, false, not, ◌||◌, Option, none, some, List, [], ◌∷◌, if◌then◌else◌,
  ◌==◌, length,
}
use dset.User.Argv.{match_option}
use dset.User.Args.{HasArg, Keyword, Arg, OptArg, UserType, keyword}
use dset.User.Blob.{Union, Blob, success, failure, confused}
use dset.User.Opts.{Opt, OptBits, no_bits, flag, without_bits, meets, opt_number}
use dset.User.Parse.{Libc}
use dset.User.ParseElem.{call_parser}
use dset.User.TypeList.{type_higher_rev}

-- the messages; `newer` is the revision that knows the argument
pub data Problem : Type 0 where
  unknown_argument missing_argument : List ℕ → Problem
  newer : List ℕ → ℕ → Problem
  missing_mandatory not_allowed : List ℕ → Problem
  cannot_check cannot_resolve : Problem

-- How the options end: all are parsed; a parser returned an error; a problem was reported; a null
-- pointer was called or a value misread; or the fuel of the search for a newer revision was used up.
pub data Parsed (U : Type 0) : Type 0 where
  parsed stuck : Blob U → Parsed U
  problem : Problem → Parsed U
  crashed endless : Parsed U

-- `enum dset_adt` as a place in `cmd` of the type
pub data Adt : Type 0 where
  add del test create : Adt

abbrev pub no_arguments : OptArg
no_arguments = record { args = []; need = no_bits; full = no_bits }

abbrev pub command_at : ℕ → List OptArg → OptArg
command_at n [] = no_arguments
command_at zero (c ∷ cs) = c
command_at (suc n) (c ∷ cs) = command_at n cs

abbrev pub adt_number : Adt → ℕ
adt_number Adt.add = 0
adt_number Adt.del = 1
adt_number Adt.test = 2
adt_number Adt.create = 3

abbrev pub cmd_of : UserType → Adt → OptArg
cmd_of t a = command_at (adt_number a) t.cmd

-- the loop over the keywords of the command
unfoldable pub find_arg : List ℕ → List Keyword → Option Arg
unfolding match_option keyword
find_arg str [] = none
find_arg str (k ∷ rest) =
    if match_option str (keyword k).name none then some (keyword k) else find_arg str rest

-- the label `err_unknown`; each round goes one type towards the front of the list; `none` if there is
-- no fuel for a round
unfoldable pub unknown : ℕ → List UserType → UserType → Adt → List ℕ → Option Problem
unfolding find_arg type_higher_rev
unknown zero types t cmd str = none
unknown (suc fuel) types t cmd str =
    let higher = type_higher_rev t types in
    let more = unknown fuel types higher cmd str in
    if higher.address == t.address
    then some (unknown_argument str)
    else elim (find_arg str (cmd_of higher cmd).args) [
      | some arg ↦ some (newer str higher.revision)
      | none ↦ more
    ]

module _ {U : Type 0} (un : Union U) (c : Libc) where
  -- what is reported of an unknown argument
  abbrev pub report_unknown : Option Problem → Parsed U
  report_unknown none = endless
  report_unknown (some p) = problem p

  -- `dset_call_parser`, if the options are parsed in this pass, and then the rest
  unfoldable pub parse_one : Bool → Arg → List ℕ → Blob U → (Blob U → Parsed U) → Parsed U
  unfolding call_parser
  parse_one family arg str d more = if family then more d else elim (call_parser un c arg str d) [
    | none ↦ crashed
    | some (code, d') ↦ elim code [ success ↦ more d' | failure ↦ stuck d' | confused ↦ crashed ]
  ]

  -- does the option take the next word
  abbrev pub takes_value : HasArg → Bool
  takes_value HasArg.mandatory_arg = true
  takes_value HasArg.optional_arg = true
  takes_value h = false

  abbrev pub wants_value : HasArg → Bool
  wants_value HasArg.mandatory_arg = true
  wants_value h = false

  -- the `while` loop of `call_parser` over the words behind the program's name
  unfoldable pub option_loop :
      Bool → (List ℕ → Option Problem) → List Keyword → List (List ℕ) → Blob U → Parsed U
  unfolding find_arg parse_one
  option_loop family unk args [] d = parsed d
  option_loop family unk args (str ∷ []) d = elim (find_arg str args) [
    | none ↦ report_unknown (unk str)
    | some arg ↦
        if wants_value arg.has_arg
        then problem (missing_argument arg.name)
        else parse_one family arg str d (λ d'. parsed d')
  ]
  option_loop family unk args (str ∷ value ∷ rest) d = elim (find_arg str args) [
    | none ↦ report_unknown (unk str)
    | some arg ↦
        if takes_value arg.has_arg
        then parse_one family arg value d (λ d'. option_loop family unk args rest d')
        else parse_one family arg str d (λ d'. option_loop family unk args (value ∷ rest) d')
  ]

  abbrev pub no_keywords : List Keyword → Bool
  no_keywords [] = true
  no_keywords (k ∷ ks) = false

  -- `call_parser`
  unfoldable pub parse_options :
      List UserType → UserType → Adt → Bool → List (List ℕ) → Blob U → Parsed U
  unfolding option_loop unknown
  parse_options types type cmd family [] d = parsed d
  parse_options types type cmd family (str ∷ rest) d =
      if no_keywords (cmd_of type cmd).args
      then problem (unknown_argument str)
      else option_loop family (unknown (length types + 1) types type cmd) (cmd_of type cmd).args
          (str ∷ rest) d

-- the keyword that names an option of `wanted`
unfoldable pub first_missing : OptBits → List Keyword → Option Problem
unfolding keyword meets flag
first_missing wanted [] = none
first_missing wanted (k ∷ rest) =
    if meets 64 wanted (flag (keyword k).opt)
    then some (missing_mandatory (keyword k).name)
    else first_missing wanted rest

-- `check_mandatory`; `none` if nothing is reported
unfoldable pub check_mandatory : OptArg → OptBits → Option Problem
unfolding first_missing meets
check_mandatory cmd flags =
    let wanted : OptBits = without_bits cmd.need flags in
    if not (meets 64 wanted (λ i. true))
    then none
    else elim cmd.args [ [] ↦ some cannot_check | k ∷ ks ↦ first_missing wanted cmd.args ]

-- the options of a list
unfoldable pub bits_of : List Opt → OptBits
unfolding flag
bits_of [] i = false
bits_of (o ∷ rest) i = flag o i || bits_of rest i

-- DSET_CREATE_FLAGS, DSET_ADT_FLAGS
unfoldable pub create_flags : OptBits
unfolding bits_of
create_flags = bits_of (
    Opt.family ∷ Opt.typename ∷ Opt.kind ∷ Opt.domain ∷ Opt.timeout ∷ Opt.gc ∷ Opt.hashsize
    ∷ Opt.maxelem ∷ Opt.probes ∷ Opt.resize ∷ Opt.size ∷ Opt.counters ∷ Opt.create_comment
    ∷ Opt.forceadd ∷ Opt.skbinfo ∷ [])

unfoldable pub adt_flags : OptBits
unfolding bits_of
adt_flags = bits_of (
    Opt.timeout ∷ Opt.name ∷ Opt.nameref ∷ Opt.cadt_flags ∷ Opt.before ∷ Opt.physdev ∷ Opt.nomatch
    ∷ Opt.packets ∷ Opt.bytes ∷ Opt.adt_comment ∷ Opt.skbmark ∷ Opt.skbprio ∷ Opt.skbqueue ∷ [])

abbrev pub cmd_flags : Adt → OptBits
cmd_flags Adt.create = create_flags
cmd_flags a = adt_flags

-- the keyword of an option that is not allowed
unfoldable pub name_of_option : ℕ → List Keyword → Problem
unfolding keyword opt_number
name_of_option i [] = cannot_resolve
name_of_option i (k ∷ rest) =
    if opt_number (keyword k).opt == i then not_allowed (keyword k).name else name_of_option i rest

-- the loop of `check_allowed` over `n` options from `i` on
unfoldable pub allowed_loop : Adt → OptArg → OptBits → ℕ → ℕ → Option Problem
unfolding name_of_option create_flags adt_flags
allowed_loop a cmd flags zero i = none
allowed_loop a cmd flags (suc n) i =
    let more = allowed_loop a cmd flags n (i + 1) in
    if not (cmd_flags a i) || (cmd.full i || not (flags i))
    then more
    else elim cmd.args [ [] ↦ some cannot_check | k ∷ ks ↦ some (name_of_option i cmd.args) ]

-- `check_allowed`: from DSET_OPT_DOMAIN to DSET_OPT_FLAGS
unfoldable pub check_allowed : Adt → OptArg → OptBits → Option Problem
unfolding allowed_loop
check_allowed a cmd flags = allowed_loop a cmd flags 44 4
