-- ===== src/User/Command.antt =====
-- The core options and the command on a command line (lib/dset.c): `dset_envopts`, `dset_commands`, and
-- the first two parts of `dset_parse_argv`. The words are those behind the program's name.
use dset.Prelude.{
  ℕ, Bool, true, false, not, ◌&&◌, Option, none, some, List, [], ◌∷◌, if◌then◌else◌, ◌==◌,
}
use dset.User.Args.{HasArg}
use dset.User.Argv.{match_cmd, match_envopt}

-- `enum dset_cmd`, as far as the command line names it
pub data Cmd : Type 0 where
  create add del test destroy list save restore flush rename swap help version quit : Cmd

pub record Command : Type 0 where
  pub cmd : Cmd
  pub names : List (List ℕ)
  pub has_arg : HasArg

-- a command's row of `dset_commands`; the first name is the long one
unfoldable pub command : Cmd → Command
command create = record {
  cmd = create;
  names =
      (b'c' ∷ b'r' ∷ b'e' ∷ b'a' ∷ b't' ∷ b'e' ∷ [])
      ∷ (b'n' ∷ b'e' ∷ b'w' ∷ [])
      ∷ (b'-' ∷ b'N' ∷ [])
      ∷ [];
  has_arg = HasArg.mandatory_arg2;
}
command add = record {
  cmd = add;
  names = (b'a' ∷ b'd' ∷ b'd' ∷ []) ∷ (b'-' ∷ b'A' ∷ []) ∷ [];
  has_arg = HasArg.mandatory_arg2;
}
command del = record {
  cmd = del;
  names = (b'd' ∷ b'e' ∷ b'l' ∷ []) ∷ (b'-' ∷ b'D' ∷ []) ∷ [];
  has_arg = HasArg.mandatory_arg2;
}
command test = record {
  cmd = test;
  names = (b't' ∷ b'e' ∷ b's' ∷ b't' ∷ []) ∷ (b'-' ∷ b'T' ∷ []) ∷ [];
  has_arg = HasArg.mandatory_arg2;
}
command destroy = record {
  cmd = destroy;
  names =
      (b'd' ∷ b'e' ∷ b's' ∷ b't' ∷ b'r' ∷ b'o' ∷ b'y' ∷ []) ∷ (b'x' ∷ []) ∷ (b'-' ∷ b'X' ∷ []) ∷ [];
  has_arg = HasArg.optional_arg;
}
command list = record {
  cmd = list;
  names = (b'l' ∷ b'i' ∷ b's' ∷ b't' ∷ []) ∷ (b'-' ∷ b'L' ∷ []) ∷ [];
  has_arg = HasArg.optional_arg;
}
command save = record {
  cmd = save;
  names = (b's' ∷ b'a' ∷ b'v' ∷ b'e' ∷ []) ∷ (b'-' ∷ b'S' ∷ []) ∷ [];
  has_arg = HasArg.optional_arg;
}
command restore = record {
  cmd = restore;
  names = (b'r' ∷ b'e' ∷ b's' ∷ b't' ∷ b'o' ∷ b'r' ∷ b'e' ∷ []) ∷ (b'-' ∷ b'R' ∷ []) ∷ [];
  has_arg = HasArg.no_arg;
}
command flush = record {
  cmd = flush;
  names = (b'f' ∷ b'l' ∷ b'u' ∷ b's' ∷ b'h' ∷ []) ∷ (b'-' ∷ b'F' ∷ []) ∷ [];
  has_arg = HasArg.optional_arg;
}
command rename = record {
  cmd = rename;
  names = (b'r' ∷ b'e' ∷ b'n' ∷ b'a' ∷ b'm' ∷ b'e' ∷ []) ∷ (b'e' ∷ []) ∷ (b'-' ∷ b'E' ∷ []) ∷ [];
  has_arg = HasArg.mandatory_arg2;
}
command swap = record {
  cmd = swap;
  names = (b's' ∷ b'w' ∷ b'a' ∷ b'p' ∷ []) ∷ (b'w' ∷ []) ∷ (b'-' ∷ b'W' ∷ []) ∷ [];
  has_arg = HasArg.mandatory_arg2;
}
command help = record {
  cmd = help;
  names = (b'h' ∷ b'e' ∷ b'l' ∷ b'p' ∷ []) ∷ (b'-' ∷ b'h' ∷ []) ∷ (b'-' ∷ b'H' ∷ []) ∷ [];
  has_arg = HasArg.optional_arg;
}
command version = record {
  cmd = version;
  names =
      (b'v' ∷ b'e' ∷ b'r' ∷ b's' ∷ b'i' ∷ b'o' ∷ b'n' ∷ [])
      ∷ (b'-' ∷ b'v' ∷ [])
      ∷ (b'-' ∷ b'V' ∷ [])
      ∷ [];
  has_arg = HasArg.no_arg;
}
command quit = record {
  cmd = quit;
  names = (b'q' ∷ b'u' ∷ b'i' ∷ b't' ∷ []) ∷ [];
  has_arg = HasArg.no_arg;
}

-- their order in `dset_commands`
abbrev pub commands : List Cmd
commands =
    create ∷ add ∷ del ∷ test ∷ destroy ∷ list ∷ save ∷ restore ∷ flush ∷ rename ∷ swap ∷ help
    ∷ version ∷ quit ∷ []

-- the first command that the word matches
unfoldable pub find_command : List ℕ → List Cmd → Option Cmd
unfolding command match_cmd
find_command word [] = none
find_command word (c ∷ cs) =
    if match_cmd word (command c).names then some c else find_command word cs

-- the core options; `flag` and `parse` of a row tell no more
pub data CoreOpt : Type 0 where
  output sorted quiet exist list_name terse file : CoreOpt

-- a row of `dset_envopts`
pub record EnvOpt : Type 0 where
  pub opt : CoreOpt
  pub name : List ℕ
  pub alias : List ℕ
  pub has_arg : HasArg

unfoldable pub core_option : CoreOpt → EnvOpt
core_option output = record {
  opt = output;
  name = b'-' ∷ b'o' ∷ [];
  alias = b'-' ∷ b'o' ∷ b'u' ∷ b't' ∷ b'p' ∷ b'u' ∷ b't' ∷ [];
  has_arg = HasArg.mandatory_arg;
}
core_option sorted = record {
  opt = sorted;
  name = b'-' ∷ b's' ∷ [];
  alias = b'-' ∷ b's' ∷ b'o' ∷ b'r' ∷ b't' ∷ b'e' ∷ b'd' ∷ [];
  has_arg = HasArg.no_arg;
}
core_option quiet = record {
  opt = quiet;
  name = b'-' ∷ b'q' ∷ [];
  alias = b'-' ∷ b'q' ∷ b'u' ∷ b'i' ∷ b'e' ∷ b't' ∷ [];
  has_arg = HasArg.no_arg;
}
core_option exist = record {
  opt = exist;
  name = b'-' ∷ b'!' ∷ [];
  alias = b'-' ∷ b'e' ∷ b'x' ∷ b'i' ∷ b's' ∷ b't' ∷ [];
  has_arg = HasArg.no_arg;
}
core_option list_name = record {
  opt = list_name;
  name = b'-' ∷ b'n' ∷ [];
  alias = b'-' ∷ b'n' ∷ b'a' ∷ b'm' ∷ b'e' ∷ [];
  has_arg = HasArg.no_arg;
}
core_option terse = record {
  opt = terse;
  name = b'-' ∷ b't' ∷ [];
  alias = b'-' ∷ b't' ∷ b'e' ∷ b'r' ∷ b's' ∷ b'e' ∷ [];
  has_arg = HasArg.no_arg;
}
core_option file = record {
  opt = file;
  name = b'-' ∷ b'f' ∷ [];
  alias = b'-' ∷ b'f' ∷ b'i' ∷ b'l' ∷ b'e' ∷ [];
  has_arg = HasArg.mandatory_arg;
}

-- `dset_envopts`
unfoldable pub envopts : List EnvOpt
envopts =
    core_option output
    ∷ core_option sorted
    ∷ core_option quiet
    ∷ core_option exist
    ∷ core_option list_name
    ∷ core_option terse
    ∷ core_option file
    ∷ []

-- how the core options end: with the words that are left, with an option that lacks its argument, or with
-- the error of a parser
pub data EnvEnd (S : Type 0) : Type 0 where
  words_left : List (List ℕ) → S → EnvEnd S
  lacks_argument : List ℕ → EnvEnd S
  env_error : EnvEnd S

-- `parse` is the parser of the row, on what it changes
module _ {S : Type 0} (parse : EnvOpt → List ℕ → S → Option S) where
  abbrev pub keep_word : List ℕ → EnvEnd S → EnvEnd S
  keep_word w (words_left ws st) = words_left (w ∷ ws) st
  keep_word w (lacks_argument name) = lacks_argument name
  keep_word w env_error = env_error

  abbrev pub parsed_then : Option S → (S → EnvEnd S) → EnvEnd S
  parsed_then none more = env_error
  parsed_then (some st) more = more st

  -- an option at the end of the words
  abbrev pub at_end : EnvOpt → HasArg → S → EnvEnd S
  at_end o HasArg.mandatory_arg st = lacks_argument o.name
  at_end o HasArg.no_arg st = parsed_then (parse o o.name st) (λ st'. words_left [] st')
  at_end o h st = words_left [] st

  -- the loop over the words for one option
  unfoldable pub env_loop : EnvOpt → List (List ℕ) → S → EnvEnd S
  unfolding match_envopt
  env_loop o [] st = words_left [] st
  env_loop o (w ∷ []) st =
      if match_envopt w o.name (some o.alias) then at_end o o.has_arg st else words_left (w ∷ []) st
  env_loop o (w ∷ v ∷ rest) st =
      let kept = keep_word w (env_loop o (v ∷ rest) st) in
      if match_envopt w o.name (some o.alias)
      then elim o.has_arg [
        | HasArg.mandatory_arg ↦ parsed_then (parse o v st) (λ st'. env_loop o rest st')
        | HasArg.optional_arg ↦ parsed_then (parse o v st) (λ st'. env_loop o rest st')
        | HasArg.no_arg ↦ parsed_then (parse o o.name st) (λ st'. env_loop o (v ∷ rest) st')
        | HasArg.mandatory_arg2 ↦ env_loop o (v ∷ rest) st
      ]
      else kept

  abbrev pub env_then : EnvEnd S → (List (List ℕ) → S → EnvEnd S) → EnvEnd S
  env_then (words_left ws st) more = more ws st
  env_then (lacks_argument name) more = lacks_argument name
  env_then env_error more = env_error

  -- the loop over `dset_envopts`
  unfoldable pub env_opts : List EnvOpt → List (List ℕ) → S → EnvEnd S
  unfolding env_loop
  env_opts [] ws st = words_left ws st
  env_opts (o ∷ os) ws st = env_then (env_loop o ws st) (λ ws' st'. env_opts os ws' st')

-- what is found on the command line
pub record Chosen : Type 0 where
  pub cmd : Cmd
  pub arg0 : Option (List ℕ)
  pub arg1 : Option (List ℕ)
  pub rest : List (List ℕ)

pub data Choice : Type 0 where
  chosen : Chosen → Choice
  no_command : List (List ℕ) → Choice
  not_in_restore lacks_first lacks_second : List ℕ → Choice
  not_interactive : Choice

abbrev pub first_name : List (List ℕ) → List ℕ
first_name [] = []
first_name (n ∷ ns) = n

-- the words of a command
unfoldable pub take_words : Command → List (List ℕ) → Choice
take_words c ws = elim c.has_arg [
  | HasArg.mandatory_arg2 ↦ elim ws [
    | [] ↦ lacks_first (first_name c.names)
    | a ∷ more ↦ elim more [
      | [] ↦ lacks_second (first_name c.names)
      | b ∷ rest ↦ chosen (record { cmd = c.cmd; arg0 = some a; arg1 = some b; rest = rest })
    ]
  ]
  | HasArg.mandatory_arg ↦ elim ws [
    | [] ↦ lacks_first (first_name c.names)
    | a ∷ rest ↦ chosen (record { cmd = c.cmd; arg0 = some a; arg1 = none; rest = rest })
  ]
  | HasArg.optional_arg ↦ elim ws [
    | [] ↦ chosen (record { cmd = c.cmd; arg0 = none; arg1 = none; rest = [] })
    | a ∷ rest ↦ chosen (record { cmd = c.cmd; arg0 = some a; arg1 = none; rest = rest })
  ]
  | HasArg.no_arg ↦ chosen (record { cmd = c.cmd; arg0 = none; arg1 = none; rest = ws })
]

-- commands that a line of a restore must not have
abbrev pub is_outside : Cmd → Bool
is_outside restore = true
is_outside version = true
is_outside help = true
is_outside c = false

abbrev pub is_restore : Cmd → Bool
is_restore restore = true
is_restore c = false

abbrev pub run_command : ℕ → Bool → List (List ℕ) → Cmd → Choice
run_command restore_line interactive rest c =
    if not (restore_line == 0) && is_outside c
    then not_in_restore (first_name (command c).names)
    else if interactive && is_restore c
    then not_interactive
    else take_words (command c) rest

-- the second part of `dset_parse_argv`
unfoldable pub choose_command : ℕ → Bool → List (List ℕ) → Choice
unfolding find_command command take_words
choose_command restore_line interactive [] = no_command []
choose_command restore_line interactive (w ∷ rest) = elim (find_command w commands) [
  | none ↦ no_command (w ∷ rest)
  | some c ↦ run_command restore_line interactive rest c
]
