-- ===== src/User/Argv.antt =====
-- The command line of the tool (lib/dset.c): `build_argv`, `dset_match_cmd`, `dset_match_option`,
-- `dset_match_envopt`, `dset_shift_argv`. An array of arguments is a list; `argc` is its length.
use dset.Domain.Text.{text_eq}
use dset.Prelude.{
  ℕ, zero, suc, ◌+◌, ◌-◌, Bool, true, false, not, ◌&&◌, ◌||◌, Option, none, some, List, [], ◌∷◌,
  ◌++◌, if◌then◌else◌, leb, ◌==◌, length, take, drop,
}

-- MAX_ARGS, DSET_CMD_ALIASES
abbrev pub max_args : ℕ
max_args = 32

abbrev pub cmd_aliases : ℕ
cmd_aliases = 3

abbrev pub is_empty : List ℕ → Bool
is_empty [] = true
is_empty (c ∷ cs) = false

-- the blanks of `build_argv`
abbrev pub is_blank : ℕ → Bool
is_blank c = c == b' ' || (c == 13 || (c == 10 || c == 9))

-- what stops the function: the message of `custom_error`
pub data LineProblem : Type 0 where
  too_long no_close_quote no_memory : LineProblem

-- the word that is being read, and the words before it, the program's name the first
pub record Lexer : Type 0 where
  pub arg : List ℕ
  pub quoted : Bool
  pub argv : List (List ℕ)

pub data Lexed : Type 0 where
  going : Lexer → Lexed
  stopped : LineProblem → Lexed

module _ (alloc : ℕ → Bool) where
  -- behind the `switch`: the end of a word; `last` tells that the next byte is the NUL
  unfoldable pub end_word : Bool → Lexer → Lexed
  end_word last s =
      if last && s.quoted
      then stopped no_close_quote
      else if is_empty s.arg
      then going s
      else if alloc (length s.argv)
      then going (record s { arg = []; argv = s.argv ++ s.arg ∷ [] })
      else stopped no_memory

  -- one round of the loop
  unfoldable pub lex_byte : ℕ → Bool → Lexer → Lexed
  unfolding end_word
  lex_byte c last s =
      if length s.argv + 1 == max_args
      then stopped too_long
      else if c == b'"'
      then (if last
          then end_word last (record s { quoted = not s.quoted })
          else going (record s { quoted = not s.quoted }))
      else if is_blank c
      then (if s.quoted then going (record s { arg = s.arg ++ c ∷ [] }) else end_word last s)
      else if last
      then end_word last (record s { arg = s.arg ++ c ∷ [] })
      else going (record s { arg = s.arg ++ c ∷ [] })

  unfoldable pub lex : List ℕ → Lexer → Lexed
  unfolding lex_byte
  lex [] s = going s
  lex (c ∷ rest) s = elim (lex_byte c (is_empty rest) s) [
    | going s' ↦ lex rest s'
    | stopped p ↦ stopped p
  ]

  -- `build_argv`, after `reset_argv`; the first allocation is that of the buffer
  unfoldable pub build_argv : List ℕ → List ℕ → Lexed
  unfolding lex
  build_argv program buffer =
      if alloc 0
      then lex buffer (record { arg = []; quoted = false; argv = program ∷ [] })
      else stopped no_memory

-- two leading dashes
abbrev pub has_dashes : List ℕ → Bool
has_dashes [] = false
has_dashes (c ∷ []) = false
has_dashes (c ∷ d ∷ rest) = c == b'-' && d == b'-'

-- `strncmp(a, b, n) == 0`
unfoldable pub same_start : ℕ → List ℕ → List ℕ → Bool
unfolding text_eq
same_start n a b = text_eq (take n a) (take n b)

-- the loop over the names of a command; at most DSET_CMD_ALIASES are read
unfoldable pub any_start : ℕ → ℕ → List ℕ → List (List ℕ) → Bool
unfolding same_start
any_start zero n arg names = false
any_start (suc k) n arg [] = false
any_start (suc k) n arg (name ∷ names) = same_start n arg name || any_start k n arg names

-- `dset_match_cmd`
unfoldable pub match_cmd : List ℕ → List (List ℕ) → Bool
unfolding any_start
match_cmd arg names =
    let skip : ℕ = if has_dashes arg then 2 else 0 in
    if leb (length arg) skip || (length arg == 1 && text_eq arg (b'-' ∷ []))
    then false
    else any_start cmd_aliases (length arg - skip) (drop skip arg) names

-- the name and its alias
abbrev pub is_name : List ℕ → List ℕ → Option (List ℕ) → Bool
is_name arg name none = text_eq arg name
is_name arg name (some alias) = text_eq arg name || text_eq arg alias

-- `dset_match_option` and `dset_match_envopt`
unfoldable pub match_option : List ℕ → List ℕ → Option (List ℕ) → Bool
unfolding text_eq
match_option arg name alias = is_name (if has_dashes arg then drop 2 arg else arg) name alias

unfoldable pub match_envopt : List ℕ → List ℕ → Option (List ℕ) → Bool
unfolding text_eq
match_envopt arg name alias = is_name (if has_dashes arg then drop 1 arg else arg) name alias

-- `dset_shift_argv`
unfoldable pub shift_argv : ℕ → List (List ℕ) → List (List ℕ)
shift_argv from [] = []
shift_argv zero (a ∷ rest) = rest
shift_argv (suc from) (a ∷ rest) = a ∷ shift_argv from rest
