-- ===== src/Tests/ShellRuns.antt =====
-- Runs of the command line and of the choice of a set type.
use dset.Prelude.{
  arith, ℕ, ◌≡◌, ◌↔◌, ◌≤◌, ◌<◌, refl, true, false, none, some, List, [], ◌∷◌, map, ◌+◌, ◌≢◌, Option,
  All,
}
use dset.Tests.BlobRuns.{Member, members, libc, empty_blob, as_create, zero_create}
use dset.User.Args.{Keyword, UserType, keyword}
use dset.User.Command.{
  Cmd, EnvOpt, words_left, parsed_then, chosen, command, core_option, envopts, env_loop, env_opts,
  find_command, take_words, choose_command,
}
use dset.User.CommandLaws.{Selects, abbreviations, abbreviations-Selects}
use dset.User.EnvLaws.{spell, parse_parts, without_all, env_opts-Stripped}
use dset.User.EnvLeft.{IsPlainFor, Left}
use dset.User.Argv.{any_start, match_cmd, match_envopt, same_start, going, build_argv, match_option}
use dset.User.ArgvLaws.{
  Spelling, plain, in_quotes, word, line, front, build_argv-line, build_argv-open_quote,
}
use dset.User.Blob.{Blob}
use dset.User.HashDomain.{hash_domain}
use dset.User.Options.{
  Adt, Problem, unknown_argument, parsed, cmd_of, find_arg, option_loop, check_allowed,
}
use dset.User.OptionsLaws.{IsAllowed, words_of, parse_all, check_allowed-none, option_loop-words}
use dset.User.Opts.{Opt, flag}
use dset.User.TypeAddLaws.{Added, type_add-Added}
use dset.User.TypeGet.{TypeState}
use dset.User.TypeList.{type_add}
use dset.Domain.Text.{text_eq}

-- revisions of one type
abbrev revision_of : ℕ → ℕ → UserType
revision_of address rev = record (hash_domain address) { revision = rev }

-- a lower revision of a type that is registered
type_add-Added_example :
    Added
      (revision_of 2 0)
      (revision_of 1 1 ∷ [])
      (type_add (revision_of 2 0) (revision_of 1 1 ∷ []))
type_add-Added_example = type_add-Added (revision_of 2 0) (revision_of 1 1 ∷ []) (tt, tt)

-- the data of "create x dhash", and those with the answer of a kernel that knows revision 0
abbrev dhash : List ℕ
dhash = b'd' ∷ b'h' ∷ b'a' ∷ b's' ∷ b'h' ∷ []

abbrev asked : Blob Member
asked = record empty_blob {
  bits = flag Opt.typename;
  shared = as_create (record zero_create { typename = dhash });
}

abbrev answered : Blob Member
answered = record empty_blob { bits = flag Opt.revision; shared = as_create zero_create }

abbrev session : TypeState Member
session = record { blob = asked; types = hash_domain 1 ∷ [] }

-- add x "a b"
abbrev words : List Spelling
words = plain (b'x' ∷ []) ∷ in_quotes (b'a' ∷ b' ' ∷ b'b' ∷ []) ∷ []

build_argv-line_example :
    build_argv (λ n. true) (b'd' ∷ []) (line (plain (b'a' ∷ []) ∷ words))
    ≡ going (record {
      arg = [];
      quoted = false;
      argv = (b'd' ∷ []) ∷ map word (plain (b'a' ∷ []) ∷ words);
    })
build_argv-line_example =
    build_argv-line (λ n. true) (λ n. refl) (b'd' ∷ []) (plain (b'a' ∷ [])) words
      (
        (refl, ((refl, refl), tt)),
        (
          (refl, ((refl, refl), tt)),
          ((refl, ((refl, refl), ((refl, refl), ((refl, refl), tt)))), tt),
        ),
      )

-- add "ab and a newline: the last word is not read
build_argv-open_quote_example :
    build_argv (λ n. true) [] (front (plain (b'a' ∷ []) ∷ []) (b'"' ∷ b'a' ∷ b'b' ∷ 10 ∷ []))
    ≡ going (record { arg = b'a' ∷ b'b' ∷ 10 ∷ []; quoted = true; argv = [] ∷ (b'a' ∷ []) ∷ [] })
build_argv-open_quote_example =
    build_argv-open_quote (λ n. true) (λ n. refl) [] (plain (b'a' ∷ []) ∷ []) (b'a' ∷ b'b' ∷ []) 10
      ((refl, ((refl, refl), tt)), tt) (omega arith) ((refl, refl), ((refl, refl), tt)) refl

-- "add" with a comment, which hash:domain does not take
check_allowed-none_example :
    (check_allowed Adt.add (cmd_of (hash_domain 1) Adt.add) (flag Opt.adt_comment) ≡ none) ↔ (
      (i : ℕ)
      → 4 ≤ i
      → i < 48
      → IsAllowed Adt.add (cmd_of (hash_domain 1) Adt.add) (flag Opt.adt_comment) i)
check_allowed-none_example =
    check_allowed-none Adt.add (cmd_of (hash_domain 1) Adt.add) (flag Opt.adt_comment)

abbrev unheard : List ℕ → Option Problem
unheard str = some (unknown_argument str)

-- maxelem 7
abbrev keywords : List Keyword
keywords = Keyword.hashsize ∷ Keyword.maxelem ∷ []

abbrev pairs : List (Keyword × List ℕ)
pairs = (Keyword.maxelem, b'7' ∷ []) ∷ []

option_loop-words_example :
    (option_loop members libc false unheard keywords
        (words_of members libc unheard keywords pairs)
        empty_blob
      ≡ parse_all members libc unheard keywords pairs empty_blob)
    × (option_loop members libc true unheard keywords
          (words_of members libc unheard keywords pairs)
          empty_blob
        ≡ parsed empty_blob)
option_loop-words_example =
    option_loop-words members libc unheard keywords pairs empty_blob
      ((unfold find_arg keyword match_option text_eq in refl, unfold keyword in refl), tt)

abbreviations-Selects_example : All (Selects Cmd.rename) (abbreviations Cmd.rename)
abbreviations-Selects_example = abbreviations-Selects Cmd.rename

-- list -o save -s x, with an output mode and a count of the options that were seen
abbrev seen : EnvOpt → List ℕ → ℕ → Option ℕ
seen o w n = some (n + 1)

abbrev parts : List (List ℕ × Option (List ℕ))
parts =
    (b'l' ∷ [], none)
    ∷ (b'-' ∷ b'o' ∷ [], some (b's' ∷ []))
    ∷ (b'-' ∷ b's' ∷ [], none)
    ∷ (b'x' ∷ [], none)
    ∷ []

env_opts-Stripped_example :
    (env_opts seen envopts (spell seen parts) 0
      ≡ parsed_then seen
          (parse_parts seen envopts parts 0)
          (words_left (spell seen (without_all seen envopts parts))))
    × Left seen (λ w. (w ≢ []) × IsPlainFor envopts w) (env_opts seen envopts (spell seen parts) 0)
env_opts-Stripped_example =
    env_opts-Stripped seen (λ w. w ≢ []) envopts parts 0
      (unfold envopts core_option match_envopt text_eq in ground arith) (ground arith)

-- two options are seen, and their words are gone
env_opts_run :
    env_opts seen envopts (spell seen parts) 0 ≡ words_left ((b'l' ∷ []) ∷ (b'x' ∷ []) ∷ []) 2
unfolding env_opts env_loop envopts core_option match_envopt text_eq
env_opts_run = refl

-- add x y, after the line 3 of a restore
choose_run :
    choose_command 3 false ((b'a' ∷ []) ∷ (b'x' ∷ []) ∷ (b'y' ∷ []) ∷ [])
    ≡ chosen (record { cmd = Cmd.add; arg0 = some (b'x' ∷ []); arg1 = some (b'y' ∷ []); rest = [] })
unfolding choose_command find_command command match_cmd any_start same_start take_words text_eq
choose_run = refl
