-- ===== src/User/CommandLaws.antt =====
-- The command line (lib/dset.c): how short a command may be written.
use dset.Domain.Text.{text_eq}
use dset.Prelude.{ℕ, zero, suc, ◌+◌, ◌-◌, ◌≡◌, some, List, [], ◌∷◌, length, take, All, arith}
use dset.User.Argv.{match_cmd, any_start, same_start}
use dset.User.Command.{
  Cmd, create, add, del, test, destroy, list, save, restore, flush, rename, swap, help, version,
  quit, command, commands, find_command, first_name,
}

-- the bytes that are enough, as the comments of `dset_commands` say: des[troy], ren[ame], sw[ap], and one
-- byte for the others
abbrev pub shortest : Cmd → ℕ
shortest destroy = 3
shortest rename = 3
shortest swap = 2
shortest c = 1

abbrev pub long_name : Cmd → List ℕ
long_name c = first_name (command c).names

abbrev pub with_dashes : List ℕ → List ℕ
with_dashes w = b'-' ∷ b'-' ∷ w

-- the starts of a word that have at least `n` bytes
abbrev pub starts_from : ℕ → ℕ → List ℕ → List (List ℕ)
starts_from n zero word = []
starts_from n (suc k) word = take n word ∷ starts_from (suc n) k word

abbrev pub abbreviations : Cmd → List (List ℕ)
abbreviations c = starts_from (shortest c) (length (long_name c) + 1 - shortest c) (long_name c)

-- the word selects the command, with or without dashes
abbrev pub Selects : Cmd → List ℕ → Type 0
Selects c w = (find_command w commands ≡ some c) × (find_command (with_dashes w) commands ≡ some c)

-- Every command is selected by its long name and by each start of it that has as many bytes as the
-- comments of the table say, with or without two dashes in front.
pub abbreviations-Selects : (c : Cmd) → All (Selects c) (abbreviations c)
unfolding find_command command match_cmd any_start same_start text_eq
abbreviations-Selects create = ground arith
abbreviations-Selects add = ground arith
abbreviations-Selects del = ground arith
abbreviations-Selects test = ground arith
abbreviations-Selects destroy = ground arith
abbreviations-Selects list = ground arith
abbreviations-Selects save = ground arith
abbreviations-Selects restore = ground arith
abbreviations-Selects flush = ground arith
abbreviations-Selects rename = ground arith
abbreviations-Selects swap = ground arith
abbreviations-Selects help = ground arith
abbreviations-Selects version = ground arith
abbreviations-Selects quit = ground arith
