-- ===== src/Tests/UserRuns.antt =====
-- Runs of the userspace library.
use dset.Prelude.{ℕ, refl, none, List, [], ◌∷◌, arith}
use dset.User.Cache.{Cached, find_cached, cache_swap}
use dset.User.CacheRefines.{
  CacheCall, created, destroyed, renamed, swapped_with, Represents, run_calls, meanings,
  run_calls-Represents,
}
use dset.User.CacheSwap.{Exchanged, swap-Exchanged}
use dset.Domain.Text.{text_eq}

abbrev ads : List ℕ
ads = b'a' ∷ b'd' ∷ b's' ∷ []

abbrev mail : List ℕ
mail = b'm' ∷ []

abbrev two_sets : List (Cached ℕ)
two_sets =
    record { name = ads; kind = 1; family = 0 } ∷ record { name = mail; kind = 2; family = 0 } ∷ []

swap-Exchanged_example : Exchanged ads mail two_sets (cache_swap ads mail two_sets)
unfolding find_cached text_eq
swap-Exchanged_example =
    swap-Exchanged ads mail two_sets (omega arith) (omega arith) (refl, (refl, tt))

abbrev session : List (CacheCall ℕ)
session =
    created ads 1
    ∷ created mail 2
    ∷ swapped_with ads mail
    ∷ renamed mail (b'x' ∷ [])
    ∷ destroyed ads
    ∷ []

run_calls-Represents_example : Represents (run_calls session []) (meanings session (λ q. none))
unfolding find_cached text_eq
run_calls-Represents_example =
    run_calls-Represents session (λ q. none) []
      (
        (omega arith, refl),
        (
          (omega arith, refl),
          (
            (omega arith, omega arith, (λ e. cc), (λ e. cc)),
            ((omega arith, (λ e. cc), refl), ((λ e. cc), tt)),
          ),
        ),
      )
      (record { distinct = tt; finds = λ q. refl })
