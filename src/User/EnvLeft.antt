-- ===== src/User/EnvLeft.antt =====
-- The core options of the command line (lib/dset.c): none is among the words that are left.
use dset.Prelude.{ℕ, ◌≡◌, false, Option, none, some, List, [], ◌∷◌, if_cases, All}
use dset.User.Argv.{match_envopt}
use dset.User.Args.{HasArg}
use dset.User.Command.{
  EnvOpt, EnvEnd, words_left, lacks_argument, env_error, keep_word, parsed_then, at_end, env_loop,
  env_then, env_opts,
}

-- the word is not the option
abbrev pub IsPlain : EnvOpt → List ℕ → Type 0
IsPlain o w = match_envopt w o.name (some o.alias) ≡ false

abbrev pub IsPlainFor : List EnvOpt → List ℕ → Type 0
IsPlainFor os w = All (λ o. IsPlain o w) os

module _ {S : Type 0} (parse : EnvOpt → List ℕ → S → Option S) where
  -- what holds of the words that are left
  abbrev pub Left : (List ℕ → Type 0) → EnvEnd S → Type 0
  Left P (words_left ws st) = All P ws
  Left P (lacks_argument name) = Unit {0}
  Left P env_error = Unit {0}

  keep_word-Left :
      (P : List ℕ → Type 0) (w : List ℕ) (e : EnvEnd S)
      → P w
      → Left P e
      → Left P (keep_word parse w e)
  keep_word-Left P w (words_left ws st) p h = (p, h)
  keep_word-Left P w (lacks_argument name) p h = tt
  keep_word-Left P w env_error p h = tt

  parsed_then-Left :
      (P : List ℕ → Type 0) (o : Option S) (more : S → EnvEnd S)
      → ((st : S) → Left P (more st))
      → Left P (parsed_then parse o more)
  parsed_then-Left P none more h = tt
  parsed_then-Left P (some st) more h = h st

  at_end-Left :
      (P : List ℕ → Type 0) (o : EnvOpt) (a : HasArg) (st : S) → Left P (at_end parse o a st)
  at_end-Left P o HasArg.mandatory_arg st = tt
  at_end-Left P o HasArg.optional_arg st = tt
  at_end-Left P o HasArg.mandatory_arg2 st = tt
  at_end-Left P o HasArg.no_arg st = parsed_then-Left P (parse o o.name st) _ (λ st'. tt)

  -- one option is taken off, and what held of the words holds of those that are left
  env_loop-Left :
      (P : List ℕ → Type 0) (o : EnvOpt) (ws : List (List ℕ)) (st : S)
      → All P ws
      → Left (λ w. P w × IsPlain o w) (env_loop parse o ws st)
  unfolding env_loop
  env_loop-Left P o [] st h = tt
  env_loop-Left P o (w ∷ []) st (p, h) =
      let Q : List ℕ → Type 0 = λ w. P w × IsPlain o w in
      if_cases (Left Q) (match_envopt w o.name (some o.alias)) (λ _. at_end-Left Q o o.has_arg st)
        (λ n. ((p, n), tt))
  env_loop-Left P o (w ∷ v ∷ rest) st (p, (p', h)) =
      if_cases (Left (λ w. P w × IsPlain o w)) (match_envopt w o.name (some o.alias))
        (λ _.
          taken o.has_arg (λ st'. env_loop-Left P o rest st' h)
            (λ st'. env_loop-Left P o (v ∷ rest) st' (p', h)))
        (λ n.
          keep_word-Left (λ w. P w × IsPlain o w) w _ (p, n)
            (env_loop-Left P o (v ∷ rest) st (p', h)))
    where
      Q : List ℕ → Type 0
      Q = λ w. P w × IsPlain o w

      taken :
          (a : HasArg)
          → ((st' : S) → Left Q (env_loop parse o rest st'))
          → ((st' : S) → Left Q (env_loop parse o (v ∷ rest) st'))
          → Left Q (elim a [
            | HasArg.mandatory_arg ↦
                parsed_then parse (parse o v st) (λ st'. env_loop parse o rest st')
            | HasArg.optional_arg ↦
                parsed_then parse (parse o v st) (λ st'. env_loop parse o rest st')
            | HasArg.no_arg ↦
                parsed_then parse (parse o o.name st) (λ st'. env_loop parse o (v ∷ rest) st')
            | HasArg.mandatory_arg2 ↦ env_loop parse o (v ∷ rest) st
          ])
      taken HasArg.mandatory_arg f g = parsed_then-Left Q (parse o v st) _ f
      taken HasArg.optional_arg f g = parsed_then-Left Q (parse o v st) _ f
      taken HasArg.no_arg f g = parsed_then-Left Q (parse o o.name st) _ g
      taken HasArg.mandatory_arg2 f g = g st

  weaker :
      (P Q : List ℕ → Type 0) (ws : List (List ℕ))
      → ((w : List ℕ) → P w → Q w)
      → All P ws
      → All Q ws
  weaker P Q [] f h = tt
  weaker P Q (w ∷ ws) f (p, h) = (f w p, weaker P Q ws f h)

  Left-weaker :
      (P Q : List ℕ → Type 0) (e : EnvEnd S) → ((w : List ℕ) → P w → Q w) → Left P e → Left Q e
  Left-weaker P Q (words_left ws st) f h = weaker P Q ws f h
  Left-weaker P Q (lacks_argument name) f h = tt
  Left-weaker P Q env_error f h = tt

  env_then-Left :
      (P Q : List ℕ → Type 0) (e : EnvEnd S) (more : List (List ℕ) → S → EnvEnd S)
      → Left P e
      → ((ws : List (List ℕ)) (st : S) → All P ws → Left Q (more ws st))
      → Left Q (env_then parse e more)
  env_then-Left P Q (words_left ws st) more h f = f ws st h
  env_then-Left P Q (lacks_argument name) more h f = tt
  env_then-Left P Q env_error more h f = tt

  pub env_opts-Left :
      (P : List ℕ → Type 0) (os : List EnvOpt) (ws : List (List ℕ)) (st : S)
      → All P ws
      → Left (λ w. P w × IsPlainFor os w) (env_opts parse os ws st)
  unfolding env_opts
  env_opts-Left P [] ws st h = weaker P (λ w. P w × IsPlainFor [] w) ws (λ w p. (p, tt)) h
  env_opts-Left P (o ∷ os) ws st h =
      env_then-Left (λ w. P w × IsPlain o w) (λ w. P w × IsPlainFor (o ∷ os) w)
        (env_loop parse o ws st) (env_opts parse os) (env_loop-Left P o ws st h)
        (λ ws' st' h'.
          Left-weaker (λ w. (P w × IsPlain o w) × IsPlainFor os w)
            (λ w. P w × IsPlainFor (o ∷ os) w) (env_opts parse os ws' st')
            (λ w ((p, n), all). (p, (n, all)))
            (env_opts-Left (λ w. P w × IsPlain o w) os ws' st' h'))
