-- ===== src/User/EnvLaws.antt =====
-- The core options of the command line (lib/dset.c): they are taken off the words wherever they stand.
use dset.Prelude.{
  ◌⊎◌, inl, inr, ℕ, ◌≡◌, refl, ap, ◌∙◌, Bool, true, Option, none, some, List, [], ◌∷◌,
  if◌then◌else◌, if_cases, All,
}
use dset.User.Argv.{match_envopt}
use dset.User.Args.{HasArg}
use dset.User.Command.{
  EnvOpt, EnvEnd, words_left, keep_word, parsed_then, env_loop, env_then, env_opts,
}
use dset.User.EnvLeft.{IsPlain, IsPlainFor, Left, env_opts-Left}

module _ {S : Type 0} (parse : EnvOpt → List ℕ → S → Option S) where
  keep-parsed :
      (w : List ℕ) (o : Option S) (ws : List (List ℕ))
      → keep_word parse w (parsed_then parse o (words_left ws))
        ≡ parsed_then parse o (words_left (w ∷ ws))
  keep-parsed w none ws = refl
  keep-parsed w (some st) ws = refl

  then-parsed :
      (o : Option S) (ws : List (List ℕ)) (more : List (List ℕ) → S → EnvEnd S)
      → env_then parse (parsed_then parse o (words_left ws)) more ≡ parsed_then parse o (more ws)
  then-parsed none ws more = refl
  then-parsed (some st) ws more = refl

  -- the parts of a line: a word, or a word and the argument behind it
  abbrev pub Part : Type 0
  Part = List ℕ × Option (List ℕ)

  abbrev pub spell : List Part → List (List ℕ)
  spell [] = []
  spell ((w, none) ∷ rest) = w ∷ spell rest
  spell ((w, some v) ∷ rest) = w ∷ v ∷ spell rest

  abbrev pub names : EnvOpt → Part → Bool
  names o i = match_envopt i.0 o.name (some o.alias)

  -- a part is the option, with an argument just if the option has one; or no word of it is the option
  abbrev pub Fits : EnvOpt → Part → Type 0
  Fits o (w, none) = IsPlain o w ⊎ ((names o (w, none) ≡ true) × (o.has_arg ≡ HasArg.no_arg))
  Fits o (w, some v) =
      (IsPlain o w × IsPlain o v)
      ⊎ ((names o (w, some v) ≡ true) × (o.has_arg ≡ HasArg.mandatory_arg))

  -- the parts that are not the option
  abbrev pub without : EnvOpt → List Part → List Part
  without o [] = []
  without o (i ∷ rest) = if names o i then without o rest else i ∷ without o rest

  -- what the parser of the option is given
  abbrev pub given : EnvOpt → Part → List ℕ
  given o (w, none) = o.name
  given o (w, some v) = v

  abbrev pub and_then : Option S → (S → Option S) → Option S
  and_then none f = none
  and_then (some st) f = f st

  -- the parser of the option, for each part that is the option
  abbrev pub parse_each : EnvOpt → List Part → S → Option S
  parse_each o [] st = some st
  parse_each o (i ∷ rest) st =
      if names o i
      then and_then (parse o (given o i) st) (parse_each o rest)
      else parse_each o rest st

  abbrev pub without_all : List EnvOpt → List Part → List Part
  without_all [] parts = parts
  without_all (o ∷ os) parts = without_all os (without o parts)

  -- the options in their order
  abbrev pub parse_parts : List EnvOpt → List Part → S → Option S
  parse_parts [] parts st = some st
  parse_parts (o ∷ os) parts st =
      and_then (parse_each o parts st) (parse_parts os (without o parts))

  loop-plain :
      (o : EnvOpt) (w : List ℕ) (ws : List (List ℕ)) (st : S)
      → IsPlain o w
      → env_loop parse o (w ∷ ws) st ≡ keep_word parse w (env_loop parse o ws st)
  unfolding env_loop
  loop-plain o w [] st n = rw (n) refl
  loop-plain o w (v ∷ ws) st n = rw (n) refl

  loop-switch :
      (o : EnvOpt) (w : List ℕ) (ws : List (List ℕ)) (st : S)
      → match_envopt w o.name (some o.alias) ≡ true
      → o.has_arg ≡ HasArg.no_arg
      → env_loop parse o (w ∷ ws) st ≡ parsed_then parse (parse o o.name st) (env_loop parse o ws)
  unfolding env_loop
  loop-switch o w [] st m a = simp (m, a)
  loop-switch o w (v ∷ ws) st m a = simp (m, a)

  loop-valued :
      (o : EnvOpt) (w v : List ℕ) (ws : List (List ℕ)) (st : S)
      → match_envopt w o.name (some o.alias) ≡ true
      → o.has_arg ≡ HasArg.mandatory_arg
      → env_loop parse o (w ∷ v ∷ ws) st ≡ parsed_then parse (parse o v st) (env_loop parse o ws)
  unfolding env_loop
  loop-valued o w v ws st m a = simp (m, a)

  then-each :
      (o : Option S) (f : S → Option S) (more : S → EnvEnd S) (ws : List (List ℕ))
      → ((st : S) → more st ≡ parsed_then parse (f st) (words_left ws))
      → parsed_then parse o more ≡ parsed_then parse (and_then o f) (words_left ws)
  then-each none f more ws h = refl
  then-each (some st) f more ws h = h st

  -- the loop for one option
  env_loop-parts :
      (o : EnvOpt) (parts : List Part) (st : S)
      → All (Fits o) parts
      → env_loop parse o (spell parts) st
        ≡ parsed_then parse (parse_each o parts st) (words_left (spell (without o parts)))
  env_loop-parts o [] st h = unfold env_loop in refl
  env_loop-parts o ((w, none) ∷ rest) st (inl n, h) =
      loop-plain o w (spell rest) st n
      ∙ ap (keep_word parse w) (env_loop-parts o rest st h)
      ∙ keep-parsed w (parse_each o rest st) (spell (without o rest))
      ∙ rw (n) refl
  env_loop-parts o ((w, none) ∷ rest) st (inr (m, a), h) =
      loop-switch o w (spell rest) st m a
      ∙ then-each (parse o o.name st) (parse_each o rest) (env_loop parse o (spell rest))
          (spell (without o rest)) (λ st'. env_loop-parts o rest st' h)
      ∙ rw (m) refl
  env_loop-parts o ((w, some v) ∷ rest) st (inl (n, n'), h) =
      loop-plain o w (v ∷ spell rest) st n
      ∙ ap (keep_word parse w) (
          loop-plain o v (spell rest) st n'
          ∙ ap (keep_word parse v) (env_loop-parts o rest st h)
          ∙ keep-parsed v (parse_each o rest st) (spell (without o rest)))
      ∙ keep-parsed w (parse_each o rest st) (v ∷ spell (without o rest))
      ∙ rw (n) refl
  env_loop-parts o ((w, some v) ∷ rest) st (inr (m, a), h) =
      loop-valued o w v (spell rest) st m a
      ∙ then-each (parse o v st) (parse_each o rest) (env_loop parse o (spell rest))
          (spell (without o rest)) (λ st'. env_loop-parts o rest st' h)
      ∙ rw (m) refl

  All-without :
      (P : Part → Type 0) (o : EnvOpt) (parts : List Part) → All P parts → All P (without o parts)
  All-without P o [] h = tt
  All-without P o (i ∷ rest) (p, h) =
      if_cases (λ b. All P b) (names o i) (λ _. All-without P o rest h)
        (λ _. (p, All-without P o rest h))

  env_opts-parts :
      (os : List EnvOpt) (parts : List Part) (st : S)
      → All (λ o. All (Fits o) parts) os
      → env_opts parse os (spell parts) st
        ≡ parsed_then parse (parse_parts os parts st) (words_left (spell (without_all os parts)))
  unfolding env_opts
  env_opts-parts [] parts st h = refl
  env_opts-parts (o ∷ os) parts st (f, h) =
      ap (λ e. env_then parse e (env_opts parse os)) (env_loop-parts o parts st f)
      ∙ then-parsed (parse_each o parts st) (spell (without o parts)) (env_opts parse os)
      ∙ then-each (parse_each o parts st) (parse_parts os (without o parts))
          (env_opts parse os (spell (without o parts))) (spell (without_all (o ∷ os) parts))
          (λ st'. env_opts-parts os (without o parts) st' (still os h))
    where
      still :
          (l : List EnvOpt)
          → All (λ o'. All (Fits o') parts) l
          → All (λ o'. All (Fits o') (without o parts)) l
      still [] g = tt
      still (o' ∷ l) (g, g') = (All-without (Fits o') o parts g, still l g')

  -- A line of words, of options without an argument and of options with theirs, in any order, where no
  -- other word is an option: the first part of `dset_parse_argv` runs the parsers option by option, for
  -- each in the order of the line, and leaves just the other words, in their order; or it ends
  -- with the error of a parser. What held of all words holds of those that are left, and none is an
  -- option.
  pub env_opts-Stripped :
      (P : List ℕ → Type 0) (os : List EnvOpt) (parts : List Part) (st : S)
      → All (λ o. All (Fits o) parts) os
      → All P (spell parts)
      → (env_opts parse os (spell parts) st
          ≡ parsed_then parse (parse_parts os parts st) (words_left (spell (without_all os parts))))
        × Left parse (λ w. P w × IsPlainFor os w) (env_opts parse os (spell parts) st)
  env_opts-Stripped P os parts st fits h =
      (env_opts-parts os parts st fits, env_opts-Left parse P os (spell parts) st h)
