-- ===== src/User/ArgvLaws.antt =====
-- `build_argv` (lib/dset.c) reads back the words of a line that was written with or without quotes.
use dset.Prelude.{
  suc, ℕ, ◌+◌, ◌≤◌, ◌<◌, ◌≡◌, refl, ap, sym, ◌∙◌, Bool, true, false, not, ◌||◌, List, [], ◌∷◌, ◌++◌,
  map, if◌then◌else◌, ◌==◌, leb, length, length-append, All, arith, Bool-cases, inl, inr,
}
use mathlib.Core.List.{append-nil, append_assoc}
use native.Mathlib.Decide.{ℕ_discrete}
use dset.User.Argv.{
  max_args, is_empty, is_blank, too_long, no_close_quote, no_memory, Lexer, going, stopped,
  lex_byte, lex, build_argv,
}

-- a word as it stands in the line
pub data Spelling : Type 0 where
  plain in_quotes : List ℕ → Spelling

abbrev pub word : Spelling → List ℕ
word (plain w) = w
word (in_quotes w) = w

abbrev pub spell : Spelling → List ℕ
spell (plain w) = w
spell (in_quotes w) = b'"' ∷ (w ++ b'"' ∷ [])

-- a byte that goes on with a word, in quotes or not
abbrev pub Reads : Bool → ℕ → Type 0
Reads quoted c = ((c == b'"') ≡ false) × ((quoted || not (is_blank c)) ≡ true)

-- a word has a byte, and none is a quote; a blank stands in quotes only
abbrev pub IsSpelled : Spelling → Type 0
IsSpelled (plain w) = (is_empty w ≡ false) × All (Reads false) w
IsSpelled (in_quotes w) = (is_empty w ≡ false) × All (Reads true) w

-- words with a blank between them, and the end of the line
abbrev pub line : List Spelling → List ℕ
line [] = 10 ∷ []
line (s ∷ []) = spell s ++ 10 ∷ []
line (s ∷ t ∷ rest) = spell s ++ b' ' ∷ line (t ∷ rest)

-- words with a blank behind each, and then `tail`
abbrev pub front : List Spelling → List ℕ → List ℕ
front [] tail = tail
front (s ∷ rest) tail = spell s ++ b' ' ∷ front rest tail

abbrev at : List ℕ → Bool → List (List ℕ) → Lexer
at arg quoted argv = record { arg = arg; quoted = quoted; argv = argv }

is_empty-append : (w : List ℕ) (c : ℕ) (rest : List ℕ) → is_empty (w ++ c ∷ rest) ≡ false
is_empty-append [] c rest = refl
is_empty-append (x ∷ w) c rest = refl

length-words : (ss : List Spelling) → length (map word ss) ≡ length ss
length-words [] = refl
length-words (s ∷ ss) = ap suc (length-words ss)

module _ (alloc : ℕ → Bool) where
  lex-step :
      (x : ℕ) (tail : List ℕ) (last : Bool) (s s' : Lexer)
      → is_empty tail ≡ last
      → lex_byte alloc x last s ≡ going s'
      → lex alloc (x ∷ tail) s ≡ lex alloc tail s'
  unfolding lex
  lex-step x tail last s s' e h =
      ap (λ r. elim r [ going s'' ↦ lex alloc tail s'' | stopped p ↦ stopped p ])
        (ap (λ b. lex_byte alloc x b s) e ∙ h)

  lex-full :
      (x : ℕ) (tail : List ℕ) (s : Lexer)
      → length s.argv + 1 ≡ max_args
      → lex alloc (x ∷ tail) s ≡ stopped too_long
  unfolding lex lex_byte
  lex-full x tail s e = ground arith

  module _ (given : (n : ℕ) → alloc n ≡ true) (argv : List (List ℕ))
      (room : length argv + 1 < max_args) where
    byte-going :
        (x : ℕ) (arg : List ℕ) (quoted : Bool)
        → Reads quoted x
        → lex_byte alloc x false (at arg quoted argv) ≡ going (at (arg ++ x ∷ []) quoted argv)
    unfolding lex_byte
    byte-going x arg quoted r = ground arith

    quote-going :
        (arg : List ℕ) (quoted : Bool)
        → lex_byte alloc b'"' false (at arg quoted argv) ≡ going (at arg (not quoted) argv)
    unfolding lex_byte
    quote-going arg quoted = ground arith

    blank-going :
        (x : ℕ) (last : Bool) (arg : List ℕ)
        → (x == b'"') ≡ false
        → is_blank x ≡ true
        → is_empty arg ≡ false
        → lex_byte alloc x last (at arg false argv) ≡ going (at [] false (argv ++ arg ∷ []))
    unfolding lex_byte
    blank-going x last arg q b e = ground (arith, given (length argv))

    lex-word :
        (quoted : Bool) (w : List ℕ) (c : ℕ) (rest arg : List ℕ)
        → All (Reads quoted) w
        → lex alloc (w ++ c ∷ rest) (at arg quoted argv)
          ≡ lex alloc (c ∷ rest) (at (arg ++ w) quoted argv)
    lex-word quoted [] c rest arg h =
        ap (λ a. lex alloc (c ∷ rest) (at a quoted argv)) (sym (append-nil arg))
    lex-word quoted (x ∷ w) c rest arg (r, h) =
        lex-step x (w ++ c ∷ rest) false (at arg quoted argv) (at (arg ++ x ∷ []) quoted argv)
          (is_empty-append w c rest) (byte-going x arg quoted r)
        ∙ lex-word quoted w c rest (arg ++ x ∷ []) h
        ∙ ap (λ a. lex alloc (c ∷ rest) (at a quoted argv)) (append_assoc arg (x ∷ []) w)

    lex-blank :
        (x : ℕ) (rest arg : List ℕ)
        → (x == b'"') ≡ false
        → is_blank x ≡ true
        → is_empty arg ≡ false
        → lex alloc (x ∷ rest) (at arg false argv) ≡ lex alloc rest (at [] false (argv ++ arg ∷ []))
    lex-blank x rest arg q b e =
        lex-step x rest (is_empty rest) _ _ refl (blank-going x (is_empty rest) arg q b e)

    lex-spelled :
        (s : Spelling) (x : ℕ) (rest : List ℕ)
        → IsSpelled s
        → (x == b'"') ≡ false
        → is_blank x ≡ true
        → lex alloc (spell s ++ x ∷ rest) (at [] false argv)
          ≡ lex alloc rest (at [] false (argv ++ word s ∷ []))
    lex-spelled (plain w) x rest (some_byte, h) q b =
        lex-word false w x rest [] h ∙ lex-blank x rest w q b some_byte
    lex-spelled (in_quotes w) x rest (some_byte, h) q b =
        lex-step b'"' ((w ++ b'"' ∷ []) ++ x ∷ rest) false _ _
          (is_empty-append (w ++ b'"' ∷ []) x rest) (quote-going [] false)
        ∙ ap (λ l. lex alloc l (at [] true argv)) (append_assoc w (b'"' ∷ []) (x ∷ rest))
        ∙ lex-word true w b'"' (x ∷ rest) [] h
        ∙ lex-step b'"' (x ∷ rest) false _ _ refl (quote-going w true)
        ∙ lex-blank x rest w q b some_byte

  module _ (given : (n : ℕ) → alloc n ≡ true) where
    lex-line :
        (s : Spelling) (ss : List Spelling) (argv : List (List ℕ))
        → All IsSpelled (s ∷ ss)
        → length argv + 1 + length ss < max_args
        → lex alloc (line (s ∷ ss)) (at [] false argv)
          ≡ going (at [] false (argv ++ map word (s ∷ ss)))
    unfolding lex
    lex-line s [] argv (h, _) few = lex-spelled given argv (omega arith) s 10 [] h refl refl
    lex-line s (t ∷ ss) argv (h, more) few =
        lex-spelled given argv (omega arith) s b' ' (line (t ∷ ss)) h refl refl
        ∙ lex-line t ss (argv ++ word s ∷ []) more (omega (arith, length-append argv (word s ∷ [])))
        ∙ ap (λ a. going (at [] false a)) (append_assoc argv (word s ∷ []) (map word (t ∷ ss)))

    starts :
        (s : Spelling) (ss : List Spelling)
        → IsSpelled s
        → (x : ℕ) × (tail : List ℕ) × (line (s ∷ ss) ≡ x ∷ tail)
    starts (plain []) ss (e, h) = cc
    starts (plain (x ∷ w)) [] h = (x, w ++ 10 ∷ [], refl)
    starts (plain (x ∷ w)) (t ∷ ss) h = (x, w ++ b' ' ∷ line (t ∷ ss), refl)
    starts (in_quotes w) [] h = (b'"', (w ++ b'"' ∷ []) ++ 10 ∷ [], refl)
    starts (in_quotes w) (t ∷ ss) h = (b'"', (w ++ b'"' ∷ []) ++ b' ' ∷ line (t ∷ ss), refl)

    lex-starts :
        (s : Spelling) (ss : List Spelling) (argv : List (List ℕ))
        → IsSpelled s
        → length argv + 1 ≡ max_args
        → lex alloc (line (s ∷ ss)) (at [] false argv) ≡ stopped too_long
    lex-starts s ss argv h e =
        let (x, tail, p) = starts s ss h in
        ap (λ l. lex alloc l (at [] false argv)) p ∙ lex-full x tail (at [] false argv) e

    lex-long :
        (s : Spelling) (ss : List Spelling) (argv : List (List ℕ))
        → All IsSpelled (s ∷ ss)
        → length argv < max_args
        → max_args ≤ length argv + 1 + length ss
        → lex alloc (line (s ∷ ss)) (at [] false argv) ≡ stopped too_long
    lex-long s [] argv (h, _) fits many = lex-starts s [] argv h (omega arith)
    lex-long s (t ∷ ss) argv (h, more) fits many = elim (ℕ_discrete (length argv + 1) max_args) [
      | yes e ↦ lex-starts s (t ∷ ss) argv h e
      | no n ↦
          lex-spelled given argv (omega arith) s b' ' (line (t ∷ ss)) h refl refl
          ∙ lex-long t ss (argv ++ word s ∷ []) more
              (omega (arith, length-append argv (word s ∷ [])))
              (omega (arith, length-append argv (word s ∷ [])))
    ]

    -- A line of words, each of at least a byte and in quotes if it has a blank, is read back as those
    -- words behind the program's name, with nothing left over, if there are at most 30; with more the
    -- line is refused as too long. (The allocator grants what is asked.)
    pub build_argv-line :
        (program : List ℕ) (s : Spelling) (ss : List Spelling)
        → All IsSpelled (s ∷ ss)
        → build_argv alloc program (line (s ∷ ss)) ≡ (
            if leb (length ss) 29
            then going (at [] false (program ∷ map word (s ∷ ss)))
            else stopped too_long)
    unfolding build_argv
    build_argv-line program s ss h = elim (Bool-cases (leb (length ss) 29)) [
      | inl few ↦ ground (arith, given 0, lex-line s ss (program ∷ []) h)
      | inr many ↦ ground (arith, given 0, lex-long s ss (program ∷ []) h)
    ]

    lex-front :
        (ss : List Spelling) (tail : List ℕ) (argv : List (List ℕ))
        → All IsSpelled ss
        → length argv + length ss < max_args
        → lex alloc (front ss tail) (at [] false argv)
          ≡ lex alloc tail (at [] false (argv ++ map word ss))
    lex-front [] tail argv h few = ap (λ a. lex alloc tail (at [] false a)) (sym (append-nil argv))
    lex-front (s ∷ ss) tail argv (h, more) few =
        lex-spelled given argv (omega arith) s b' ' (front ss tail) h refl refl
        ∙ lex-front ss tail (argv ++ word s ∷ []) more
            (omega (arith, length-append argv (word s ∷ [])))
        ∙ ap (λ a. lex alloc tail (at [] false a)) (append_assoc argv (word s ∷ []) (map word ss))

    lex-open :
        (argv : List (List ℕ)) (w : List ℕ) (c : ℕ)
        → length argv + 1 < max_args
        → All (Reads true) w
        → (c == b'"') ≡ false
        → lex alloc (b'"' ∷ (w ++ c ∷ [])) (at [] false argv)
          ≡ (if is_blank c then going (at (w ++ c ∷ []) true argv) else stopped no_close_quote)
    lex-open argv w c room h q =
        lex-step b'"' (w ++ c ∷ []) false (at [] false argv) (at [] true argv)
          (is_empty-append w c []) (quote-going given argv room [] false)
        ∙ lex-word given argv room true w c [] [] h
        ∙ unfold lex lex_byte in ground arith

    -- A quote that is not closed, behind at most 29 words, is reported if the line ends with a byte of
    -- the word; with a blank at the end, as with the end of a line that was read from a file, the line
    -- is taken with the words in front, and the last word is dropped.
    pub build_argv-open_quote :
        (program : List ℕ) (ss : List Spelling) (w : List ℕ) (c : ℕ)
        → All IsSpelled ss
        → length ss ≤ 29
        → All (Reads true) w
        → (c == b'"') ≡ false
        → build_argv alloc program (front ss (b'"' ∷ (w ++ c ∷ []))) ≡ (
            if is_blank c
            then going (at (w ++ c ∷ []) true (program ∷ map word ss))
            else stopped no_close_quote)
    unfolding build_argv
    build_argv-open_quote program ss w c spelled few h q =
        ap
          (λ b.
            if b
            then lex alloc (front ss (b'"' ∷ (w ++ c ∷ []))) (at [] false (program ∷ []))
            else stopped no_memory)
          (given 0)
        ∙ lex-front ss (b'"' ∷ (w ++ c ∷ [])) (program ∷ []) spelled (omega arith)
        ∙ lex-open (program ∷ map word ss) w c (omega (arith, length-words ss)) h q
