-- ===== src/User/ParseLaws.antt =====
-- The parsers of the table of keywords (lib/parse.c, lib/args.c): what they leave in the data.
use dset.Prelude.{
  ℕ, ◌≡◌, ◌≢◌, refl, sym, ap, Bool, true, false, Option, none, some, List, if◌then◌else◌, if_cases,
  ltb, length, ◌*◌, ◌+◌, ◌-◌, ◌^◌, ◌%◌,
}
use dset.Uapi.{max_comment_size}
use mathlib.Core.Path.{subst}
use dset.User.Args.{Keyword, Parser, keyword}
use dset.User.Blob.{Value, Union, Blob, Code, success, failure, confused, flags_test, data_test}
use dset.User.BlobGet.{test-set}
use dset.User.BlobSet.{data_set}
use dset.User.Opts.{Opt, flag}
use dset.User.Parse.{
  Libc, store_number, split_at, too_long_name, mark_word, parse_comment, parse_skbmark,
  parse_skbprio, parse_flag, parse_uint64, parse_uint32, parse_uint16, parse_timeout, parse_ignored,
  parse_before, parse_after,
}
use dset.User.ParseElem.{call_parser, run_parser}

-- the keywords whose value is stored in a field of their own
abbrev pub is_valued : Keyword → Bool
is_valued Keyword.hashsize = true
is_valued Keyword.maxelem = true
is_valued Keyword.size = true
is_valued Keyword.before = true
is_valued Keyword.after = true
is_valued Keyword.timeout = true
is_valued Keyword.packets = true
is_valued Keyword.bytes = true
is_valued Keyword.adt_comment = true
is_valued Keyword.skbmark = true
is_valued Keyword.skbprio = true
is_valued Keyword.skbqueue = true
is_valued k = false

module _ {U : Type 0} (un : Union U) (c : Libc) where
  -- how a parser of an option may end: with the option marked, if it is one that is, or with an
  -- error and the data as they were; never with a value of another kind than the option's
  abbrev pub Parsed : Bool → Opt → Blob U → Code × Blob U → Type 0
  Parsed marks o d (success, d') = marks ≡ true → data_test d' o ≡ true
  Parsed marks o d (failure, d') = d' ≡ d
  Parsed marks o d (confused, d') = ⊥

  abbrev pub Called : Bool → Opt → Blob U → Option (Code × Blob U) → Type 0
  Called marks o d none = ⊥
  Called marks o d (some r) = Parsed marks o d r

  number-Parsed :
      (o : Opt) (d : Blob U) (as_value : ℕ → Value)
      → ((n : ℕ) → Parsed true o d (data_set un d o (as_value n)))
      → (r : Option ℕ) → Parsed true o d (store_number un c d o as_value r)
  number-Parsed o d as_value good none = refl
  number-Parsed o d as_value good (some n) = good n

  before-Parsed :
      (str : List ℕ) (d : Blob U) → Parsed true Opt.nameref d (parse_before un c Opt.nameref str d)
  unfolding parse_before data_set
  before-Parsed str d =
      if_cases (Parsed true Opt.nameref d) (too_long_name str) (λ _. refl)
        (λ _ _. test-set un _ Opt.nameref)

  after-Parsed :
      (str : List ℕ) (d : Blob U) → Parsed true Opt.nameref d (parse_after un c Opt.nameref str d)
  unfolding parse_after data_set
  after-Parsed str d =
      if_cases (Parsed true Opt.nameref d) (too_long_name str) (λ _. refl)
        (λ _ _. test-set un _ Opt.nameref)

  comment-Parsed :
      (str : List ℕ) (d : Blob U)
      → Parsed true Opt.adt_comment d (parse_comment un c Opt.adt_comment str d)
  unfolding parse_comment data_set
  comment-Parsed str d =
      elim (split_at b'"' str)
        as (λ o. Parsed true Opt.adt_comment d (elim o [
          | some _ ↦ (failure, d)
          | none ↦
              if ltb max_comment_size (length str)
              then (failure, d)
              else data_set un d Opt.adt_comment (Value.text str)
        ])) [
          | some _ ↦ refl
          | none ↦
              if_cases (Parsed true Opt.adt_comment d) (ltb max_comment_size (length str))
                (λ _. refl) (λ _ _. test-set un _ Opt.adt_comment)
        ]

  skbmark-Parsed :
      (str : List ℕ) (d : Blob U) → Parsed true Opt.skbmark d (parse_skbmark un c Opt.skbmark str d)
  unfolding parse_skbmark data_set
  skbmark-Parsed str d = go (c.scan_mark_mask str) (c.scan_mark str)
    where
      go :
          (o : Option (ℕ × ℕ)) (p : Option ℕ)
          → Parsed true Opt.skbmark d (elim o [
            | some (mark, mask) ↦ data_set un d Opt.skbmark (Value.u64 (mark_word mark mask))
            | none ↦ elim p [
              | some mark ↦ data_set un d Opt.skbmark (Value.u64 (mark_word mark (2 ^ 32 - 1)))
              | none ↦ (failure, d)
            ]
          ])
      go (some (mark, mask)) p = λ _. test-set un _ Opt.skbmark
      go none (some mark) = λ _. test-set un _ Opt.skbmark
      go none none = refl

  skbprio-Parsed :
      (str : List ℕ) (d : Blob U) → Parsed true Opt.skbprio d (parse_skbprio un c Opt.skbprio str d)
  unfolding parse_skbprio data_set
  skbprio-Parsed str d = go (c.scan_prio str)
    where
      go :
          (o : Option (ℕ × ℕ))
          → Parsed true Opt.skbprio d (elim o [
            | some (maj, min) ↦
                data_set un d Opt.skbprio (Value.u32 (maj * 2 ^ 16 % 2 ^ 32 + min % 2 ^ 16))
            | none ↦ (failure, d)
          ])
      go (some (maj, min)) = λ _. test-set un _ Opt.skbprio
      go none = refl

  row-Called :
      (k : Keyword) (str : List ℕ) (d : Blob U)
      → k ≢ Keyword.domain
      → (p : Parser) × ((keyword k).parse ≡ some p)
        × Parsed (is_valued k) (keyword k).opt d (run_parser un c p (keyword k).opt str d)
  unfolding keyword run_parser data_set parse_ignored parse_flag parse_uint64 parse_uint32
      parse_uint16 parse_timeout
  row-Called Keyword.domain str d n = absurd (n refl)
  row-Called Keyword.hashsize str d n = (
    Parser.parse_uint32,
    refl,
    number-Parsed Opt.hashsize d Value.u32 (λ x _. test-set un _ Opt.hashsize) _,
  )
  row-Called Keyword.maxelem str d n = (
    Parser.parse_uint32,
    refl,
    number-Parsed Opt.maxelem d Value.u32 (λ x _. test-set un _ Opt.maxelem) _,
  )
  row-Called Keyword.probes str d n = (Parser.parse_ignored, refl, λ e. cc)
  row-Called Keyword.resize str d n = (Parser.parse_ignored, refl, λ e. cc)
  row-Called Keyword.gc str d n = (Parser.parse_ignored, refl, λ e. cc)
  row-Called Keyword.size str d n = (
    Parser.parse_uint32,
    refl,
    number-Parsed Opt.size d Value.u32 (λ x _. test-set un _ Opt.size) _,
  )
  row-Called Keyword.before str d n = (Parser.parse_before, refl, before-Parsed str d)
  row-Called Keyword.after str d n = (Parser.parse_after, refl, after-Parsed str d)
  row-Called Keyword.forceadd str d n = (Parser.parse_flag, refl, λ e. cc)
  row-Called Keyword.nomatch str d n = (Parser.parse_flag, refl, λ e. cc)
  row-Called Keyword.timeout str d n = (
    Parser.parse_timeout,
    refl,
    number-Parsed Opt.timeout d (λ x. Value.u32 (x % 2 ^ 32)) (λ x _. test-set un _ Opt.timeout) _,
  )
  row-Called Keyword.counters str d n = (Parser.parse_flag, refl, λ e. cc)
  row-Called Keyword.packets str d n = (
    Parser.parse_uint64,
    refl,
    number-Parsed Opt.packets d Value.u64 (λ x _. test-set un _ Opt.packets) _,
  )
  row-Called Keyword.bytes str d n = (
    Parser.parse_uint64,
    refl,
    number-Parsed Opt.bytes d Value.u64 (λ x _. test-set un _ Opt.bytes) _,
  )
  row-Called Keyword.comment str d n = (Parser.parse_flag, refl, λ e. cc)
  row-Called Keyword.adt_comment str d n = (Parser.parse_comment, refl, comment-Parsed str d)
  row-Called Keyword.skbinfo str d n = (Parser.parse_flag, refl, λ e. cc)
  row-Called Keyword.skbmark str d n = (Parser.parse_skbmark, refl, skbmark-Parsed str d)
  row-Called Keyword.skbprio str d n = (Parser.parse_skbprio, refl, skbprio-Parsed str d)
  row-Called Keyword.skbqueue str d n = (
    Parser.parse_uint16,
    refl,
    number-Parsed Opt.skbqueue d Value.u16 (λ x _. test-set un _ Opt.skbqueue) _,
  )

  call-Called :
      (k : Keyword) (str : List ℕ) (d : Blob U)
      → k ≢ Keyword.domain
      → Called (is_valued k) (keyword k).opt d (call_parser un c (keyword k) str d)
  unfolding call_parser
  call-Called k str d n =
      let (p, has, parsed) = row-Called k str d n in
      if_cases (Called (is_valued k) (keyword k).opt d) (flags_test d (flag (keyword k).opt))
        (λ _. refl)
        (λ _.
          subst
            (λ o.
              Called (is_valued k) (keyword k).opt d
                (elim o [ none ↦ none | some q ↦ some (run_parser un c q (keyword k).opt str d) ]))
            (sym has) parsed)

  -- the parser of the row is what runs, unless the option is set
  abbrev pub Dispatched : Keyword → List ℕ → Blob U → Option (Code × Blob U) → Type 0
  Dispatched k str d o =
      (p : Parser) × ((keyword k).parse ≡ some p)
      × (o ≡ (
          if flags_test d (flag (keyword k).opt)
          then some (failure, d)
          else some (run_parser un c p (keyword k).opt str d)))

  -- For a keyword of the table the function in its row runs (DSET_ARG_DOMAIN has none), on the
  -- option of the row, and its result is returned; unless the option is set already, which is an
  -- error. No parser stores a value of another kind than its option's. With an error the data is as
  -- it was; after a success the option of a keyword with a value is marked.
  pub call_parser-Called :
      (k : Keyword) (str : List ℕ) (d : Blob U)
      → k ≢ Keyword.domain
      → Dispatched k str d (call_parser un c (keyword k) str d)
        × Called (is_valued k) (keyword k).opt d (call_parser un c (keyword k) str d)
  unfolding call_parser
  call_parser-Called k str d n =
      let (p, has, parsed) = row-Called k str d n in
      (
        (
          p,
          has,
          ap
              (λ (q : Option Parser).
                if flags_test d (flag (keyword k).opt) then some (failure, d) else elim q [
                  | none ↦ none
                  | some p' ↦ some (run_parser un c p' (keyword k).opt str d)
                ])
              has,
        ),
        call-Called k str d n,
      )

  -- A keyword with a value is taken once: after it was parsed, it is refused.
  pub call_parser_twice :
      (k : Keyword) (str str' : List ℕ) (d d' : Blob U)
      → is_valued k ≡ true
      → call_parser un c (keyword k) str d ≡ some (success, d')
      → call_parser un c (keyword k) str' d' ≡ some (failure, d')
  unfolding call_parser data_test
  call_parser_twice k str str' d d' valued ran =
      let marked : flags_test d' (flag (keyword k).opt) ≡ true =
        subst (Called (is_valued k) (keyword k).opt d) ran (call-Called k str d (λ e. cc)) valued in
      ap
        (λ b. if b then some (failure, d') else elim (keyword k).parse [
          | none ↦ none
          | some p ↦ some (run_parser un c p (keyword k).opt str' d')
        ])
        marked
