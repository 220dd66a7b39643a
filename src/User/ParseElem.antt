-- ===== src/User/ParseElem.antt =====
-- The parsers of elements, and `dset_call_parser` (lib/parse.c).
use dset.Domain.Text.{text_eq}
use dset.Prelude.{ℕ, Bool, not, ◌&&◌, ◌||◌, Option, none, some, List, [], ◌∷◌, if◌then◌else◌, ltb}
use dset.User.Args.{Arg, Elem, Parser, UserType}
use dset.User.Blob.{Value, Union, Blob, Code, success, failure, confused, flags_test}
use dset.User.BlobSet.{data_set, data_get}
use dset.User.Opts.{Opt, flag}
use dset.User.Parse.{
  Libc, elem_separator, parse_domain, parse_timeout, parse_uint64, parse_uint32, parse_uint16,
  parse_flag, parse_before, parse_after, parse_comment, parse_skbmark, parse_skbprio, parse_ignored,
  too_long_name,
}

abbrev pub before_text : List ℕ
before_text = b'b' ∷ b'e' ∷ b'f' ∷ b'o' ∷ b'r' ∷ b'e' ∷ []

abbrev pub after_text : List ℕ
after_text = b'a' ∷ b'f' ∷ b't' ∷ b'e' ∷ b'r' ∷ []

-- the part before the first separator and the two behind it, as `dset_parse_name_compat` finds
-- them: a name alone, a name with a place beside another, or an error
pub data NameParts : Type 0 where
  alone : List ℕ → NameParts
  beside : List ℕ → Bool → List ℕ → NameParts
  malformed : NameParts

unfoldable pub name_parts : List ℕ → NameParts
unfolding elem_separator text_eq
name_parts str = elim (elem_separator str) [
  | none ↦ alone str
  | some (tmp, a) ↦ elim (elem_separator a) [
    | none ↦ malformed
    | some (place, b) ↦
        if text_eq place before_text || text_eq place after_text
        then beside tmp (text_eq place before_text) b
        else malformed
  ]
]

-- go on with the data if no error was returned
abbrev pub then_do : {U : Type 0} → Code × Blob U → (Blob U → Code × Blob U) → Code × Blob U
then_do (success, d) f = f d
then_do (failure, d) f = (failure, d)
then_do (confused, d) f = (confused, d)

module _ {U : Type 0} (un : Union U) (c : Libc) where
  unfoldable pub store_name : Opt → NameParts → Blob U → Code × Blob U
  store_name o malformed d = (failure, d)
  store_name o (alone tmp) d =
      if too_long_name tmp then (failure, d) else data_set un d o (Value.text tmp)
  store_name o (beside tmp before b) d =
      if too_long_name tmp
      then (failure, d)
      else then_do (data_set un d o (Value.text tmp)) (λ d₁.
        if too_long_name b
        then (failure, d₁)
        else then_do (data_set un d₁ Opt.nameref (Value.text b))
            (λ d₂. if before then data_set un d₂ Opt.before (Value.u32 1) else (success, d₂)))

  unfoldable pub parse_name_compat : Opt → List ℕ → Blob U → Code × Blob U
  unfolding name_parts store_name
  parse_name_compat o str d = if c.strdup then store_name o (name_parts str) d else (failure, d)

  -- a parser of a table
  unfoldable pub run_parser : Parser → Opt → List ℕ → Blob U → Code × Blob U
  run_parser Parser.parse_domain o str d = parse_domain un c o str d
  run_parser Parser.parse_before o str d = parse_before un c o str d
  run_parser Parser.parse_after o str d = parse_after un c o str d
  run_parser Parser.parse_timeout o str d = parse_timeout un c o str d
  run_parser Parser.parse_uint64 o str d = parse_uint64 un c o str d
  run_parser Parser.parse_uint32 o str d = parse_uint32 un c o str d
  run_parser Parser.parse_uint16 o str d = parse_uint16 un c o str d
  run_parser Parser.parse_flag o str d = parse_flag un c o str d
  run_parser Parser.parse_comment o str d = parse_comment un c o str d
  run_parser Parser.parse_skbmark o str d = parse_skbmark un c o str d
  run_parser Parser.parse_skbprio o str d = parse_skbprio un c o str d
  run_parser Parser.parse_ignored o str d = parse_ignored un c o str d
  run_parser Parser.parse_name_compat o str d = parse_name_compat o str d

  -- a row of the table without a parser is a null pointer that is called
  unfoldable pub call_parser : Arg → List ℕ → Blob U → Option (Code × Blob U)
  unfolding run_parser flags_test
  call_parser arg str d =
      if flags_test d (flag arg.opt)
      then some (failure, d)
      else elim arg.parse [ none ↦ none | some p ↦ some (run_parser p arg.opt str d) ]

-- the parts of an element that the dimension of the type admits; `none` is a syntax error
unfoldable pub elem_texts : ℕ → Bool → List ℕ → Option (List (List ℕ))
unfolding elem_separator
elem_texts dimension optional str = elim (elem_separator str) [
  | none ↦ if ltb 1 dimension && not optional then none else some (str ∷ [])
  | some (tmp, a) ↦
      if ltb 1 dimension
      then elim (elem_separator a) [
        | none ↦ if ltb 2 dimension && not optional then none else some (tmp ∷ a ∷ [])
        | some (a', b) ↦
            if ltb 2 dimension
            then elim (elem_separator b) [ none ↦ some (tmp ∷ a' ∷ b ∷ []) | some _ ↦ none ]
            else none
      ]
      else none
]

module _ {U : Type 0} (un : Union U) (c : Libc) where
  -- `parse_elem`, part by part
  unfoldable pub parse_each : List Elem → List (List ℕ) → Blob U → Code × Blob U
  unfolding run_parser
  parse_each elems [] d = (success, d)
  parse_each [] (str ∷ rest) d = (failure, d)
  parse_each (e ∷ elems) (str ∷ rest) d = elim e.parse [
    | none ↦ (failure, d)
    | some p ↦ then_do (run_parser un c p e.opt str d) (λ d'. parse_each elems rest d')
  ]

  -- the option of the first part
  abbrev first_opt : List Elem → Opt
  first_opt [] = Opt.no_option
  first_opt (e ∷ elems) = e.opt

  abbrev parse_texts : UserType → Option (List (List ℕ)) → Blob U → Code × Blob U
  parse_texts t none d = (failure, d)
  parse_texts t (some texts) d = parse_each t.elem texts d

  -- the compatibility parser, for a type of one part whose text has a separator
  abbrev compat : UserType → List ℕ → Option Parser
  compat t str =
      if ltb 1 t.dimension
      then none
      else elim (elem_separator str) [ none ↦ none | some _ ↦ t.compat_parse_elem ]

  abbrev parse_typed : UserType → Bool → List ℕ → Blob U → Code × Blob U
  parse_typed t optional str d = elim (compat t str) [
    | some p ↦ run_parser un c p (first_opt t.elem) str d
    | none ↦ parse_texts t (elem_texts t.dimension optional str) d
  ]

  -- `dset_parse_elem`
  unfoldable pub parse_elem : Bool → List ℕ → Blob U → Code × Blob U
  unfolding parse_each elem_texts
  parse_elem optional str d = elim (data_get un d Opt.kind) [
    | some (Value.user_type t) ↦ if c.strdup then parse_typed t optional str d else (failure, d)
    | some _ ↦ (confused, d)
    | none ↦ (failure, d)
  ]
