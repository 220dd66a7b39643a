-- ===== src/User/ElemTrip.antt =====
-- An element of hash:domain through the data blob: `dset_parse_elem` (lib/parse.c), then
-- `dset_print_elem` (lib/print.c).
use dset.Prelude.{
  ℕ, ◌-◌, if◌then◌else◌, ◌||◌, ◌<◌, ◌≡◌, sym, ap, ◌∙◌, Bool, true, none, some, List, [], length,
  arith,
}
use mathlib.Core.List.{append-nil}
use mathlib.Core.Path.{subst}
use dset.Uapi.{max_domain_len}
use dset.User.Blob.{Value, Union, Blob, success, data_test, flags_set, flags_test}
use dset.User.BlobGet.{get-data_set}
use dset.User.BlobLaws.{shape}
use dset.User.BlobSet.{data_set, data_get, field}
use dset.User.HashDomain.{hash_domain}
use dset.User.Opts.{Opt, flag}
use dset.User.OptsLaws.{meets-flag}
use dset.User.Parse.{Libc, elem_separator, parse_domain}
use dset.User.ParseElem.{parse_elem, run_parser}
use dset.User.Print.{
  Format, output, emit, join, with_text, and_then, print_domain, print_elem, print_part,
  run_printer,
}
use dset.User.Strings.{strlcpy_short, take_all}

emit_whole : (len : ℕ) (s : List ℕ) → length s < len → emit len s ≡ output (length s) s
unfolding emit
emit_whole len s h = ap (output (length s)) (take_all (len - 1) s (omega arith))

-- nothing follows a text that fits
alone :
    (len : ℕ) (s : List ℕ)
    → length s < len
    → and_then len (output (length s) s) (λ _. output 0 []) ≡ output (length s) s
unfolding and_then join
alone len s h = ground (arith, append-nil s)

module _ {U : Type 0} (un : Union U) (c : Libc) (fm : Format) where
  parsed_text :
      (address : ℕ) (optional : Bool) (str : List ℕ) (d : Blob U)
      → data_get un d Opt.kind ≡ some (Value.user_type (hash_domain address))
      → c.strdup ≡ true
      → elem_separator str ≡ none
      → parse_elem un c optional str d ≡ data_set un d Opt.domain (Value.text str)
  unfolding parse_elem hash_domain run_parser parse_domain data_set
  parsed_text address optional str d has dup plain = ground arith

  -- storing the domain leaves the type
  kind_kept :
      (str : List ℕ) (d : Blob U)
      → data_get un (data_set un d Opt.domain (Value.text str)).1 Opt.kind ≡ data_get un d Opt.kind
  unfolding data_get data_set field flags_set
  kind_kept str d =
      ap (λ b. if b then elim d.kind [ none ↦ none | some t ↦ some (Value.user_type t) ] else none)
        kept
    where
      kept : data_test (data_set un d Opt.domain (Value.text str)).1 Opt.kind ≡ data_test d Opt.kind
      kept =
          unfold data_test flags_test in
          ground (
            arith,
            meets-flag (λ i. d.bits i || flag Opt.domain i) Opt.kind,
            meets-flag d.bits Opt.kind,
          )

  domain_text :
      (len : ℕ) (str : List ℕ) (d : Blob U)
      → data_get un d Opt.domain ≡ some (Value.text str)
      → length str < len
      → print_domain un fm len d Opt.domain ≡ output (length str) str
  unfolding print_domain
  domain_text len str d text short =
      ap (λ v. with_text un fm v (λ s. and_then len (emit len s) (λ _. output 0 []))) text
      ∙ ap (λ p. and_then len p (λ _. output 0 [])) (emit_whole len str short)
      ∙ alone len str short

  printed_text :
      (address : ℕ) (len : ℕ) (str : List ℕ) (d : Blob U)
      → data_get un d Opt.kind ≡ some (Value.user_type (hash_domain address))
      → data_get un d Opt.domain ≡ some (Value.text str)
      → length str < len
      → print_elem un fm len d ≡ output (length str) str
  unfolding print_elem hash_domain run_printer print_part
  printed_text address len str d has text short =
      rw (has, print_elem)
        (ap (λ p. and_then len p (λ _. output 0 [])) (domain_text len str d text short)
          ∙ alone len str short)

  -- In a session whose type is hash:domain, an element without a separator that fits in the buffer of
  -- the data is parsed with success, and `dset_print_elem` then prints the same text, if its buffer
  -- has room for it.
  pub print_elem-parse_elem :
      (address : ℕ) (optional : Bool) (len : ℕ) (str : List ℕ) (d : Blob U)
      → data_get un d Opt.kind ≡ some (Value.user_type (hash_domain address))
      → c.strdup ≡ true
      → elem_separator str ≡ none
      → length str < max_domain_len
      → length str < len
      → ((parse_elem un c optional str d).0 ≡ success)
        × (print_elem un fm len (parse_elem un c optional str d).1 ≡ output (length str) str)
  print_elem-parse_elem address optional len str d has dup plain fits short =
      subst (λ r. (r.0 ≡ success) × (print_elem un fm len r.1 ≡ output (length str) str))
        (sym (parsed_text address optional str d has dup plain))
        (
          got.0,
          printed_text address len str (data_set un d Opt.domain (Value.text str)).1
              (kind_kept str d ∙ has) got.1 short,
        )
    where
      got :
          ((data_set un d Opt.domain (Value.text str)).0 ≡ success)
          × (data_get un (data_set un d Opt.domain (Value.text str)).1 Opt.domain
              ≡ some (Value.text str))
      got =
          let (a, b, _) =
            get-data_set un Opt.domain (Value.text str) (Value.text str) d
              (unfold shape in
                ap (λ s. some (Value.text s)) (strlcpy_short str max_domain_len fits))
              (λ e. cc) (λ e. cc) in
          (a, b)
