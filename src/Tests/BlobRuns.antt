-- ===== src/Tests/BlobRuns.antt =====
-- Runs of the data blob, of the parsers and the printing functions of the userspace library.
use dset.Prelude.{ℕ, ◌≡◌, ◌||◌, ◌==◌, ◌+◌, ◌-◌, refl, true, false, none, some, List, [], ◌∷◌, arith}
use dset.Uapi.{has_flag}
use dset.User.Args.{Keyword, keyword}
use dset.User.Blob.{
  Value, CreateData, AdtData, Union, Blob, success, failure, data_test, flags_test,
}
use dset.User.BlobGet.{get-data_set, data_set-cadt_bit}
use dset.User.BlobLaws.{shape}
use dset.User.BlobSet.{data_set, data_get, field}
use dset.User.ElemTrip.{print_elem-parse_elem}
use dset.User.HashDomain.{hash_domain}
use dset.User.Opts.{Opt, flag, no_bits, meets, opt_number}
use dset.User.Parse.{
  Libc, Strtoull, elem_separator, split_at, ends_with, parse_uint32, string_to_u32,
  string_to_number_ll,
}
use dset.User.ParseElem.{call_parser, parse_elem}
use dset.User.ParseLaws.{Called, Dispatched, call_parser-Called, call_parser_twice}
use dset.User.Print.{Format, output, print_data, print_elem}
use dset.User.PrintBounds.{print_data-Within}
use dset.User.PrintLaws.{Within}
use dset.User.Strings.{strlcpy}

-- the member of the union that was written last
pub data Member : Type 0 where
  nothing : Member
  as_name : List ℕ → Member
  as_create : CreateData → Member
  as_adt : AdtData → Member

abbrev pub zero_create : CreateData
zero_create = record {
  probes = 0;
  resize = 0;
  hashsize = 0;
  maxelem = 0;
  gc = 0;
  size = 0;
  references = 0;
  elements = 0;
  memsize = 0;
  typename = [];
  revision_min = 0;
  revision = 0;
}

abbrev zero_adt : AdtData
zero_adt = record {
  name = [];
  nameref = [];
  packets = 0;
  bytes = 0;
  comment = [];
  skbmark = 0;
  skbprio = 0;
  skbqueue = 0;
}

abbrev name_in : Member → List ℕ
name_in (as_name s) = s
name_in m = []

abbrev create_in : Member → CreateData
create_in (as_create c) = c
create_in m = zero_create

abbrev adt_in : Member → AdtData
adt_in (as_adt a) = a
adt_in m = zero_adt

abbrev pub members : Union Member
members = record {
  setname2 = name_in;
  put_setname2 = λ s u. as_name s;
  create = create_in;
  put_create = λ c u. as_create c;
  adt = adt_in;
  put_adt = λ a u. as_adt a;
  zero = nothing;
  setname2-put_setname2 = λ s u. refl;
  create-put_create = λ c u. refl;
  adt-put_adt = λ a u. refl;
}

-- one decimal digit
abbrev digit : List ℕ → Strtoull
digit [] = record { number = 0; rest = []; erange = false }
digit (c ∷ rest) = record { number = c - b'0'; rest = rest; erange = false }

abbrev pub libc : Libc
libc = record {
  strtoull = digit;
  scan_mark_mask = λ s. none;
  scan_mark = λ s. none;
  scan_prio = λ s. none;
  strdup = true;
}

abbrev format : Format
format = record { decimal = λ n. (n + b'0') ∷ []; hex = λ n. (n + b'0') ∷ [] }

abbrev pub empty_blob : Blob Member
empty_blob = record {
  bits = no_bits;
  ignored = no_bits;
  setname = [];
  kind = none;
  family = 0;
  flags = 0;
  cadt_flags = 0;
  timeout = 0;
  domaindata = [];
  index = 0;
  shared = nothing;
}

abbrev typed_blob : Blob Member
typed_blob = record empty_blob { bits = flag Opt.kind; kind = some (hash_domain 1) }

-- "a.b"
abbrev a_b : List ℕ
a_b = b'a' ∷ b'.' ∷ b'b' ∷ []

get-data_set_example :
    ((data_set members empty_blob Opt.domain (Value.text a_b)).0 ≡ success)
    × (data_get members (data_set members empty_blob Opt.domain (Value.text a_b)).1 Opt.domain
        ≡ some (Value.text a_b))
    × ((i : ℕ)
        → (data_set members empty_blob Opt.domain (Value.text a_b)).1.bits i
          ≡ (empty_blob.bits i || (opt_number Opt.domain == i)))
get-data_set_example =
    get-data_set members Opt.domain (Value.text a_b) (Value.text a_b) empty_blob
      (unfold shape strlcpy in refl) (λ e. cc) (λ e. cc)

data_set-cadt_bit_example :
    let d' = (data_set members empty_blob Opt.physdev (Value.text [])).1 in
    (has_flag d'.cadt_flags 1 ≡ true)
    × (data_get members d' Opt.cadt_flags ≡ some (Value.u32 d'.cadt_flags))
    × (data_test d' Opt.physdev ≡ data_test empty_blob Opt.physdev)
data_set-cadt_bit_example =
    data_set-cadt_bit members Opt.physdev 1 (Value.text []) empty_blob (unfold shape in refl)

call_parser-Called_example :
    Dispatched members libc Keyword.maxelem
      (b'7' ∷ [])
      empty_blob
      (call_parser members libc (keyword Keyword.maxelem) (b'7' ∷ []) empty_blob)
    × Called members libc true Opt.maxelem empty_blob
        (call_parser members libc (keyword Keyword.maxelem) (b'7' ∷ []) empty_blob)
unfolding keyword
call_parser-Called_example =
    call_parser-Called members libc Keyword.maxelem (b'7' ∷ []) empty_blob (λ e. cc)

-- the data after "maxelem 7"
abbrev maxelem_set : Blob Member
maxelem_set = record empty_blob {
  bits = λ i. empty_blob.bits i || flag Opt.maxelem i;
  shared = as_create (record zero_create { maxelem = 7 });
}

call_parser_twice_example :
    call_parser members libc (keyword Keyword.maxelem) (b'8' ∷ []) maxelem_set
    ≡ some (failure, maxelem_set)
unfolding keyword
call_parser_twice_example =
    call_parser_twice members libc Keyword.maxelem (b'7' ∷ []) (b'8' ∷ []) empty_blob maxelem_set
      refl
      (unfold call_parser flags_test meets flag opt_number parse_uint32 string_to_u32
          string_to_number_ll data_set in
        refl)

print_data-Within_example : Within 3 (print_data members format 3 typed_blob Opt.kind)
print_data-Within_example = print_data-Within members format 3 typed_blob Opt.kind (omega arith)

print_elem-parse_elem_example :
    ((parse_elem members libc false a_b typed_blob).0 ≡ success)
    × (print_elem members format 8 (parse_elem members libc false a_b typed_blob).1 ≡ output 3 a_b)
print_elem-parse_elem_example =
    print_elem-parse_elem members libc format 1 false 8 a_b typed_blob
      (unfold data_get data_test flags_test meets flag opt_number field in refl) refl
      (unfold elem_separator split_at ends_with in refl) (omega arith) (omega arith)
