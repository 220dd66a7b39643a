-- ===== src/User/Parse.antt =====
-- The parsers of numbers, names and comments (lib/parse.c). A string is its text. The messages that
-- are left in the session's report are not modelled; an error is `failure`, the value -1.
use dset.Prelude.{
  ℕ, ◌+◌, ◌-◌, ◌*◌, ◌/◌, ◌%◌, ◌^◌, Bool, false, not, ◌&&◌, ◌||◌, Option, none, some, List, [], ◌∷◌,
  if◌then◌else◌, ltb, leb, ◌==◌, length,
}
use dset.Uapi.{max_name_len, max_comment_size}
use dset.User.Blob.{Value, Union, Blob, Code, success, failure, data_ignored}
use dset.User.BlobSet.{data_set}
use dset.User.Opts.{Opt}

-- `strtoull(str, &end, 0)`: the number, the text from `end` on, and whether `errno` is ERANGE
pub record Strtoull : Type 0 where
  pub number : ℕ
  pub rest : List ℕ
  pub erange : Bool

-- What is called of the C library: `strtoull`, and the `sscanf` calls with the formats
-- "0x%lx/0x%lx", "0x%lx" and "%x:%x", which give the numbers if all are there. `strdup` is the
-- answer of the allocator.
pub record Libc : Type 0 where
  pub strtoull : List ℕ → Strtoull
  pub scan_mark_mask : List ℕ → Option (ℕ × ℕ)
  pub scan_mark : List ℕ → Option ℕ
  pub scan_prio : List ℕ → Option (ℕ × ℕ)
  pub strdup : Bool

-- `strchr`, as the text before the character and the text after it
unfoldable pub split_at : ℕ → List ℕ → Option (List ℕ × List ℕ)
split_at c [] = none
split_at c (x ∷ xs) =
    let more = split_at c xs in
    if x == c
    then some ([], xs)
    else elim more [ none ↦ none | some (before, after) ↦ some (x ∷ before, after) ]

abbrev pub starts_with : ℕ → List ℕ → Bool
starts_with c [] = false
starts_with c (x ∷ xs) = x == c

unfoldable pub ends_with : ℕ → List ℕ → Bool
ends_with c [] = false
ends_with c (x ∷ []) = x == c
ends_with c (x ∷ y ∷ ys) = ends_with c (y ∷ ys)

-- `elem_separator`: `dset_strchr` with DSET_ELEM_SEPARATOR, a comma that is neither the first nor
-- the last character of a text that has one
unfoldable pub elem_separator : List ℕ → Option (List ℕ × List ℕ)
unfolding split_at ends_with
elem_separator str =
    if not (starts_with b',' str) && not (ends_with b',' str) then split_at b',' str else none

-- `string_to_number_ll`; a bound of 0 is none
unfoldable pub string_to_number_ll : Libc → List ℕ → ℕ → ℕ → Option ℕ
string_to_number_ll c str min max =
    let r = c.strtoull str in
    if length r.rest == 0 && not (length r.rest == length str) && not r.erange
    then (if leb min r.number && (max == 0 || leb r.number max) then some r.number else none)
    else none

-- USHRT_MAX, UINT_MAX, ULLONG_MAX
abbrev pub ushrt_max : ℕ
ushrt_max = 2 ^ 16 - 1

abbrev pub uint_max : ℕ
uint_max = 2 ^ 32 - 1

abbrev pub ullong_max : ℕ
ullong_max = 2 ^ 64 - 1

unfoldable pub string_to_u8 : Libc → List ℕ → Option ℕ
unfolding string_to_number_ll
string_to_u8 c str = string_to_number_ll c str 0 255

unfoldable pub string_to_u16 : Libc → List ℕ → Option ℕ
unfolding string_to_number_ll
string_to_u16 c str = string_to_number_ll c str 0 ushrt_max

unfoldable pub string_to_u32 : Libc → List ℕ → Option ℕ
unfolding string_to_number_ll
string_to_u32 c str = string_to_number_ll c str 0 uint_max

-- `check_setname`
abbrev pub too_long_name : List ℕ → Bool
too_long_name str = ltb (max_name_len - 1) (length str)

-- the u64 of a mark and a mask
abbrev pub mark_word : ℕ → ℕ → ℕ
mark_word mark mask = mark % 2 ^ 32 * 2 ^ 32 + mask % 2 ^ 32

module _ {U : Type 0} (un : Union U) (c : Libc) where
  -- a number that was parsed is stored, or the error is returned
  abbrev pub store_number : Blob U → Opt → (ℕ → Value) → Option ℕ → Code × Blob U
  store_number d o as_value none = (failure, d)
  store_number d o as_value (some n) = data_set un d o (as_value n)

  unfoldable pub parse_domain : Opt → List ℕ → Blob U → Code × Blob U
  parse_domain o str d = data_set un d Opt.domain (Value.text str)

  unfoldable pub parse_timeout : Opt → List ℕ → Blob U → Code × Blob U
  unfolding string_to_number_ll
  parse_timeout o str d =
      store_number d o (λ n. Value.u32 (n % 2 ^ 32))
        (string_to_number_ll c str 0 (uint_max / 2 / 1000))

  unfoldable pub parse_uint64 : Opt → List ℕ → Blob U → Code × Blob U
  unfolding string_to_number_ll
  parse_uint64 o str d = store_number d o Value.u64 (string_to_number_ll c str 0 (ullong_max - 1))

  unfoldable pub parse_uint32 : Opt → List ℕ → Blob U → Code × Blob U
  unfolding string_to_u32
  parse_uint32 o str d = store_number d o Value.u32 (string_to_u32 c str)

  unfoldable pub parse_uint16 : Opt → List ℕ → Blob U → Code × Blob U
  unfolding string_to_u16
  parse_uint16 o str d = store_number d o Value.u16 (string_to_u16 c str)

  unfoldable pub parse_uint8 : Opt → List ℕ → Blob U → Code × Blob U
  unfolding string_to_u8
  parse_uint8 o str d = store_number d o Value.u8 (string_to_u8 c str)

  -- `dset_parse_flag` passes the string on, which no flag reads
  unfoldable pub parse_flag : Opt → List ℕ → Blob U → Code × Blob U
  parse_flag o str d = data_set un d o (Value.text str)

  unfoldable pub parse_setname : Opt → List ℕ → Blob U → Code × Blob U
  parse_setname o str d =
      if too_long_name str then (failure, d) else data_set un d o (Value.text str)

  -- A second "before" or "after" leaves a message, and the function goes on.
  unfoldable pub parse_before : Opt → List ℕ → Blob U → Code × Blob U
  parse_before o str d =
      if too_long_name str
      then (failure, d)
      else data_set un (data_set un d Opt.before (Value.text str)).1 o (Value.text str)

  unfoldable pub parse_after : Opt → List ℕ → Blob U → Code × Blob U
  parse_after o str d = if too_long_name str then (failure, d) else data_set un d o (Value.text str)

  unfoldable pub parse_comment : Opt → List ℕ → Blob U → Code × Blob U
  unfolding split_at
  parse_comment o str d = elim (split_at b'"' str) [
    | some _ ↦ (failure, d)
    | none ↦
        if ltb max_comment_size (length str) then (failure, d) else data_set un d o (Value.text str)
  ]

  unfoldable pub parse_skbmark : Opt → List ℕ → Blob U → Code × Blob U
  parse_skbmark o str d = elim (c.scan_mark_mask str) [
    | some (mark, mask) ↦ data_set un d o (Value.u64 (mark_word mark mask))
    | none ↦ elim (c.scan_mark str) [
      | some mark ↦ data_set un d o (Value.u64 (mark_word mark (2 ^ 32 - 1)))
      | none ↦ (failure, d)
    ]
  ]

  unfoldable pub parse_skbprio : Opt → List ℕ → Blob U → Code × Blob U
  parse_skbprio o str d = elim (c.scan_prio str) [
    | some (maj, min) ↦ data_set un d o (Value.u32 (maj * 2 ^ 16 % 2 ^ 32 + min % 2 ^ 16))
    | none ↦ (failure, d)
  ]

  -- a warning, once for each option
  unfoldable pub parse_ignored : Opt → List ℕ → Blob U → Code × Blob U
  unfolding data_ignored
  parse_ignored o str d = (success, (data_ignored d o).1)
