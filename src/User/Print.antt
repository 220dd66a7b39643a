-- ===== src/User/Print.antt =====
-- The printing functions (lib/print.c): what is written to a buffer of `len` bytes.
use dset.Prelude.{
  ℕ, ◌+◌, ◌-◌, ◌*◌, ◌/◌, ◌%◌, ◌^◌, Bool, true, false, not, ◌&&◌, ◌||◌, Option, none, some, List, [],
  ◌∷◌, ◌++◌, if◌then◌else◌, ltb, leb, ◌==◌, length, take, get_elem?,
}
use dset.Uapi.{has_flag, max_name_len}
use dset.User.Args.{Elem, Printer, UserType}
use dset.User.Blob.{Value, Union, Blob, data_test, flag_before_bit}
use dset.User.BlobSet.{data_get, data_setname, data_sizeof}
use dset.User.Opts.{Opt}

-- the conversions of `snprintf`: "%u", "%lu", "%llu", and "%x"
pub record Format : Type 0 where
  pub decimal : ℕ → List ℕ
  pub hex : ℕ → List ℕ

-- What a printing function returns, and the text in the buffer. `failed` is -1; `broken` is a null
-- pointer, a pointer read as what it does not point to, or an assertion.
pub data Printed : Type 0 where
  output : ℕ → List ℕ → Printed
  failed broken : Printed

-- `snprintf`: the length of the whole text is returned
unfoldable pub emit : ℕ → List ℕ → Printed
emit len text = output (length text) (take (len - 1) text)

-- a part and the parts before it; with -1 the offset falls by one
unfoldable pub join : ℕ → List ℕ → Printed → Printed
join size text (output size' text') = output (size + size') (text ++ text')
join size text failed = if size == 0 then failed else output (size - 1) text
join size text broken = broken

-- SNPRINTF_FAILURE, and what follows it with the rest of the buffer
unfoldable pub and_then : ℕ → Printed → (ℕ → Printed) → Printed
unfolding join
and_then len (output size text) rest =
    let more = join size text (rest (len - size)) in if leb len size then output size text else more
and_then len failed rest = failed
and_then len broken rest = broken

module _ {U : Type 0} (un : Union U) (fm : Format) where
  -- a string of the data
  abbrev pub with_text : Option Value → (List ℕ → Printed) → Printed
  with_text (some (Value.text s)) f = f s
  with_text v f = broken

  unfoldable pub print_type : ℕ → Blob U → Opt → Printed
  unfolding emit
  print_type len d o = elim (data_get un d o) [
    | some (Value.user_type t) ↦ if ltb len (length t.name + 1) then failed else emit len t.name
    | some _ ↦ broken
    | none ↦ broken
  ]

  -- the pointer is read as a number of `maxsize` bytes
  abbrev pub number_of_size : ℕ → Option Value → Option ℕ
  number_of_size maxsize (some (Value.u8 n)) = if maxsize == 1 then some n else none
  number_of_size maxsize (some (Value.u16 n)) = if maxsize == 2 then some n else none
  number_of_size maxsize (some (Value.u32 n)) = if maxsize == 4 then some n else none
  number_of_size maxsize (some (Value.u64 n)) = if maxsize == 8 then some n else none
  number_of_size maxsize v = none

  unfoldable pub print_number : ℕ → Blob U → Opt → Printed
  unfolding emit
  print_number len d o = elim (number_of_size (data_sizeof o) (data_get un d o)) [
    | some n ↦ emit len (fm.decimal n)
    | none ↦ broken
  ]

  -- " before NAME" or " after NAME"
  abbrev pub place_text : Bool → List ℕ → List ℕ
  place_text true name = b' ' ∷ b'b' ∷ b'e' ∷ b'f' ∷ b'o' ∷ b'r' ∷ b'e' ∷ b' ' ∷ name
  place_text false name = b' ' ∷ b'a' ∷ b'f' ∷ b't' ∷ b'e' ∷ b'r' ∷ b' ' ∷ name

  -- the command flags are tested for DSET_FLAG_BEFORE, if they are set
  abbrev pub is_before : Blob U → Bool
  is_before d = data_test d Opt.flags && has_flag d.flags flag_before_bit

  unfoldable pub print_name : ℕ → Blob U → Opt → Printed
  unfolding and_then emit
  print_name len d o =
      if ltb len (2 * max_name_len + 2 + 6)
      then failed
      else with_text (data_get un d o) (λ name. and_then len (emit len name) (λ left.
        if data_test d Opt.nameref
        then with_text (data_get un d Opt.nameref)
            (λ ref. and_then left (emit left (place_text (is_before d) ref)) (λ _. output 0 []))
        else output 0 []))

  unfoldable pub print_domain : ℕ → Blob U → Opt → Printed
  unfolding and_then emit
  print_domain len d o =
      with_text (data_get un d o) (λ s. and_then len (emit len s) (λ _. output 0 []))

  unfoldable pub print_comment : ℕ → Blob U → Opt → Printed
  unfolding and_then emit
  print_comment len d o =
      with_text (data_get un d o)
        (λ s. and_then len (emit len (b'"' ∷ s ++ b'"' ∷ [])) (λ _. output 0 []))

  abbrev pub hex_text : ℕ → List ℕ
  hex_text n = b'0' ∷ b'x' ∷ fm.hex n

  unfoldable pub print_skbmark : ℕ → Blob U → Opt → Printed
  unfolding and_then emit
  print_skbmark len d o = elim (data_get un d Opt.skbmark) [
    | some (Value.u64 n) ↦
        let mark = n / 2 ^ 32 % 2 ^ 32 in
        let mask = n % 2 ^ 32 in
        and_then len
          (emit len
            (if mask == 2 ^ 32 - 1 then hex_text mark else hex_text mark ++ b'/' ∷ hex_text mask))
          (λ _. output 0 [])
    | some _ ↦ broken
    | none ↦ broken
  ]

  unfoldable pub print_skbprio : ℕ → Blob U → Opt → Printed
  unfolding and_then emit
  print_skbprio len d o = elim (data_get un d o) [
    | some (Value.u32 n) ↦
        and_then len (emit len (fm.hex (n / 2 ^ 16) ++ b':' ∷ fm.hex (n % 2 ^ 16)))
          (λ _. output 0 [])
    | some _ ↦ broken
    | none ↦ broken
  ]

  -- a printing function of a table
  unfoldable pub run_printer : Printer → ℕ → Blob U → Opt → Printed
  run_printer Printer.print_number len d o = print_number len d o
  run_printer Printer.print_flag len d o = output 0 []
  run_printer Printer.print_comment len d o = print_comment len d o
  run_printer Printer.print_skbmark len d o = print_skbmark len d o
  run_printer Printer.print_skbprio len d o = print_skbprio len d o
  run_printer Printer.print_domain len d o = print_domain len d o
  run_printer Printer.print_name len d o = print_name len d o
  run_printer Printer.print_type len d o = print_type len d o

  -- `dset_print_elem` from a part on: `number` parts are left to the dimension
  unfoldable pub print_part : ℕ → Blob U → List Elem → Printed
  unfolding run_printer
  print_part len d [] = broken
  print_part len d (e ∷ elems) = elim e.print [ none ↦ broken | some p ↦ run_printer p len d e.opt ]

  -- is a further part printed
  abbrev pub has_part : UserType → ℕ → Blob U → Bool
  has_part t n d = elim (get_elem? t.elem n) [
    | none ↦ not (t.dimension == n)
    | some e ↦ not (t.dimension == n || (t.last_elem_optional && not (data_test d e.opt)))
  ]

  abbrev pub drop_part : List Elem → List Elem
  drop_part [] = []
  drop_part (e ∷ elems) = elems

  -- the parts behind the first, each with a separator
  abbrev pub next_part : ℕ → Blob U → List Elem → (ℕ → Printed) → Printed
  next_part len d elems rest =
      and_then len (emit len (b',' ∷ [])) (λ left. and_then left (print_part left d elems) rest)

  unfoldable pub print_elem : ℕ → Blob U → Printed
  unfolding print_part and_then emit
  print_elem len d = elim (data_get un d Opt.kind) [
    | some (Value.user_type t) ↦ and_then len (print_part len d t.elem) (λ left.
        if not (has_part t 1 d)
        then output 0 []
        else next_part left d (drop_part t.elem) (λ left'.
          if not (has_part t 2 d)
          then output 0 []
          else next_part left' d (drop_part (drop_part t.elem)) (λ _. output 0 [])))
    | some _ ↦ broken
    | none ↦ failed
  ]

  -- the `switch` of `dset_print_data`
  unfoldable pub print_value : ℕ → Blob U → Opt → Printed
  unfolding print_domain print_type print_elem print_number emit
  print_value len d Opt.domain = print_domain len d Opt.domain
  print_value len d Opt.kind = print_type len d Opt.kind
  print_value len d Opt.setname = elim (data_setname un d) [ none ↦ broken | some s ↦ emit len s ]
  print_value len d Opt.elem = print_elem len d
  print_value len d Opt.gc = print_number len d Opt.gc
  print_value len d Opt.hashsize = print_number len d Opt.hashsize
  print_value len d Opt.maxelem = print_number len d Opt.maxelem
  print_value len d Opt.probes = print_number len d Opt.probes
  print_value len d Opt.resize = print_number len d Opt.resize
  print_value len d Opt.timeout = print_number len d Opt.timeout
  print_value len d Opt.references = print_number len d Opt.references
  print_value len d Opt.elements = print_number len d Opt.elements
  print_value len d Opt.size = print_number len d Opt.size
  print_value len d o = failed

  -- `dset_print_data`
  unfoldable pub print_data : ℕ → Blob U → Opt → Printed
  unfolding print_value and_then
  print_data len d o = and_then len (print_value len d o) (λ _. output 0 [])
