-- ===== src/User/PrintLaws.antt =====
-- The printing functions (lib/print.c) stay within the buffer, and print back what was parsed.
use dset.Prelude.{
  ℕ, zero, suc, ◌+◌, ◌-◌, ◌≤◌, ◌<◌, Option, none, some, List, [], ◌∷◌, ◌++◌, if◌then◌else◌,
  if_cases, ltb, leb, ◌==◌, length, length-append, take, arith, ◌%◌, ◌/◌, ◌^◌, ◌*◌, leb_false→lt,
}
use dset.Uapi.{max_name_len}
use dset.User.Args.{Printer}
use dset.User.Blob.{Value, Union, Blob, data_test}
use dset.User.BlobSet.{data_get, data_sizeof}
use dset.User.Opts.{Opt}
use dset.User.Print.{
  Format, Printed, output, failed, broken, emit, join, and_then, with_text, print_type,
  number_of_size, print_number, place_text, is_before, print_name, print_domain, print_comment,
  hex_text, print_skbmark, print_skbprio, run_printer,
}

pub length-take :
    (n : ℕ) (xs : List ℕ) → (length (take n xs) ≤ n) × (length (take n xs) ≤ length xs)
length-take zero xs = (omega arith, omega arith)
length-take (suc n) [] = (omega arith, omega arith)
length-take (suc n) (x ∷ xs) = let (a, b) = length-take n xs in (omega arith, omega arith)

-- the text and its NUL are within a buffer of `len` bytes
abbrev pub Within : ℕ → Printed → Type 0
Within len (output size text) = length text < len
Within len failed = Unit {0}
Within len broken = Unit {0}

-- and the text is not longer than the length that is returned
abbrev pub Measured : ℕ → Printed → Type 0
Measured len (output size text) = (length text < len) × (length text ≤ size)
Measured len failed = Unit {0}
Measured len broken = Unit {0}

pub emit-Measured : (len : ℕ) (text : List ℕ) → 0 < len → Measured len (emit len text)
unfolding emit
emit-Measured len text pos = let (a, b) = length-take (len - 1) text in (omega arith, b)

pub and_then-Measured :
    (len : ℕ) (p : Printed) (rest : ℕ → Printed)
    → Measured len p
    → ((left : ℕ) → 0 < left → left ≤ len → Within left (rest left))
    → Within len (and_then len p rest)
unfolding and_then join
and_then-Measured len (output size text) rest (short, fits) more =
    if_cases (Within len) (leb len size) (λ _. short)
      (λ h.
        let gap : size < len = leb_false→lt len size h in
        after (rest (len - size)) (more (len - size) (omega arith) (omega arith)) gap)
  where
    after : (q : Printed) → Within (len - size) q → size < len → Within len (join size text q)
    after (output size' text') w gap = omega (arith, length-append text text')
    after failed w gap = if_cases (Within len) (size == 0) (λ _. tt) (λ _. short)
    after broken w gap = tt
and_then-Measured len failed rest m more = tt
and_then-Measured len broken rest m more = tt

-- the same of a function that never returns -1
abbrev pub Written : ℕ → Printed → Type 0
Written len (output size text) = (length text < len) × (length text ≤ size)
Written len failed = ⊥
Written len broken = Unit {0}

pub Written-Measured : (len : ℕ) (p : Printed) → Written len p → Measured len p
Written-Measured len (output size text) w = w
Written-Measured len failed w = tt
Written-Measured len broken w = tt

pub Measured-Within : (len : ℕ) (p : Printed) → Measured len p → Within len p
Measured-Within len (output size text) w = w.0
Measured-Within len failed w = tt
Measured-Within len broken w = tt

pub emit-Written : (len : ℕ) (text : List ℕ) → 0 < len → Written len (emit len text)
unfolding emit
emit-Written len text pos = let (a, b) = length-take (len - 1) text in (omega arith, b)

nothing-Written : (len : ℕ) → 0 < len → Written len (output 0 [])
nothing-Written len pos = (omega arith, omega arith)

and_then-Written :
    (len : ℕ) (p : Printed) (rest : ℕ → Printed)
    → Written len p
    → ((left : ℕ) → 0 < left → Written left (rest left))
    → Written len (and_then len p rest)
unfolding and_then join
and_then-Written len (output size text) rest (short, fits) more =
    if_cases (Written len) (leb len size) (λ _. (short, fits))
      (λ h.
        let gap : size < len = leb_false→lt len size h in
        after (rest (len - size)) (more (len - size) (omega arith)) gap)
  where
    after : (q : Printed) → Written (len - size) q → size < len → Written len (join size text q)
    after (output size' text') w gap =
        (omega (arith, length-append text text'), omega (arith, length-append text text'))
    after failed w gap = absurd w
    after broken w gap = tt
and_then-Written len failed rest m more = absurd m
and_then-Written len broken rest m more = tt

-- one text and no more
whole-Written :
    (len : ℕ) (text : List ℕ)
    → 0 < len
    → Written len (and_then len (emit len text) (λ _. output 0 []))
whole-Written len text pos =
    and_then-Written len (emit len text) (λ _. output 0 []) (emit-Written len text pos)
      (λ left p. nothing-Written left p)

module _ {U : Type 0} (un : Union U) (fm : Format) where
  with_text-Written :
      (len : ℕ) (v : Option Value) (f : List ℕ → Printed)
      → ((s : List ℕ) → Written len (f s))
      → Written len (with_text un fm v f)
  with_text-Written len (some (Value.text s)) f good = good s
  with_text-Written len (some (Value.u8 n)) f good = tt
  with_text-Written len (some (Value.u16 n)) f good = tt
  with_text-Written len (some (Value.u32 n)) f good = tt
  with_text-Written len (some (Value.u64 n)) f good = tt
  with_text-Written len (some (Value.user_type t)) f good = tt
  with_text-Written len none f good = tt

  pub number-Written :
      (len : ℕ) (d : Blob U) (o : Opt) → 0 < len → Written len (print_number un fm len d o)
  unfolding print_number
  number-Written len d o pos = go (number_of_size un fm (data_sizeof o) (data_get un d o))
    where
      go :
          (v : Option ℕ) → Written len (elim v [ some n ↦ emit len (fm.decimal n) | none ↦ broken ])
      go none = tt
      go (some n) = emit-Written len (fm.decimal n) pos

  pub domain-Written :
      (len : ℕ) (d : Blob U) (o : Opt) → 0 < len → Written len (print_domain un fm len d o)
  unfolding print_domain
  domain-Written len d o pos =
      with_text-Written len (data_get un d o) _ (λ s. whole-Written len s pos)

  comment-Written :
      (len : ℕ) (d : Blob U) (o : Opt) → 0 < len → Written len (print_comment un fm len d o)
  unfolding print_comment
  comment-Written len d o pos =
      with_text-Written len (data_get un d o) _ (λ s. whole-Written len (b'"' ∷ s ++ b'"' ∷ []) pos)

  skbmark-Written :
      (len : ℕ) (d : Blob U) (o : Opt) → 0 < len → Written len (print_skbmark un fm len d o)
  unfolding print_skbmark
  skbmark-Written len d o pos = go (data_get un d Opt.skbmark)
    where
      go :
          (v : Option Value)
          → Written len (elim v [
            | some (Value.u64 n) ↦
                let mark = n / 2 ^ 32 % 2 ^ 32 in
                let mask = n % 2 ^ 32 in
                and_then len
                  (emit len (
                    if mask == 2 ^ 32 - 1
                    then hex_text un fm mark
                    else hex_text un fm mark ++ b'/' ∷ hex_text un fm mask))
                  (λ _. output 0 [])
            | some _ ↦ broken
            | none ↦ broken
          ])
      go (some (Value.u64 n)) = whole-Written len _ pos
      go (some (Value.u8 n)) = tt
      go (some (Value.u16 n)) = tt
      go (some (Value.u32 n)) = tt
      go (some (Value.text s)) = tt
      go (some (Value.user_type t)) = tt
      go none = tt

  skbprio-Written :
      (len : ℕ) (d : Blob U) (o : Opt) → 0 < len → Written len (print_skbprio un fm len d o)
  unfolding print_skbprio
  skbprio-Written len d o pos = go (data_get un d o)
    where
      go :
          (v : Option Value)
          → Written len (elim v [
            | some (Value.u32 n) ↦
                and_then len
                  (emit len (fm.hex (n / 2 ^ 16) ++ b':' ∷ fm.hex (n % 2 ^ 16)))
                  (λ _. output 0 [])
            | some _ ↦ broken
            | none ↦ broken
          ])
      go (some (Value.u32 n)) = whole-Written len _ pos
      go (some (Value.u8 n)) = tt
      go (some (Value.u16 n)) = tt
      go (some (Value.u64 n)) = tt
      go (some (Value.text s)) = tt
      go (some (Value.user_type t)) = tt
      go none = tt

  -- the place beside another set, if one is given
  abbrev place_part : Blob U → ℕ → Printed
  place_part d left =
      if data_test d Opt.nameref
      then with_text un fm (data_get un d Opt.nameref) (λ ref.
        and_then left (emit left (place_text un fm (is_before un fm d) ref)) (λ _. output 0 []))
      else output 0 []

  place_part-Written : (d : Blob U) (left : ℕ) → 0 < left → Written left (place_part d left)
  place_part-Written d left more =
      if_cases (Written left) (data_test d Opt.nameref)
        (λ _.
          with_text-Written left (data_get un d Opt.nameref) _
            (λ ref. whole-Written left (place_text un fm (is_before un fm d) ref) more))
        (λ _. nothing-Written left more)

  name-Measured :
      (len : ℕ) (d : Blob U) (o : Opt) → 0 < len → Measured len (print_name un fm len d o)
  unfolding print_name
  name-Measured len d o pos =
      if_cases (Measured len) (ltb len (2 * max_name_len + 2 + 6)) (λ _. tt)
        (λ _.
          Written-Measured len
            (with_text un fm (data_get un d o)
              (λ name. and_then len (emit len name) (place_part d)))
            (with_text-Written len (data_get un d o) _ (λ name.
              and_then-Written len (emit len name) (place_part d) (emit-Written len name pos)
                (place_part-Written d))))

  pub type-Measured :
      (len : ℕ) (d : Blob U) (o : Opt) → 0 < len → Measured len (print_type un fm len d o)
  unfolding print_type
  type-Measured len d o pos = go (data_get un d o)
    where
      go :
          (v : Option Value)
          → Measured len (elim v [
            | some (Value.user_type t) ↦
                if ltb len (length t.name + 1) then failed else emit len t.name
            | some _ ↦ broken
            | none ↦ broken
          ])
      go (some (Value.user_type t)) =
          if_cases (Measured len) (ltb len (length t.name + 1)) (λ _. tt)
            (λ _. emit-Measured len t.name pos)
      go (some (Value.u8 n)) = tt
      go (some (Value.u16 n)) = tt
      go (some (Value.u32 n)) = tt
      go (some (Value.u64 n)) = tt
      go (some (Value.text s)) = tt
      go none = tt

  pub part-Measured :
      (p : Printer) (len : ℕ) (d : Blob U) (o : Opt)
      → 0 < len
      → Measured len (run_printer un fm p len d o)
  unfolding run_printer
  part-Measured Printer.print_number len d o pos =
      Written-Measured len _ (number-Written len d o pos)
  part-Measured Printer.print_flag len d o pos = (omega arith, omega arith)
  part-Measured Printer.print_comment len d o pos =
      Written-Measured len _ (comment-Written len d o pos)
  part-Measured Printer.print_skbmark len d o pos =
      Written-Measured len _ (skbmark-Written len d o pos)
  part-Measured Printer.print_skbprio len d o pos =
      Written-Measured len _ (skbprio-Written len d o pos)
  part-Measured Printer.print_domain len d o pos =
      Written-Measured len _ (domain-Written len d o pos)
  part-Measured Printer.print_name len d o pos = name-Measured len d o pos
  part-Measured Printer.print_type len d o pos = type-Measured len d o pos
