-- ===== src/User/PrintBounds.antt =====
-- The printing functions (lib/print.c) on a whole element: they stay within the buffer, and an element
-- of hash:domain is printed as it was parsed.
use dset.Prelude.{
  ℕ, ◌<◌, Option, none, some, List, [], ◌∷◌, if◌then◌else◌, if_cases, leb, length-append, arith,
  not,
}
use dset.User.Args.{Elem, Printer, UserType}
use dset.User.Blob.{Value, Union, Blob}
use dset.User.BlobSet.{data_get, data_setname}
use dset.User.Opts.{Opt}
use dset.User.Print.{
  Format, Printed, output, failed, broken, emit, join, and_then, print_number, run_printer,
  print_part, has_part, drop_part, next_part, print_elem, print_value, print_data,
}
use dset.User.PrintLaws.{
  Within, Measured, emit-Measured, and_then-Measured, part-Measured, number-Written, domain-Written,
  type-Measured, Measured-Within, Written-Measured,
}

-- nothing is printed behind a part
alone-Within :
    (len : ℕ) (p : Printed) → Within len p → Within len (and_then len p (λ _. output 0 []))
unfolding and_then join
alone-Within len (output size text) w =
    if_cases (Within len) (leb len size) (λ _. w) (λ _. omega (arith, length-append text []))
alone-Within len failed w = tt
alone-Within len broken w = tt

module _ {U : Type 0} (un : Union U) (fm : Format) where
  first-Measured :
      (len : ℕ) (d : Blob U) (elems : List Elem)
      → 0 < len
      → Measured len (print_part un fm len d elems)
  unfolding print_part
  first-Measured len d [] pos = tt
  first-Measured len d (e ∷ elems) pos = go e.print
    where
      go :
          (p : Option Printer)
          → Measured len (elim p [ none ↦ broken | some q ↦ run_printer un fm q len d e.opt ])
      go none = tt
      go (some q) = part-Measured un fm q len d e.opt pos

  next-Within :
      (len : ℕ) (d : Blob U) (elems : List Elem) (rest : ℕ → Printed)
      → 0 < len
      → ((left : ℕ) → 0 < left → Within left (rest left))
      → Within len (next_part un fm len d elems rest)
  next-Within len d elems rest pos more =
      and_then-Measured len _ _ (emit-Measured len (b',' ∷ []) pos) (λ left p _.
        and_then-Measured left _ rest (first-Measured left d elems p) (λ left' p' _. more left' p'))

  elem-Within : (len : ℕ) (d : Blob U) → 0 < len → Within len (print_elem un fm len d)
  unfolding print_elem
  elem-Within len d pos = go (data_get un d Opt.kind)
    where
      typed :
          (t : UserType)
          → Within len (
              and_then len (print_part un fm len d t.elem) (λ left.
                if not (has_part un fm t 1 d)
                then output 0 []
                else next_part un fm left d (drop_part un fm t.elem) (λ left'.
                  if not (has_part un fm t 2 d)
                  then output 0 []
                  else next_part un fm left' d
                      (drop_part un fm (drop_part un fm t.elem))
                      (λ _. output 0 []))))
      typed t = and_then-Measured len _ _ (first-Measured len d t.elem pos) (λ left p _.
          if_cases (Within left) (not (has_part un fm t 1 d)) (λ _. omega arith)
            (λ _. next-Within left d (drop_part un fm t.elem) _ p (λ left' p'.
              if_cases (Within left') (not (has_part un fm t 2 d)) (λ _. omega arith)
                (λ _.
                  next-Within left' d (drop_part un fm (drop_part un fm t.elem)) _ p'
                    (λ left'' p''. omega arith)))))

      go :
          (v : Option Value)
          → Within len (elim v [
            | some (Value.user_type t) ↦ and_then len (print_part un fm len d t.elem) (λ left.
                if not (has_part un fm t 1 d)
                then output 0 []
                else next_part un fm left d (drop_part un fm t.elem) (λ left'.
                  if not (has_part un fm t 2 d)
                  then output 0 []
                  else next_part un fm left' d
                      (drop_part un fm (drop_part un fm t.elem))
                      (λ _. output 0 [])))
            | some _ ↦ broken
            | none ↦ failed
          ])
      go (some (Value.user_type t)) = typed t
      go (some (Value.u8 n)) = tt
      go (some (Value.u16 n)) = tt
      go (some (Value.u32 n)) = tt
      go (some (Value.u64 n)) = tt
      go (some (Value.text s)) = tt
      go none = tt

  setname-Within :
      (len : ℕ) (d : Blob U) → 0 < len → Within len (print_value un fm len d Opt.setname)
  unfolding print_value
  setname-Within len d pos = go (data_setname un d)
    where
      go : (v : Option (List ℕ)) → Within len (elim v [ none ↦ broken | some s ↦ emit len s ])
      go none = tt
      go (some s) = Measured-Within len (emit len s) (emit-Measured len s pos)

  number-Within :
      (len : ℕ) (d : Blob U) (o : Opt) → 0 < len → Within len (print_number un fm len d o)
  number-Within len d o pos =
      Measured-Within len _ (Written-Measured len _ (number-Written un fm len d o pos))

  value-Within : (len : ℕ) (d : Blob U) (o : Opt) → 0 < len → Within len (print_value un fm len d o)
  unfolding print_value
  value-Within len d Opt.domain pos =
      Measured-Within len _ (Written-Measured len _ (domain-Written un fm len d Opt.domain pos))
  value-Within len d Opt.kind pos = Measured-Within len _ (type-Measured un fm len d Opt.kind pos)
  value-Within len d Opt.setname pos = setname-Within len d pos
  value-Within len d Opt.elem pos = elem-Within len d pos
  value-Within len d Opt.gc pos = number-Within len d Opt.gc pos
  value-Within len d Opt.hashsize pos = number-Within len d Opt.hashsize pos
  value-Within len d Opt.maxelem pos = number-Within len d Opt.maxelem pos
  value-Within len d Opt.probes pos = number-Within len d Opt.probes pos
  value-Within len d Opt.resize pos = number-Within len d Opt.resize pos
  value-Within len d Opt.timeout pos = number-Within len d Opt.timeout pos
  value-Within len d Opt.references pos = number-Within len d Opt.references pos
  value-Within len d Opt.elements pos = number-Within len d Opt.elements pos
  value-Within len d Opt.size pos = number-Within len d Opt.size pos
  value-Within len d o pos = tt

  -- Whatever option is printed, and whatever the data hold, the text that `dset_print_data` leaves
  -- and its NUL lie within the buffer, if that has room for one byte.
  pub print_data-Within :
      (len : ℕ) (d : Blob U) (o : Opt) → 0 < len → Within len (print_data un fm len d o)
  unfolding print_data
  print_data-Within len d o pos = alone-Within len _ (value-Within len d o pos)
