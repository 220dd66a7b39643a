-- ===== src/User/BlobGet.antt =====
-- `dset_data_set` followed by `dset_data_get` (lib/data.c), for each kind of option.
use dset.Prelude.{
  ℕ, ◌≡◌, ◌≢◌, refl, sym, ap, ◌∙◌, Bool, true, false, ◌||◌, none, some, if◌then◌else◌, if_cases,
  ◌==◌, arith,
}
use dset.Hash.TableLaws.{pow2_pos}
use native.Mathlib.Nat.{add-div_right}
use dset.Uapi.{has_flag}
use mathlib.Core.Path.{subst}
use dset.User.Blob.{
  Value, Union, Blob, success, failure, flags_set, flags_test, data_test, set_flag, set_bits,
  add_cadt_flag,
}
use dset.User.BlobLaws.{kept, shape, cadt_bit, no_field, Wrote, store-Wrote}
use dset.User.BlobSet.{store, data_set, mark_stored, field, data_get}
use dset.User.Opts.{Opt, OptBits, flag, opt_number}
use dset.User.OptsLaws.{meets-flag}

has_flag-set_flag : (bit n : ℕ) → has_flag (set_flag bit n) bit ≡ true
has_flag-set_flag bit n =
    if_cases (λ x. has_flag x bit ≡ true) (has_flag n bit) (λ h. h)
      (λ h. ground (arith, add-div_right n (pow2_pos bit)))

or_true : (a b : Bool) → b ≡ true → (a || b) ≡ true
or_true a b h = ground arith

cadt_apart : (o : Opt) (bit : ℕ) → shape o ≡ cadt_bit bit → opt_number o ≢ 49
unfolding shape opt_number
cadt_apart o bit h = ground arith

module _ {U : Type 0} (un : Union U) where
  field-set_bits :
      (o : Opt) (b : OptBits) (d : Blob U)
      → o ≢ Opt.typename
      → field un o (set_bits b d) ≡ field un o d
  unfolding field
  field-set_bits o b d n = ground arith

  pub test-set : (d : Blob U) (o : Opt) → data_test (flags_set d (flag o)) o ≡ true
  unfolding data_test flags_test flags_set flag
  test-set d o = meets-flag (λ i. d.bits i || flag o i) o ∙ ground arith

  -- Setting an option that has a field of its own, to a value of its kind, succeeds; the option is
  -- marked besides those that were, and what is read back is the value, a text cut to its buffer.
  -- (A type's name is read from the type; DSET_OPT_CADT_FLAGS marks other options too.)
  pub get-data_set :
      (o : Opt) (v w : Value) (d : Blob U)
      → kept (shape o) v ≡ some w
      → o ≢ Opt.cadt_flags
      → o ≢ Opt.typename
      → ((data_set un d o v).0 ≡ success)
        × (data_get un (data_set un d o v).1 o ≡ some w)
        × ((i : ℕ) → (data_set un d o v).1.bits i ≡ (d.bits i || (opt_number o == i)))
  unfolding data_set data_get flags_set flag
  get-data_set o v w d h n m = go (store-Wrote un o v w d h n m)
    where
      marked :
          (d' : Blob U) → field un o d' ≡ some w → data_get un (flags_set d' (flag o)) o ≡ some w
      marked d' has =
          ground (
            arith,
            test-set d' o,
            field-set_bits o (λ i. d'.bits i || (opt_number o == i)) d' m,
            has,
          )

      go :
          Wrote un d o w (store un o v d)
          → ((data_set un d o v).0 ≡ success)
            × (data_get un (data_set un d o v).1 o ≡ some w)
            × ((i : ℕ) → (data_set un d o v).1.bits i ≡ (d.bits i || (opt_number o == i)))
      go (d', e, same, has) =
          subst
            (λ r.
              ((mark_stored un d r).0 ≡ success)
              × (data_get un (mark_stored un d r).1 o ≡ some w)
              × ((i : ℕ) → (mark_stored un d r).1.bits i ≡ (d.bits i || (opt_number o == i))))
            (sym e) (refl, marked d' has, λ i. ap (λ b. b i || (opt_number o == i)) same)

  -- an option without a field is refused
  pub data_set_no_field :
      (o : Opt) (v : Value) (d : Blob U) → shape o ≡ no_field → data_set un d o v ≡ (failure, d)
  unfolding data_set shape
  data_set_no_field o v d h = ground arith

  store-cadt_bit :
      (o : Opt) (bit : ℕ) (v : Value) (d : Blob U)
      → shape o ≡ cadt_bit bit
      → store un o v d ≡ add_cadt_flag bit d
  unfolding store shape
  store-cadt_bit o bit v d h = ground arith

  get-marked :
      (d : Blob U)
      → data_get un (flags_set d (flag Opt.cadt_flags)) Opt.cadt_flags
        ≡ some (Value.u32 d.cadt_flags)
  unfolding data_get field flags_set
  get-marked d =
      let e = flags_set d (flag Opt.cadt_flags) in
      ap (λ c. if c then field un Opt.cadt_flags e else none)
        (or_true false (data_test e Opt.cadt_flags) (test-set d Opt.cadt_flags))

  test-marked :
      (d : Blob U) (o : Opt) (bit : ℕ)
      → shape o ≡ cadt_bit bit
      → data_test (flags_set d (flag Opt.cadt_flags)) o ≡ data_test d o
  unfolding data_test flags_test flags_set flag
  test-marked d o bit h =
      ground
        (arith, meets-flag d.bits o, meets-flag (λ i. d.bits i || flag Opt.cadt_flags i) o, apart)
    where
      apart : opt_number o ≢ 49
      apart = cadt_apart o bit h

  -- A flag given by its option is added to the flags of the data, which are marked; the option
  -- itself is not marked by it, so that a test of the option answers as before.
  pub data_set-cadt_bit :
      (o : Opt) (bit : ℕ) (v : Value) (d : Blob U)
      → shape o ≡ cadt_bit bit
      → let d' = (data_set un d o v).1 in
        (has_flag d'.cadt_flags bit ≡ true)
        × (data_get un d' Opt.cadt_flags ≡ some (Value.u32 d'.cadt_flags))
        × (data_test d' o ≡ data_test d o)
  unfolding data_set data_test
  data_set-cadt_bit o bit v d h =
      let e : Blob U = record d { cadt_flags = set_flag bit d.cadt_flags } in
      subst
        (λ r.
          let d' = (mark_stored un d r).1 in
          (has_flag d'.cadt_flags bit ≡ true)
          × (data_get un d' Opt.cadt_flags ≡ some (Value.u32 d'.cadt_flags))
          × (data_test d' o ≡ data_test d o))
        (sym (store-cadt_bit o bit v d h))
        (has_flag-set_flag bit d.cadt_flags, get-marked e, test-marked e o bit h)
