-- ===== src/User/OptsLaws.antt =====
-- Testing one bit of the options.
use dset.Prelude.{ℕ, zero, suc, ◌<◌, ◌≡◌, ◌∙◌, ◌&&◌, ltb, lt→ltb, arith, ap}
use native.Mathlib.Decide.{ℕ_discrete}
use dset.User.Opts.{Opt, OptBits, flag, meets, opt_bit, opt_number}

opt_number-lt : (o : Opt) → opt_number o < 64
unfolding opt_number
opt_number-lt o = ground arith

meets-flag_below :
    (n : ℕ) (bits : OptBits) (o : Opt)
    → meets n bits (flag o) ≡ (ltb (opt_number o) n && opt_bit bits o)
unfolding meets flag
meets-flag_below zero bits o = ground arith
meets-flag_below (suc n) bits o = elim (ℕ_discrete (opt_number o) n) [
  | yes e ↦ ground (arith, ap bits e, e, meets-flag_below n bits o)
  | no far ↦ ground (arith, far, meets-flag_below n bits o)
]

pub meets-flag : (bits : OptBits) (o : Opt) → meets 64 bits (flag o) ≡ opt_bit bits o
meets-flag bits o =
    meets-flag_below 64 bits o
    ∙ ap (λ b. b && opt_bit bits o) (lt→ltb (opt_number o) 64 (opt_number-lt o))
