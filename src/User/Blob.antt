-- ===== src/User/Blob.antt =====
-- `struct dset_data` and its functions (lib/data.c).
use dset.Prelude.{ℕ, ◌+◌, ◌^◌, ◌≡◌, Bool, Option, List, if◌then◌else◌}
use dset.Uapi.{has_flag, flag_with_counters_bit, flag_with_comment_bit, flag_with_skbinfo_bit}
use dset.User.Args.{UserType}
use dset.User.Opts.{Opt, OptBits, flag, with_bits, without_bits, meets}
use dset.User.Strings.{strlcpy}

-- DSET_FLAG_BIT_BEFORE, DSET_FLAG_BIT_PHYSDEV, DSET_FLAG_BIT_NOMATCH, DSET_FLAG_BIT_EXIST
abbrev pub flag_before_bit : ℕ
flag_before_bit = 0

abbrev pub flag_physdev_bit : ℕ
flag_physdev_bit = 1

abbrev pub flag_nomatch_bit : ℕ
flag_nomatch_bit = 2

-- what a `const void *` points to
pub data Value : Type 0 where
  u8 u16 u32 u64 : ℕ → Value
  text : List ℕ → Value
  user_type : UserType → Value

-- the members `create` and `adt` of the union
pub record CreateData : Type 0 where
  pub probes : ℕ
  pub resize : ℕ
  pub hashsize : ℕ
  pub maxelem : ℕ
  pub gc : ℕ
  pub size : ℕ
  pub references : ℕ
  pub elements : ℕ
  pub memsize : ℕ
  pub typename : List ℕ
  pub revision_min : ℕ
  pub revision : ℕ

pub record AdtData : Type 0 where
  pub name : List ℕ
  pub nameref : List ℕ
  pub packets : ℕ
  pub bytes : ℕ
  pub comment : List ℕ
  pub skbmark : ℕ
  pub skbprio : ℕ
  pub skbqueue : ℕ

-- The union of `setname2`, `create` and `adt`, whose bytes are of type `U`. The compiler lays the
-- members out; what is read of a member is what was last written to it, if no other was written
-- since. `zero` is what `memset` leaves.
pub record Union (U : Type 0) : Type 0 where
  pub setname2 : U → List ℕ
  pub put_setname2 : List ℕ → U → U
  pub create : U → CreateData
  pub put_create : CreateData → U → U
  pub adt : U → AdtData
  pub put_adt : AdtData → U → U
  pub zero : U
  pub setname2-put_setname2 : (s : List ℕ) (u : U) → setname2 (put_setname2 s u) ≡ s
  pub create-put_create : (c : CreateData) (u : U) → create (put_create c u) ≡ c
  pub adt-put_adt : (a : AdtData) (u : U) → adt (put_adt a u) ≡ a

pub record Blob (U : Type 0) : Type 0 where
  pub bits : OptBits
  pub ignored : OptBits
  pub setname : List ℕ
  pub kind : Option UserType
  pub family : ℕ
  pub flags : ℕ
  pub cadt_flags : ℕ
  pub timeout : ℕ
  pub domaindata : List ℕ
  pub index : ℕ
  pub shared : U

-- how storing a value ends: with the field written and the option to mark; with an option that has
-- no field; or with a pointer read as what it does not point to
pub data Stored (U : Type 0) : Type 0 where
  stored : Blob U → Opt → Stored U
  unknown misread : Stored U

-- the value that `dset_data_set` returns, 0 or -1; `confused` is a misread pointer
pub data Code : Type 0 where
  success failure confused : Code

-- `n |= 1 << bit`
abbrev pub set_flag : ℕ → ℕ → ℕ
set_flag bit n = if has_flag n bit then n else n + 2 ^ bit

module _ {U : Type 0} where
  abbrev pub set_bits : OptBits → Blob U → Blob U
  set_bits bits d = record d { bits = bits }

  -- `dset_data_flags_test`, `dset_data_flags_set`, `dset_data_flags_unset`
  unfoldable pub flags_test : Blob U → OptBits → Bool
  unfolding meets
  flags_test d fs = meets 64 d.bits fs

  unfoldable pub flags_set : Blob U → OptBits → Blob U
  flags_set d fs = set_bits (with_bits d.bits fs) d

  unfoldable pub flags_unset : Blob U → OptBits → Blob U
  flags_unset d fs = set_bits (without_bits d.bits fs) d

  -- `dset_data_test`
  unfoldable pub data_test : Blob U → Opt → Bool
  unfolding flags_test flag
  data_test d o = flags_test d (flag o)

  -- `dset_data_test_ignored`, and `dset_data_ignored`, which sets the bit as well
  unfoldable pub test_ignored : Blob U → Opt → Bool
  unfolding meets flag
  test_ignored d o = meets 64 d.ignored (flag o)

  unfoldable pub data_ignored : Blob U → Opt → Bool × Blob U
  unfolding test_ignored
  data_ignored d o = (test_ignored d o, record d { ignored = with_bits d.ignored (flag o) })

  -- the reads `*(const uintN_t *)value` and of a string
  abbrev pub read_u8 : Value → (ℕ → Stored U) → Stored U
  read_u8 (Value.u8 n) f = f n
  read_u8 v f = misread

  abbrev pub read_u16 : Value → (ℕ → Stored U) → Stored U
  read_u16 (Value.u16 n) f = f n
  read_u16 v f = misread

  abbrev pub read_u32 : Value → (ℕ → Stored U) → Stored U
  read_u32 (Value.u32 n) f = f n
  read_u32 v f = misread

  abbrev pub read_u64 : Value → (ℕ → Stored U) → Stored U
  read_u64 (Value.u64 n) f = f n
  read_u64 v f = misread

  abbrev pub read_text : ℕ → Value → (List ℕ → Stored U) → Stored U
  read_text len (Value.text s) f = f (strlcpy s len)
  read_text len v f = misread

  abbrev pub read_type : Value → (UserType → Stored U) → Stored U
  read_type (Value.user_type t) f = f t
  read_type v f = misread

  -- `flag_type_attr` and `cadt_flag_type_attr`: the option that is marked is not the one given
  abbrev pub add_flag : ℕ → Blob U → Stored U
  add_flag bit d = stored (record d { flags = set_flag bit d.flags }) Opt.flags

  abbrev pub add_cadt_flag : ℕ → Blob U → Stored U
  add_cadt_flag bit d = stored (record d { cadt_flags = set_flag bit d.cadt_flags }) Opt.cadt_flags

  -- the options that a value of `cadt_flags` marks besides
  unfoldable pub mark_cadt : ℕ → Blob U → Blob U
  unfolding flags_set flag
  mark_cadt n d =
      let mark : ℕ → Opt → Blob U → Blob U =
        λ bit o e. if has_flag n bit then flags_set e (flag o) else e in
      mark flag_with_skbinfo_bit Opt.skbinfo (
        mark flag_with_comment_bit Opt.create_comment (
          mark flag_with_counters_bit Opt.counters (
            mark flag_nomatch_bit Opt.nomatch
              (mark flag_physdev_bit Opt.physdev (mark flag_before_bit Opt.before d)))))
