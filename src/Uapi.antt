-- ===== src/Uapi.antt =====
-- The constants of kernel/include/uapi/linux/netfilter/dset/domain_set.h and domain_set_hash.h:
-- sizes, flag bits, error numbers. A negative return value of the C code is `err e`, zero is `ok`.
use dset.Prelude.{ℕ, ◌/◌, ◌%◌, ◌^◌, Bool, ◌==◌}

-- The errors of the system that the code returns, and those of `enum dset_errno`.
pub data Errno : Type 0 where
  enoent eagain enomem efault ebusy eexist einval eopnotsupp emsgsize enotempty eproto : Errno
  ebadmsg eintr : Errno
  protocol find_type max_sets busy exist_setname2 type_mismatch exist : Errno
  invalid_family timeout referenced counter comment skbinfo hash_full : Errno

-- What the C standard leaves undefined, a `BUG_ON` that fires, and a domain with a NUL inside, which is
-- not modelled.
pub data Fault : Type 0 where
  out_of_bounds null_pointer bug_on embedded_nul : Fault

-- The return value of a C function that returns zero or a negative error.
pub data Status : Type 0 where
  ok : Status
  err : Errno → Status
  fault : Fault → Status

-- The test `flags & (1 << bit)`.
abbrev pub has_flag : ℕ → ℕ → Bool
has_flag flags bit = (flags / 2 ^ bit) % 2 == 1

-- DSET_MAXNAMELEN, DSET_MAX_COMMENT_SIZE and DSET_MAX_DOMAIN_LEN
abbrev pub max_name_len : ℕ
max_name_len = 32

abbrev pub max_comment_size : ℕ
max_comment_size = 255

abbrev pub max_domain_len : ℕ
max_domain_len = 256

-- DSET_INVALID_ID
abbrev pub invalid_id : ℕ
invalid_id = 65535

-- DSET_PROTOCOL and DSET_PROTOCOL_MIN
abbrev pub protocol_version : ℕ
protocol_version = 9

abbrev pub protocol_min_version : ℕ
protocol_min_version = 8

-- `enum dset_cmd_flags`: DSET_FLAG_BIT_EXIST, DSET_FLAG_BIT_SKIP_COUNTER_UPDATE,
-- DSET_FLAG_BIT_MATCH_COUNTERS, DSET_FLAG_BIT_RETURN_NOMATCH
abbrev pub flag_exist_bit : ℕ
flag_exist_bit = 0

abbrev pub flag_skip_counter_update_bit : ℕ
flag_skip_counter_update_bit = 3

abbrev pub flag_match_counters_bit : ℕ
flag_match_counters_bit = 5

-- `enum dset_cadt_flags`: DSET_FLAG_BIT_WITH_COUNTERS, _COMMENT, _FORCEADD, _SKBINFO
abbrev pub flag_with_counters_bit : ℕ
flag_with_counters_bit = 3

abbrev pub flag_with_comment_bit : ℕ
flag_with_comment_bit = 4

abbrev pub flag_with_forceadd_bit : ℕ
flag_with_forceadd_bit = 5

abbrev pub flag_with_skbinfo_bit : ℕ
flag_with_skbinfo_bit = 6
