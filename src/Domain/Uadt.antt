-- ===== src/Domain/Uadt.antt =====
-- `hash_domain_uadt`: add, delete and test by a domain in a netlink message
-- (kernel/net/netfilter/dset/domain_set_hash_domain.c).
use dset.Domain.Kadt.{Adt, adt_add, adt_del, adt_test}
use dset.Domain.Text.{domain_type}
use dset.Ext.Attrs.{Attrs, Result, ok, err, get_extensions}
use dset.Ext.{Ext, no_info, ullong_max}
use dset.Hash.Add.{Memory, add}
use dset.Hash.Defs.{HSet}
use dset.Hash.Del.{del}
use dset.Hash.Lookup.{test}
use dset.Kernel.{Kernel}
use dset.Prelude.{
  false, [], ◌∷◌, true, not, ◌&&◌, ◌==◌, if◌then◌else◌, ℕ, ◌-◌, Bool, Option, none, some, List,
  take,
}
use dset.Uapi.{Status, Errno, embedded_nul, has_flag, max_domain_len, flag_exist_bit}

-- DOMAIN_SET_INIT_UEXT
unfoldable pub user_ext : HSet (List ℕ) → Ext
user_ext s = record {
  info = no_info;
  packets = ullong_max;
  bytes = ullong_max;
  comment = none;
  timeout = s.timeout;
  packets_op = 0;
  bytes_op = 0;
}

-- the return value: zero or a negative error, or whether a test matched
pub data UadtResult : Type 0 where
  done : Status → UadtResult
  tested : Bool → UadtResult

abbrev zero_then_end : ℕ → List ℕ → Bool
zero_then_end c [] = c == 0
zero_then_end c (d ∷ rest) = false

-- the bytes without the NULs at their end
unfoldable pub without_nuls : List ℕ → List ℕ
without_nuls [] = []
without_nuls (c ∷ rest) =
    let kept = without_nuls rest in if zero_then_end c kept then [] else c ∷ kept

-- `nla_strlcpy(e.domain, tb[DSET_ATTR_DOMAIN], DSET_MAX_DOMAIN_LEN)`: at most 255 bytes are copied over
-- the NULs of the buffer, so NULs at their end make no difference
unfoldable pub elem_of_attr : List ℕ → List ℕ
unfolding without_nuls
elem_of_attr attr = without_nuls (take (max_domain_len - 1) attr)

-- no NUL among the bytes
unfoldable pub is_text : List ℕ → Bool
is_text [] = true
is_text (c ∷ rest) = not (c == 0) && is_text rest

module _ (jhash2 : List ℕ → ℕ → ℕ) (k : Kernel) (mem : Memory) where
  -- the low level function for the command; `ext` and `mext` are the same structure
  unfoldable pub call_adt : Adt → List ℕ → Ext → ℕ → HSet (List ℕ) → UadtResult × HSet (List ℕ)
  call_adt adt_test d ext flags s =
      let r = test (domain_type jhash2) k s d ext ext flags in (tested r.matched, r.after)
  call_adt adt_add d ext flags s =
      let (st, s') = add (domain_type jhash2) k s mem d ext (has_flag flags flag_exist_bit) in
      (done st, s')
  call_adt adt_del d ext flags s =
      let (st, s') = del (domain_type jhash2) k s mem.bucket d in (done st, s')

  -- With a NUL among the bytes the code goes on with an element that is not modelled, as the table
  -- compares its text but hashes all of its bytes; a fault stands for that.
  unfoldable pub with_ext :
      Adt → List ℕ → Result Ext → ℕ → HSet (List ℕ) → UadtResult × HSet (List ℕ)
  unfolding call_adt is_text
  with_ext adt d (err e) flags s = (done (Status.err e), s)
  with_ext adt d (ok ext) flags s =
      if is_text d then call_adt adt d ext flags s else (done (Status.fault embedded_nul), s)

  unfoldable pub with_domain :
      Adt → Option (List ℕ) → Attrs → ℕ → HSet (List ℕ) → UadtResult × HSet (List ℕ)
  unfolding with_ext elem_of_attr user_ext
  with_domain adt none tb flags s = (done (Status.err Errno.protocol), s)
  with_domain adt (some attr) tb flags s =
      with_ext adt (elem_of_attr attr) (get_extensions s.exts tb (user_ext s)) flags s

  -- the line number that is copied out is DSET_ATTR_LINENO itself
  unfoldable pub uadt : Adt → Attrs → ℕ → HSet (List ℕ) → UadtResult × HSet (List ℕ)
  unfolding with_domain
  uadt adt tb flags s = with_domain adt tb.domain tb flags s
