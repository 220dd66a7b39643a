-- ===== src/Domain/Kadt.antt =====
-- `hash_domain_kadt`: test, add and delete by the DNS name in a packet
-- (kernel/net/netfilter/dset/domain_set_hash_domain.c).
use dset.Domain.Text.{domain_type, strncpy, Decoded, name, too_long, overrun, decode}
use dset.Ext.{Ext, no_info, no_timeout}
use dset.Hash.Add.{Memory, add}
use dset.Hash.Defs.{HSet}
use dset.Hash.Del.{del}
use dset.Hash.Lookup.{Tested, test}
use dset.Kernel.{Kernel}
use dset.Prelude.{
  cstr, ℕ, zero, suc, ◌+◌, ◌-◌, Bool, false, none, List, [], ◌∷◌, ◌++◌, if◌then◌else◌, ◌==◌, length,
  get_or, take, drop, replicate,
}
use dset.Uapi.{Status, fault, out_of_bounds, has_flag, max_domain_len, flag_exist_bit}

-- `struct domain_set_adt_opt`, as far as the type reads it
pub record AdtOpt : Type 0 where
  pub cmdflags : ℕ
  pub mext : Ext

-- DOMAIN_OFFSET: the IPv4, UDP and DNS headers
abbrev pub domain_offset : ℕ
domain_offset = 40

abbrev pub zero_buffer : List ℕ
zero_buffer = replicate max_domain_len 0

-- DOMAIN_SET_INIT_KEXT; `domain_set_adt_opt_timeout` takes the set's timeout by default
unfoldable pub kernel_ext : List ℕ → AdtOpt → HSet (List ℕ) → Ext
kernel_ext skb opt s = record {
  info = no_info;
  packets = 1;
  bytes = length skb;
  comment = none;
  timeout = if opt.mext.timeout == no_timeout then s.timeout else opt.mext.timeout;
  packets_op = 0;
  bytes_op = 0;
}

-- the bytes of `doamin_name` after the loop: the last dot is overwritten by a NUL
unfoldable pub close_name : List ℕ → List ℕ
close_name acc = take (length acc - 1) acc ++ 0 ∷ []

module _ (jhash2 : List ℕ → ℕ → ℕ) (k : Kernel) (ext : Ext) (flags : ℕ) where
  -- one call of `mtype_test` on the element in the buffer
  unfoldable pub test_buffer : HSet (List ℕ) → Ext → List ℕ → Tested (HSet (List ℕ))
  unfolding cstr
  test_buffer s mext buffer = test (domain_type jhash2) k s (cstr buffer) ext mext flags

  -- the loop of DSET_TEST from position `i - 1` down to 0, then the whole name. Behind each dot
  -- stands a parent domain, which is copied to the element's buffer and tested.
  unfoldable pub test_parents : List ℕ → ℕ → List ℕ → HSet (List ℕ) → Ext → Tested (HSet (List ℕ))
  unfolding test_buffer strncpy
  test_parents text zero buffer s mext = test_buffer s mext (strncpy buffer text (length text))
  test_parents text (suc i) buffer s mext =
      let skip = test_parents text i buffer s mext in
      let buffer' = strncpy buffer (drop (i + 1) text) (length text - i - 1) in
      let r = test_buffer s mext buffer' in
      let more = test_parents text i buffer' r.after r.mext in
      if get_or text i 0 == b'.' then if r.matched then r else more else skip

-- the command: `enum dset_adt`
pub data Adt : Type 0 where
  adt_add : Adt
  adt_del : Adt
  adt_test : Adt

-- the return value of the packet interface: positive for a match
pub data KadtResult : Type 0 where
  matched : Bool → KadtResult
  status : Status → KadtResult

module _ (jhash2 : List ℕ → ℕ → ℕ) (k : Kernel) (mem : Memory) where
  -- the branches behind the decoded name
  unfoldable pub run_adt :
      Adt → List ℕ → List ℕ → AdtOpt → HSet (List ℕ) → KadtResult × HSet (List ℕ)
  unfolding test_parents strncpy kernel_ext
  run_adt adt_test text skb opt s =
      let r =
        test_parents jhash2 k (kernel_ext skb opt s) opt.cmdflags text (length text) zero_buffer s
          opt.mext in
      (matched r.matched, r.after)
  run_adt adt_add text skb opt s =
      let (st, s') =
        add (domain_type jhash2) k s mem (cstr (strncpy zero_buffer text max_domain_len))
          (kernel_ext skb opt s) (has_flag opt.cmdflags flag_exist_bit) in
      (status st, s')
  run_adt adt_del text skb opt s =
      let (st, s') =
        del (domain_type jhash2) k s mem.bucket (cstr (strncpy zero_buffer text max_domain_len)) in
      (status st, s')

  -- A packet that holds the root name leaves the loop at once, and the NUL is written before the
  -- buffer.
  unfoldable pub kadt_decoded :
      Adt → Decoded → List ℕ → AdtOpt → HSet (List ℕ) → KadtResult × HSet (List ℕ)
  unfolding run_adt close_name
  kadt_decoded adt too_long skb opt s = (matched false, s)
  kadt_decoded adt overrun skb opt s = (status (fault out_of_bounds), s)
  kadt_decoded adt (name []) skb opt s = (status (fault out_of_bounds), s)
  kadt_decoded adt (name (c ∷ cs)) skb opt s = run_adt adt (close_name (c ∷ cs)) skb opt s

  unfoldable pub kadt : Adt → List ℕ → AdtOpt → HSet (List ℕ) → KadtResult × HSet (List ℕ)
  unfolding kadt_decoded decode
  kadt adt skb opt s =
      let payload = drop domain_offset skb in
      kadt_decoded adt (decode (length payload) payload []) skb opt s
