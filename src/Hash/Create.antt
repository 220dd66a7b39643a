-- ===== src/Hash/Create.antt =====
-- The creation of a hash, as instantiated for hash:domain, and `mtype_same_set`
-- (kernel/net/netfilter/dset/domain_set_hash_gen.h).
use dset.Ext.Attrs.{Attr, Result, optattr_netorder, value_or}
use dset.Ext.Layout.{ExtSizes, elem_len}
use dset.Ext.{Extensions, no_timeout, timeout_uget}
use dset.Hash.Defs.{HSet, jhash_size}
use dset.Hash.Table.{htable_size, htable_bits}
use dset.Kernel.{Kernel}
use dset.Prelude.{
  ℕ, Bool, true, false, not, ◌&&◌, ◌||◌, Option, none, some, ltb, ◌==◌, if◌then◌else◌, replicate,
}
use dset.Uapi.{Errno}

-- DSET_DEFAULT_HASHSIZE, DSET_MIMINAL_HASHSIZE, DSET_DEFAULT_MAXELEM
abbrev pub default_hashsize : ℕ
default_hashsize = 1024

abbrev pub minimal_hashsize : ℕ
minimal_hashsize = 64

abbrev pub default_maxelem : ℕ
default_maxelem = 65536

-- the table `tb` that netlink parses for a create command
pub record HashAttrs : Type 0 where
  pub hashsize : Option (Attr ℕ)
  pub maxelem : Option (Attr ℕ)
  pub timeout : Option (Attr ℕ)
  pub cadt_flags : Option (Attr ℕ)

-- what the function gets from its surroundings: the sizes of the element and the extensions, the
-- answers of `kzalloc` and `domain_set_alloc`, and the random number
pub record HashEnv : Type 0 where
  pub sizes : ExtSizes
  pub elem_size : ℕ
  pub elem_align : ℕ
  pub alloc_hash : Bool
  pub alloc_table : Bool
  pub random : ℕ

abbrev pub has_attr : Option (Attr ℕ) → Bool
has_attr none = false
has_attr (some a) = true

unfoldable pub asked_hashsize : Option (Attr ℕ) → ℕ
asked_hashsize none = default_hashsize
asked_hashsize (some a) = if ltb a.value minimal_hashsize then minimal_hashsize else a.value

unfoldable pub asked_timeout : Option (Attr ℕ) → ℕ
asked_timeout none = no_timeout
asked_timeout (some a) = timeout_uget a.value

-- an attribute that is not in network order
abbrev pub wrong_order : HashAttrs → Bool
wrong_order tb = not (
    optattr_netorder tb.hashsize
    && optattr_netorder tb.maxelem
    && optattr_netorder tb.timeout
    && optattr_netorder tb.cadt_flags)

-- the structure or the table is not allocated
unfoldable pub no_memory : Kernel → HashEnv → ℕ → Bool
unfolding htable_size
no_memory k env hbits = not env.alloc_hash || htable_size k hbits == 0 || not env.alloc_table

module _ {E : Type 0} (k : Kernel) (env : HashEnv) where
  -- the empty set, with 2 ^ `hbits` buckets
  unfoldable pub new_hash : ℕ → HashAttrs → HSet E
  unfolding asked_timeout elem_len
  new_hash hbits tb =
      let layout =
        elem_len env.sizes (value_or tb.cadt_flags 0) (has_attr tb.timeout) env.elem_size
          env.elem_align in
      record {
        exts = layout.extensions;
        forceadd = layout.forceadd;
        timeout = asked_timeout tb.timeout;
        dsize = layout.dsize;
        elements = 0;
        ext_size = 0;
        maxelem = value_or tb.maxelem default_maxelem;
        initval = env.random;
        htable_bits = hbits;
        buckets = replicate (jhash_size hbits) none;
        next = none;
      }

  -- `HTYPE_create`, with DOMAIN_SET_PROTO_UNDEF
  unfoldable pub hash_create : ℕ → HashAttrs → Result (HSet E)
  unfolding new_hash asked_hashsize htable_bits no_memory
  hash_create family tb =
      let hbits = htable_bits k (asked_hashsize tb.hashsize) in
      if not (family == 0)
      then Result.err Errno.invalid_family
      else if wrong_order tb
      then Result.err Errno.protocol
      else if no_memory k env hbits
      then Result.err Errno.enomem
      else Result.ok (new_hash hbits tb)

abbrev same_bit : Bool → Bool → Bool
same_bit true y = y
same_bit false y = not y

abbrev pub same_extensions : Extensions → Extensions → Bool
same_extensions a b =
    same_bit a.with_timeout b.with_timeout
    && same_bit a.with_counter b.with_counter
    && same_bit a.with_comment b.with_comment
    && same_bit a.with_skbinfo b.with_skbinfo
    && same_bit a.with_destroy b.with_destroy

module _ {E : Type 0} where
  -- `mtype_same_set`
  unfoldable pub same_set : HSet E → HSet E → Bool
  same_set a b = a.maxelem == b.maxelem && a.timeout == b.timeout && same_extensions a.exts b.exts
