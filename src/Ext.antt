-- ===== src/Ext.antt =====
-- The extensions of an element: timeout, counters, comment, skbinfo
-- (kernel/include/linux/netfilter/dset/domain_set.h and the utility functions of
-- kernel/net/netfilter/dset/domain_set_core.c).
-- An element's extension area is the record `ElemExt`; the functions of the C code that reach it
-- through `ext_timeout`, `ext_counter`, `ext_comment` and `ext_skbinfo` take it and return it.
pub mod Attrs
pub mod Layout
pub mod Match
pub mod WriteLaws
use dset.Kernel.{Kernel}
use dset.Prelude.{
  cstr, ℕ, zero, suc, ◌+◌, ◌-◌, ◌*◌, ◌/◌, ◌%◌, ◌^◌, Bool, true, false, not, ◌&&◌, Option, none,
  some, List, ltb, leb, ◌==◌, if◌then◌else◌, length, take, add64, sub64,
}
use dset.Uapi.{max_comment_size}

-- `struct domain_set_skbinfo`
pub record SkbInfo : Type 0 where
  pub skbmark : ℕ
  pub skbmarkmask : ℕ
  pub skbprio : ℕ
  pub skbqueue : ℕ

-- `struct domain_set_counter`
pub record Counter : Type 0 where
  pub bytes : ℕ
  pub packets : ℕ

-- `struct domain_set_ext`: what a command asks for, and what a match reports
pub record Ext : Type 0 where
  pub info : SkbInfo
  pub packets : ℕ
  pub bytes : ℕ
  pub comment : Option (List ℕ)
  pub timeout : ℕ
  pub packets_op : ℕ
  pub bytes_op : ℕ

-- the extension area of an element; zeroed by `kzalloc`
pub record ElemExt : Type 0 where
  pub timeout : ℕ
  pub counter : Counter
  pub comment : Option (List ℕ)
  pub info : SkbInfo

abbrev pub no_info : SkbInfo
no_info = record { skbmark = 0; skbmarkmask = 0; skbprio = 0; skbqueue = 0 }

abbrev pub zero_ext : ElemExt
zero_ext = record {
  timeout = 0;
  counter = record { bytes = 0; packets = 0 };
  comment = none;
  info = no_info;
}

-- the bits of `set->extensions` (SET_WITH_TIMEOUT and the like, and DSET_EXT_DESTROY)
pub record Extensions : Type 0 where
  pub with_timeout : Bool
  pub with_counter : Bool
  pub with_comment : Bool
  pub with_skbinfo : Bool
  pub with_destroy : Bool

-- DSET_ELEM_PERMANENT, DSET_NO_TIMEOUT (UINT_MAX), ULLONG_MAX, MSEC_PER_SEC
abbrev pub elem_permanent : ℕ
elem_permanent = 0

abbrev pub no_timeout : ℕ
no_timeout = 2 ^ 32 - 1

abbrev pub ullong_max : ℕ
ullong_max = 2 ^ 64 - 1

abbrev pub msec_per_sec : ℕ
msec_per_sec = 1000

-- DSET_MAX_TIMEOUT is `(UINT_MAX >> 1) / MSEC_PER_SEC`
abbrev pub max_timeout : ℕ
max_timeout = no_timeout / 2 / msec_per_sec

-- DSET_GC_PERIOD
abbrev pub gc_time : ℕ
gc_time = 3 * 60

unfoldable pub gc_period : ℕ → ℕ
gc_period timeout =
    if timeout / 3 == 0 then 1 else if ltb (timeout / 3) gc_time then timeout / 3 else gc_time

-- `domain_set_timeout_uget`, on the attribute's value in host order
unfoldable pub timeout_uget : ℕ → ℕ
timeout_uget timeout = if ltb max_timeout timeout then max_timeout else timeout

module _ (k : Kernel) where
  -- `domain_set_timeout_expired`
  unfoldable pub timeout_expired : ℕ → Bool
  timeout_expired t = not (t == elem_permanent) && k.time_is_before t

  -- `domain_set_timeout_set`: `value * MSEC_PER_SEC` is computed in u32, the sum in unsigned long
  unfoldable pub timeout_set : ℕ → ℕ
  timeout_set value =
      if value == 0
      then elem_permanent
      else let t = add64 (k.msecs_to_jiffies ((value * msec_per_sec) % 2 ^ 32)) k.jiffies in
        if t == elem_permanent then ullong_max else t

  -- `domain_set_timeout_get`: the seconds that are left, in u32
  unfoldable pub timeout_get : ℕ → ℕ
  timeout_get timeout =
      if timeout == elem_permanent
      then 0
      else let t = (k.jiffies_to_msecs (sub64 timeout k.jiffies) / msec_per_sec) % 2 ^ 32 in
        if t == 0 then 1 else t

-- `domain_set_init_counter`: a value of ULLONG_MAX leaves the counter as it is
unfoldable pub init_counter : Counter → Ext → Counter
init_counter c ext = record {
  bytes = if ext.bytes == ullong_max then c.bytes else ext.bytes;
  packets = if ext.packets == ullong_max then c.packets else ext.packets;
}

-- The bytes that a comment adds to `set->ext_size`: the structure, the text and its NUL.
abbrev pub comment_bytes : Kernel → List ℕ → ℕ
comment_bytes k str = k.sizeof_comment + length str + 1

module _ (k : Kernel) where
  -- `domain_set_comment_free`: the comment's bytes leave `ext_size`
  unfoldable pub comment_free : ElemExt → ℕ → ElemExt × ℕ
  comment_free e ext_size = elim e.comment [
    | none ↦ (e, ext_size)
    | some str ↦ (record e { comment = none }, sub64 ext_size (comment_bytes k str))
  ]

  -- `domain_set_ext_destroy`
  unfoldable pub ext_destroy : Extensions → ElemExt → ℕ → ElemExt × ℕ
  ext_destroy exts e ext_size = if exts.with_comment then comment_free e ext_size else (e, ext_size)

  -- the new comment of `domain_set_init_comment`; `alloc` tells whether `kmalloc` succeeds
  unfoldable pub store_comment : Bool → List ℕ → ElemExt → ℕ → ElemExt × ℕ
  unfolding cstr
  store_comment alloc text e ext_size =
      let str = take max_comment_size (cstr text) in
      if alloc
      then (record e { comment = some str }, add64 ext_size (comment_bytes k str))
      else (e, ext_size)

  -- `domain_set_init_comment`: drop the old comment, then store the new one if there is one
  unfoldable pub init_comment : Bool → Ext → ElemExt → ℕ → ElemExt × ℕ
  unfolding cstr store_comment comment_free
  init_comment alloc ext e ext_size =
      let (e', size') = comment_free e ext_size in
      elim ext.comment [
        | none ↦ (e', size')
        | some text ↦
            if length (cstr text) == 0 then (e', size') else store_comment alloc text e' size'
      ]

  -- the label `overwrite_extensions` of `mtype_add`: each enabled extension is written
  unfoldable pub write_extensions : Extensions → Bool → Ext → ElemExt → ℕ → ElemExt × ℕ
  write_extensions exts alloc ext e ext_size =
      let e₁ : ElemExt = record e {
        counter = if exts.with_counter then init_counter e.counter ext else e.counter;
      } in
      let (e₂, size') =
        if exts.with_comment then init_comment alloc ext e₁ ext_size else (e₁, ext_size) in
      (
        record e₂ {
          info = if exts.with_skbinfo then ext.info else e₂.info;
          timeout = if exts.with_timeout then timeout_set k ext.timeout else e₂.timeout;
        },
        size',
      )
