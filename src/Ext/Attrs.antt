-- ===== src/Ext/Attrs.antt =====
-- The attributes of an add, delete or test command, and `domain_set_get_extensions`
-- (kernel/net/netfilter/dset/domain_set_core.c).
use dset.Ext.{Ext, Extensions, timeout_uget}
use dset.Prelude.{
  ℕ, ◌/◌, ◌%◌, ◌^◌, Bool, true, false, ◌&&◌, ◌||◌, Option, none, some, List, if◌then◌else◌,
}
use dset.Uapi.{Errno}

-- a netlink attribute: its value in host order, and its NLA_F_NET_BYTEORDER bit
pub record Attr {ℓ} (A : Type ℓ) : Type ℓ where
  pub value : A
  pub net_order : Bool

-- the table `tb` that netlink parses for an add, delete or test command
pub record Attrs : Type 0 where
  pub domain : Option (List ℕ)
  pub lineno : Option ℕ
  pub timeout : Option (Attr ℕ)
  pub bytes : Option (Attr ℕ)
  pub packets : Option (Attr ℕ)
  pub comment : Option (List ℕ)
  pub skbmark : Option (Attr ℕ)
  pub skbprio : Option (Attr ℕ)
  pub skbqueue : Option (Attr ℕ)

-- an error, or a value
pub data Result {ℓ} (A : Type ℓ) : Type ℓ where
  ok : A → Result A
  err : Errno → Result A

infixl 5 ◌>>=◌
abbrev pub ◌>>=◌ {ℓ κ} : {A : Type ℓ} {B : Type κ} → Result A → (A → Result B) → Result B
ok a >>= f = f a
err e >>= f = err e

-- `domain_set_optattr_netorder`
abbrev pub optattr_netorder : Option (Attr ℕ) → Bool
optattr_netorder none = true
optattr_netorder (some a) = a.net_order

abbrev pub is_some {ℓ} : {A : Type ℓ} → Option A → Bool
is_some none = false
is_some (some a) = true

abbrev pub value_or : Option (Attr ℕ) → ℕ → ℕ
value_or none d = d
value_or (some a) d = a.value

-- one `if (tb[...])` block: refused where the set lacks the extension, else `f` is applied
abbrev pub block {ℓ} : {A : Type ℓ} → Option A → Bool → Errno → (A → Ext → Ext) → Ext → Result Ext
block none enabled e f ext = ok ext
block (some a) enabled e f ext = if enabled then ok (f a ext) else err e

-- DSET_ATTR_SKBMARK carries mark and mask in one u64
abbrev pub set_skbmark : Attr ℕ → Ext → Ext
set_skbmark a ext = record ext {
  info = record ext.info { skbmark = (a.value / 2 ^ 32) % 2 ^ 32; skbmarkmask = a.value % 2 ^ 32 };
}

unfoldable pub get_extensions : Extensions → Attrs → Ext → Result Ext
unfolding timeout_uget
get_extensions exts tb ext =
    if optattr_netorder tb.timeout
      && optattr_netorder tb.packets
      && optattr_netorder tb.bytes
      && optattr_netorder tb.skbmark
      && optattr_netorder tb.skbprio
      && optattr_netorder tb.skbqueue
    then block tb.timeout exts.with_timeout Errno.timeout
        (λ a e. record e { timeout = timeout_uget a.value }) ext
      >>= counters
      >>= block tb.comment exts.with_comment Errno.comment (λ c e. record e { comment = some c })
      >>= block tb.skbmark exts.with_skbinfo Errno.skbinfo set_skbmark
      >>= block tb.skbprio exts.with_skbinfo Errno.skbinfo
          (λ a e. record e { info = record e.info { skbprio = a.value } })
      >>= block tb.skbqueue exts.with_skbinfo Errno.skbinfo
          (λ a e. record e { info = record e.info { skbqueue = a.value } })
    else err Errno.protocol
  where
    counters : Ext → Result Ext
    counters e =
        if is_some tb.bytes || is_some tb.packets
        then if exts.with_counter
          then ok (record e {
            bytes = value_or tb.bytes e.bytes;
            packets = value_or tb.packets e.packets;
          })
          else err Errno.counter
        else ok e
