-- ===== src/Ext/Layout.antt =====
-- `domain_set_elem_len` (kernel/net/netfilter/dset/domain_set_core.c): where each extension
-- stands in an element, and how long an element is.
use dset.Ext.{Extensions}
use dset.Prelude.{
  ℕ, ◌+◌, ◌-◌, ◌*◌, ◌/◌, Bool, Option, none, some, List, [], ◌∷◌, ◌==◌, if◌then◌else◌,
}
use dset.Uapi.{
  has_flag, flag_with_counters_bit, flag_with_comment_bit, flag_with_skbinfo_bit,
  flag_with_forceadd_bit,
}

-- a row of `domain_set_extensions`, as far as the layout needs it: is it asked for, `len`, `align`
pub record ExtType : Type 0 where
  pub asked : Bool
  pub len : ℕ
  pub align : ℕ

-- `sizeof` and `__alignof__` of the four structures, in the order of `enum domain_set_ext_id`
pub record ExtSizes : Type 0 where
  pub counter_len : ℕ
  pub counter_align : ℕ
  pub timeout_len : ℕ
  pub timeout_align : ℕ
  pub skbinfo_len : ℕ
  pub skbinfo_align : ℕ
  pub comment_len : ℕ
  pub comment_align : ℕ

-- the kernel's `ALIGN`
abbrev pub align_up : ℕ → ℕ → ℕ
align_up len align = (len + (align - 1)) / align * align

-- the table `domain_set_extensions` with `add_extension` applied to each row
unfoldable pub extension_table : ExtSizes → ℕ → Bool → List ExtType
extension_table z flags has_timeout =
    record {
      asked = has_flag flags flag_with_counters_bit;
      len = z.counter_len;
      align = z.counter_align;
    }
    ∷ record { asked = has_timeout; len = z.timeout_len; align = z.timeout_align }
    ∷ record {
      asked = has_flag flags flag_with_skbinfo_bit;
      len = z.skbinfo_len;
      align = z.skbinfo_align;
    }
    ∷ record {
      asked = has_flag flags flag_with_comment_bit;
      len = z.comment_len;
      align = z.comment_align;
    }
    ∷ []

-- the loop over the extension identifiers: the offsets (`none` where it is not asked for) and
-- the length reached
unfoldable pub place : List ExtType → ℕ → List (Option ℕ) × ℕ
place [] len = ([], len)
place (t ∷ ts) len =
    let at = align_up len t.align in
    let (offsets, total) = place ts (if t.asked then at + t.len else len) in
    ((if t.asked then some at else none) ∷ offsets, total)

pub record ElemLayout : Type 0 where
  pub offsets : List (Option ℕ)
  pub extensions : Extensions
  pub forceadd : Bool
  pub dsize : ℕ

-- `domain_set_elem_len`; `flags` is DSET_ATTR_CADT_FLAGS or 0, and the set's extensions and
-- create flags start at zero
unfoldable pub elem_len : ExtSizes → ℕ → Bool → ℕ → ℕ → ElemLayout
unfolding place extension_table
elem_len z flags has_timeout len align =
    let align' = if align == 0 then 1 else align in
    let (offsets, total) = place (extension_table z flags has_timeout) len in
    record {
      offsets = offsets;
      extensions = record {
        with_timeout = has_timeout;
        with_counter = has_flag flags flag_with_counters_bit;
        with_comment = has_flag flags flag_with_comment_bit;
        with_skbinfo = has_flag flags flag_with_skbinfo_bit;
        with_destroy = has_flag flags flag_with_comment_bit;
      };
      forceadd = has_flag flags flag_with_forceadd_bit;
      dsize = align_up total align';
    }
