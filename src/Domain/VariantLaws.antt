-- ===== src/Domain/VariantLaws.antt =====
-- The functions of hash:domain keep to what the commands on elements ask: every call leaves a valid
-- table, and a resize ends with a larger one.
use dset.Core.AdtLaws.{Progress, Called, Resizing}
use dset.Domain.Kadt.{Adt, adt_add, adt_del, adt_test}
use dset.Domain.Text.{domain_type}
use dset.Domain.Uadt.{is_text, done, call_adt, with_ext, with_domain, uadt, elem_of_attr, user_ext}
use dset.Domain.Variant.{hash_variant}
use dset.Ext.Attrs.{Attrs, Result, get_extensions}
use dset.Ext.{Ext}
use dset.Hash.Add.{Memory}
use dset.Hash.AddLaws.{Outcome, add-Outcome}
use dset.Hash.BitsLaws.{Small, add-bits, del-bits, test-bits, resize-Small}
use dset.Hash.Defs.{HSet}
use dset.Hash.DelLaws.{Deletion, del-Deletion}
use dset.Hash.LookupLaws.{test-Testing}
use dset.Hash.Resize.{ResizeMemory}
use dset.Hash.ResizeLaws.{Resized, resize-Finished}
use dset.Hash.View.{IsValid}
use dset.Kernel.{Kernel}
use dset.Prelude.{if_cases, ℕ, ◌-◌, ◌≤◌, ◌≡◌, inl, inr, sym, Bool, Option, none, some, List, arith}
use dset.Uapi.{Status, has_flag, flag_exist_bit}
use mathlib.Core.Path.{subst}

module _ (jhash2 : List ℕ → ℕ → ℕ) where
  -- a valid table whose size is a u8
  abbrev pub IsHash : HSet (List ℕ) → Type 0
  IsHash s = IsValid (domain_type jhash2) s × (s.htable_bits ≤ 255)

  -- how often it can still double
  abbrev pub doublings : HSet (List ℕ) → ℕ
  doublings s = 255 - s.htable_bits

  module _ (k : Kernel) where
    kept :
        (s s' : HSet (List ℕ))
        → IsHash s
        → IsValid (domain_type jhash2) s'
        → s'.htable_bits ≡ s.htable_bits
        → IsHash s' × (doublings s' ≤ doublings s)
    kept s s' (valid, small) valid' same = ((valid', omega arith), omega arith)

    added-Called :
        (d : List ℕ) (ext : Ext) (alloc : Bool) (s : HSet (List ℕ)) (forced : Bool)
        (r : Status × HSet (List ℕ))
        → IsHash s
        → Outcome (domain_type jhash2) k d ext alloc s forced r
        → r.1.htable_bits ≡ s.htable_bits
        → Called IsHash doublings s (done r.0, r.1)
    added-Called d ext alloc s forced (Status.ok, s') hash (e, written, added) same =
        inr (kept s s' hash added.valid same)
    added-Called d ext alloc s forced (Status.err e, s') hash (valid, reads) same =
        inr (kept s s' hash valid same)
    added-Called d ext alloc s forced (Status.fault f, s') hash h same = inl tt

    deleted-Called :
        (d : List ℕ) (s : HSet (List ℕ)) (r : Status × HSet (List ℕ))
        → IsHash s
        → Deletion (domain_type jhash2) k d s r
        → r.1.htable_bits ≡ s.htable_bits
        → Called IsHash doublings s (done r.0, r.1)
    deleted-Called d s (Status.ok, s') hash h same = inr (kept s s' hash h.valid same)
    deleted-Called d s (Status.err e, s') hash (x, is, absent) same =
        inr (subst (λ t. IsHash t × (doublings t ≤ doublings s)) (sym is) (hash, omega arith))
    deleted-Called d s (Status.fault f, s') hash h same = absurd h

    call_adt-Called :
        (mem : Memory) (adt : Adt) (d : List ℕ) (ext : Ext) (flags : ℕ) (s : HSet (List ℕ))
        → IsHash s
        → Called IsHash doublings s (call_adt jhash2 k mem adt d ext flags s)
    unfolding call_adt
    call_adt-Called mem adt_test d ext flags s hash = inr (
        kept s _ hash (test-Testing (domain_type jhash2) k d ext ext flags hash.0).valid_after
          (test-bits (domain_type jhash2) k d ext s ext flags))
    call_adt-Called mem adt_add d ext flags s hash =
        added-Called d ext mem.comment s _ _ hash
          (add-Outcome (domain_type jhash2) k d ext hash.0 mem (has_flag flags flag_exist_bit))
          (add-bits (domain_type jhash2) k d ext s mem (has_flag flags flag_exist_bit))
    call_adt-Called mem adt_del d ext flags s hash =
        deleted-Called d s _ hash (del-Deletion (domain_type jhash2) k d hash.0 mem.bucket)
          (del-bits (domain_type jhash2) k d ext s mem.bucket)

    uadt-Called :
        (mem : Memory) (adt : Adt) (tb : Attrs) (flags : ℕ) (s : HSet (List ℕ))
        → IsHash s
        → Called IsHash doublings s (uadt jhash2 k mem adt tb flags s)
    unfolding uadt with_domain
    uadt-Called mem adt tb flags s hash = go tb.domain
      where
        ext :
            (d : List ℕ) (r : Result Ext)
            → Called IsHash doublings s (with_ext jhash2 k mem adt d r flags s)
        ext d (Result.err e) = unfold with_ext in inr (hash, omega arith)
        ext d (Result.ok x) =
            unfold with_ext in
            if_cases (Called IsHash doublings s) (is_text d)
              (λ _. call_adt-Called mem adt d x flags s hash) (λ _. inl tt)

        go :
            (o : Option (List ℕ))
            → Called IsHash doublings s (with_domain jhash2 k mem adt o tb flags s)
        go none = inr (hash, omega arith)
        go (some attr) = ext (elem_of_attr attr) (get_extensions s.exts tb (user_ext s))

    Resized-Resizing :
        (mem : ResizeMemory) (s : HSet (List ℕ)) (r : Status) (s' : HSet (List ℕ))
        → IsHash s
        → Resized (domain_type jhash2) k mem s r s'
        → s'.htable_bits ≤ 255
        → Resizing IsHash doublings s (r, s')
    Resized-Resizing mem s Status.ok s' hash (valid, reads, counted, grows) small =
        ((valid, small), omega arith)
    Resized-Resizing mem s (Status.err e) s' hash is small = subst IsHash (sym is) hash
    Resized-Resizing mem s (Status.fault f) s' hash h small = tt

    -- hash:domain keeps to what the commands ask
    pub hash_variant-Progress :
        (mem : ℕ → Memory) (resize_mem : ℕ → ResizeMemory)
        → Progress IsHash doublings (hash_variant jhash2 k mem resize_mem)
    unfolding hash_variant
    hash_variant-Progress mem resize_mem = record {
      uadt-Called = λ n adt tb flags retried s hash. uadt-Called (mem n) adt tb flags s hash;
      resize-Ends = λ n s hash.
          let (r, s', e, h) =
            resize-Finished (domain_type jhash2) k (resize_mem n) s hash.0 hash.1 in
          (
            (r, s'),
            e,
            Resized-Resizing (resize_mem n) s r s' hash h (
                subst (Small (domain_type jhash2) k (resize_mem n) s hash.1) e
                  (resize-Small (domain_type jhash2) k (resize_mem n) s hash.1)),
          );
    }
