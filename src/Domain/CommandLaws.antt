-- ===== src/Domain/CommandLaws.antt =====
-- The commands on elements for sets of hash:domain: `call_ad` and `domain_set_ad`
-- (kernel/net/netfilter/dset/domain_set_core.c) over hash_domain_uadt and mtype_resize.
use dset.Core.AdtCommands.{is_again, ad_loop}
use dset.Core.RetryLaws.{Retries, Once, ad_loop-Once}
use dset.Domain.Kadt.{Adt, adt_add, adt_del, adt_test}
use dset.Domain.Text.{domain_type}
use dset.Domain.Uadt.{
  UadtResult, is_text, done, call_adt, with_ext, with_domain, uadt, elem_of_attr, user_ext,
}
use dset.Domain.Variant.{hash_variant}
use dset.Domain.VariantLaws.{IsHash, doublings, hash_variant-Progress}
use dset.Ext.Attrs.{Attrs, Result, get_extensions}
use dset.Ext.{Ext}
use dset.Hash.Add.{Memory}
use dset.Hash.AddLaws.{Outcome, add-Outcome}
use dset.Hash.Defs.{HSet}
use dset.Hash.DelLaws.{Deletion, del-Deletion}
use dset.Hash.Resize.{ResizeMemory, resize}
use dset.Hash.ResizeLaws.{Resized, resize-Finished}
use dset.Hash.View.{live}
use dset.Kernel.{Kernel}
use dset.Prelude.{if_cases, ℕ, ◌≡◌, refl, sym, ◌∙◌, Bool, true, Option, none, some, List, arith}
use dset.Uapi.{Status, has_flag, flag_exist_bit}
use mathlib.Core.Path.{subst}

module _ (jhash2 : List ℕ → ℕ → ℕ) (k : Kernel) where
  -- the same elements are live, with the same extensions
  abbrev pub SameLive : HSet (List ℕ) → HSet (List ℕ) → Type 0
  SameLive s s' = (q : List ℕ) → live (domain_type jhash2) k s' q ≡ live (domain_type jhash2) k s q

  added-Again :
      (d : List ℕ) (ext : Ext) (alloc : Bool) (s : HSet (List ℕ)) (forced : Bool)
      (r : Status × HSet (List ℕ))
      → Outcome (domain_type jhash2) k d ext alloc s forced r
      → is_again (done r.0) ≡ true
      → SameLive s r.1
  added-Again d ext alloc s forced (Status.ok, s') h e = cc
  added-Again d ext alloc s forced (Status.err x, s') (valid, reads) e = reads
  added-Again d ext alloc s forced (Status.fault f, s') h e = cc

  deleted-Again :
      (d : List ℕ) (s : HSet (List ℕ)) (r : Status × HSet (List ℕ))
      → Deletion (domain_type jhash2) k d s r
      → is_again (done r.0) ≡ true
      → SameLive s r.1
  deleted-Again d s (Status.ok, s') h e = cc
  deleted-Again d s (Status.err x, s') (is_exist, is, absent) e =
      subst (SameLive s) (sym is) (λ q. refl)
  deleted-Again d s (Status.fault f, s') h e = absurd h

  module _ (mem : Memory) (adt : Adt) (tb : Attrs) (flags : ℕ) (s : HSet (List ℕ))
      (hash : IsHash jhash2 s) where
    call_adt-Again :
        (a : Adt) (d : List ℕ) (ext : Ext)
        → is_again (call_adt jhash2 k mem a d ext flags s).0 ≡ true
        → SameLive s (call_adt jhash2 k mem a d ext flags s).1
    unfolding call_adt
    call_adt-Again adt_test d ext e = cc
    call_adt-Again adt_add d ext e =
        added-Again d ext mem.comment s _ _
          (add-Outcome (domain_type jhash2) k d ext hash.0 mem (has_flag flags flag_exist_bit)) e
    call_adt-Again adt_del d ext e =
        deleted-Again d s _ (del-Deletion (domain_type jhash2) k d hash.0 mem.bucket) e

    with_ext-Again :
        (d : List ℕ) (r : Result Ext)
        → is_again (with_ext jhash2 k mem adt d r flags s).0 ≡ true
        → SameLive s (with_ext jhash2 k mem adt d r flags s).1
    unfolding with_ext
    with_ext-Again d (Result.err x) e = λ q. refl
    with_ext-Again d (Result.ok x) e =
        if_cases (λ (r : UadtResult × HSet (List ℕ)). is_again r.0 ≡ true → SameLive s r.1)
          (is_text d) (λ _. call_adt-Again adt d x) (λ _ faulted. cc) e

    with_domain-Again :
        (o : Option (List ℕ))
        → is_again (with_domain jhash2 k mem adt o tb flags s).0 ≡ true
        → SameLive s (with_domain jhash2 k mem adt o tb flags s).1
    unfolding with_domain
    with_domain-Again none e = λ q. refl
    with_domain-Again (some attr) e =
        with_ext-Again (elem_of_attr attr) (get_extensions s.exts tb (user_ext s)) e

    uadt-Again :
        is_again (uadt jhash2 k mem adt tb flags s).0 ≡ true
        → SameLive s (uadt jhash2 k mem adt tb flags s).1
    unfolding uadt
    uadt-Again e = with_domain-Again tb.domain e

  Resized-SameLive :
      (mem : ResizeMemory) (s : HSet (List ℕ)) (r : Status) (s' : HSet (List ℕ))
      → Resized (domain_type jhash2) k mem s r s'
      → SameLive s s'
  Resized-SameLive mem s Status.ok s' (valid, reads, counted, grows) = reads
  Resized-SameLive mem s (Status.err e) s' is = subst (SameLive s) (sym is) (λ q. refl)
  Resized-SameLive mem s (Status.fault f) s' (is, why) = subst (SameLive s) (sym is) (λ q. refl)

  resize-SameLive :
      (mem : ResizeMemory) (s : HSet (List ℕ)) (p : Status × HSet (List ℕ))
      → IsHash jhash2 s
      → resize (domain_type jhash2) k mem s ≡ some p
      → SameLive s p.1
  resize-SameLive mem s p hash e =
      let (r, s', e', h) = resize-Finished (domain_type jhash2) k mem s hash.0 hash.1 in
      let same : (r, s') ≡ p = cc in
      subst (λ x. SameLive s x.1) same (Resized-SameLive mem s r s' h)

  module _ (mem : ℕ → Memory) (resize_mem : ℕ → ResizeMemory) where
    hash_variant-Retries :
        Retries (IsHash jhash2) (doublings jhash2) SameLive (hash_variant jhash2 k mem resize_mem)
    unfolding hash_variant
    hash_variant-Retries = record {
      progress = hash_variant-Progress jhash2 k mem resize_mem;
      same_refl = λ s q. refl;
      same_trans = λ a b c f g q. g q ∙ f q;
      uadt-Again = λ n adt tb flags retried s hash. uadt-Again (mem n) adt tb flags s hash;
      resize-Keeps = λ n s p hash e. resize-SameLive (resize_mem n) s p hash e;
    }

    -- The loop of `call_ad` on a set of hash:domain with a valid table ends within 256 rounds. Its
    -- result is what one call of `hash_domain_uadt` returns, which is not EAGAIN, on a valid table
    -- that is the same map from domains to extensions; or such a call returned EAGAIN, the resize that
    -- followed failed, the result is its error, and the map is as it was before the command. (A domain
    -- with a NUL inside is a fault here.)
    pub hash_ad_loop-Once :
        (adt : Adt) (tb : Attrs) (flags : ℕ) (s : HSet (List ℕ))
        → IsHash jhash2 s
        → Once
            (IsHash jhash2)
            (doublings jhash2)
            SameLive
            (hash_variant jhash2 k mem resize_mem)
            adt
            tb
            flags
            s
            (ad_loop (hash_variant jhash2 k mem resize_mem) 256 0 adt tb flags s)
    hash_ad_loop-Once adt tb flags s hash =
        ad_loop-Once (IsHash jhash2) (doublings jhash2) SameLive
          (hash_variant jhash2 k mem resize_mem) hash_variant-Retries adt tb flags 256 0 s hash
          (omega arith)
