-- ===== src/Domain/TestCommandLaws.antt =====
-- `domain_set_utest` (kernel/net/netfilter/dset/domain_set_core.c) for a set of hash:domain.
use dset.Core.AdtCommands.{
  Variant, Nested, AdAttrs, utest_answer, utest_end, utest_parsed, utest_with, utest_found,
  utest_named, utest,
}
use dset.Core.Commands.{protocol_min_failed}
use dset.Core.Sets.{DomainSet, Net, find_set_and_id}
use dset.Domain.Kadt.{adt_test}
use dset.Domain.Text.{domain_type}
use dset.Domain.Uadt.{
  done, is_text, tested, call_adt, with_ext, with_domain, uadt, elem_of_attr, user_ext,
}
use dset.Domain.Variant.{hash_variant}
use dset.Ext.Attrs.{Attrs, Result, get_extensions}
use dset.Ext.{Ext}
use dset.Hash.Add.{Memory}
use dset.Hash.Defs.{HSet}
use dset.Hash.LookupLaws.{passes, test-Testing}
use dset.Hash.Resize.{ResizeMemory}
use dset.Hash.View.{IsValid, live}
use dset.Kernel.{Kernel}
use dset.Prelude.{ℕ, ◌≡◌, refl, ap, ◌∙◌, Bool, true, false, none, some, List, if◌then◌else◌}
use dset.Uapi.{Errno, ok, err, fault, embedded_nul}

module _ (jhash2 : List ℕ → ℕ → ℕ) (k : Kernel) (mem : ℕ → Memory)
    (resize_mem : ℕ → ResizeMemory) where
  uadt_test :
      (tb : Attrs) (s : HSet (List ℕ)) (attr : List ℕ) (ext : Ext)
      → tb.domain ≡ some attr
      → get_extensions s.exts tb (user_ext s) ≡ Result.ok ext
      → is_text (elem_of_attr attr) ≡ true
      → IsValid (domain_type jhash2) s
      → (uadt jhash2 k (mem 0) adt_test tb 0 s).0
        ≡ tested (
            passes
              (domain_type jhash2)
              k
              (elem_of_attr attr)
              ext
              ext
              0
              s.exts
              (live (domain_type jhash2) k s (elem_of_attr attr)))
  unfolding uadt with_domain with_ext call_adt
  uadt_test tb s attr ext has exts text valid =
      ap (λ o. (with_domain jhash2 k (mem 0) adt_test o tb 0 s).0) has
      ∙ ap (λ r. (with_ext jhash2 k (mem 0) adt_test (elem_of_attr attr) r 0 s).0) exts
      ∙ ap
          (λ b.
            (if b
              then call_adt jhash2 k (mem 0) adt_test (elem_of_attr attr) ext 0 s
              else (done (fault embedded_nul), s)).0)
          text
      ∙ ap tested
          ((test-Testing (domain_type jhash2) k (elem_of_attr attr) ext ext 0 valid).matched)

  abbrev set_variant : Variant (HSet (List ℕ)) Attrs
  set_variant = hash_variant jhash2 k mem resize_mem

  parsed-answer :
      (inst : Net (HSet (List ℕ))) (i : ℕ) (s : DomainSet (HSet (List ℕ))) (tb : Attrs)
      → tb.lineno ≡ none
      → (utest_parsed set_variant inst i s tb).0
        ≡ utest_answer (uadt jhash2 k (mem 0) adt_test tb 0 s.content).0
  unfolding utest_parsed hash_variant
  parsed-answer inst i s tb no_line =
      ap (λ o. (utest_end set_variant inst i s (uadt jhash2 k (mem 0) adt_test tb 0 s.content) o).0)
        no_line

  tested-answer : (b : Bool) → utest_answer (tested b) ≡ (if b then ok else err Errno.exist)
  tested-answer true = refl
  tested-answer false = refl

  -- The test command with a well-formed message, whose domain has no NUL inside, on a set of
  -- hash:domain with a valid table: it returns 0 exactly if the domain of the message is live in the set
  -- of that name and its counters pass, and EXIST otherwise. (With DSET_ATTR_LINENO it writes through
  -- a null pointer.)
  pub hash_utest-live :
      (a : AdAttrs Attrs) (inst : Net (HSet (List ℕ))) (name attr : List ℕ) (i : ℕ)
      (s : DomainSet (HSet (List ℕ))) (n : Nested Attrs) (tb : Attrs) (ext : Ext)
      → protocol_min_failed a.protocol ≡ false
      → a.setname ≡ some name
      → a.element ≡ some n
      → n.nested ≡ true
      → find_set_and_id inst name ≡ some (i, s)
      → n.parsed s.kind ≡ some tb
      → tb.lineno ≡ none
      → tb.domain ≡ some attr
      → get_extensions s.content.exts tb (user_ext s.content) ≡ Result.ok ext
      → is_text (elem_of_attr attr) ≡ true
      → IsValid (domain_type jhash2) s.content
      → (utest (hash_variant jhash2 k mem resize_mem) a inst).0 ≡ (
          if passes
            (domain_type jhash2)
            k
            (elem_of_attr attr)
            ext
            ext
            0
            s.content.exts
            (live (domain_type jhash2) k s.content (elem_of_attr attr))
          then ok
          else err Errno.exist)
  unfolding utest
  hash_utest-live a inst name attr i s n tb ext proto has_name has_data nested is_there parses
        no_line has exts text valid =
      ap
        (λ b.
          (if b
            then (err Errno.protocol, inst)
            else utest_named set_variant inst a.setname a.element).0)
        proto
      ∙ ap (λ o. (utest_named set_variant inst o a.element).0) has_name
      ∙ ap (λ o. (utest_named set_variant inst (some name) o).0) has_data
      ∙ ap
          (λ b.
            (if b
              then utest_found set_variant inst n (find_set_and_id inst name)
              else (err Errno.protocol, inst)).0)
          nested
      ∙ ap (λ o. (utest_found set_variant inst n o).0) is_there
      ∙ ap (λ o. (utest_with set_variant inst i s o).0) parses
      ∙ parsed-answer inst i s tb no_line
      ∙ ap utest_answer (uadt_test tb s.content attr ext has exts text valid)
      ∙ tested-answer (
          passes (domain_type jhash2) k (elem_of_attr attr) ext ext 0 s.content.exts
            (live (domain_type jhash2) k s.content (elem_of_attr attr)))
