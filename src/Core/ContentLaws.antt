-- ===== src/Core/ContentLaws.antt =====
-- The commands on elements change no name and no reference of a set
-- (`domain_set_ad`, `domain_set_utest`, kernel/net/netfilter/dset/domain_set_core.c).
use dset.Core.AdtCommands.{
  Variant, Reply, Nested, AdAttrs, Payload, ad_args, Answered, refusal, put_content, ad_found,
  domain_set_ad, utest_end, utest_parsed, utest_with, utest_found, utest_named, utest,
}
use dset.Core.Commands.{protocol_min_failed}
use dset.Core.EntryLaws.{set_at-set}
use dset.Core.FindLaws.{Finds, find_set_and_id-Finds}
use dset.Core.HoldLaws.{Holds}
use dset.Core.NameLaws.{IsNamed}
use dset.Core.Sets.{DomainSet, Net, set_at, names_set, find_set_and_id}
use dset.Domain.Kadt.{Adt, adt_test}
use dset.Domain.Uadt.{UadtResult}
use dset.Prelude.{
  ℕ, ◌≡◌, ◌⊎◌, inl, inr, refl, sym, ap, ◌∙◌, Bool, false, Option, none, some, List, set, if_cases,
  arith,
}
use dset.Uapi.{Errno, Status}
use mathlib.Core.Path.{subst}

module _ {D : Type 0} where
  -- an entry is as it was, or a set with another content
  abbrev pub SameSet : Option (DomainSet D) → Option (DomainSet D) → Type 0
  SameSet before after =
      (after ≡ before)
      ⊎ ((s : DomainSet D) × (c : D) × (before ≡ some s)
          × (after ≡ some (record s { content = c })))

  abbrev pub ContentOnly : List (Option (DomainSet D)) → List (Option (DomainSet D)) → Type 0
  ContentOnly before after = (j : ℕ) → SameSet (set_at before j) (set_at after j)

  pub ContentOnly-Holds :
      (i : ℕ) (name : List ℕ) (ref : ℕ) (before after : List (Option (DomainSet D)))
      → ContentOnly before after
      → Holds i name ref before
      → Holds i name ref after
  ContentOnly-Holds i name ref before after only (s, at, is_name, is_ref) = elim (only i) [
    | inl same ↦ (s, same ∙ at, is_name, is_ref)
    | inr (t, c, was, now) ↦
        let is : t ≡ s = cc in
        (record t { content = c }, now, ap (λ x. x.name) is ∙ is_name, ap (λ x. x.ref) is ∙ is_ref)
  ]

  same_names :
      (name : List ℕ) (o o' : Option (DomainSet D))
      → SameSet o o'
      → names_set name o' ≡ names_set name o
  same_names name o o' (inl same) = ap (names_set name) same
  same_names name o o' (inr (s, c, was, now)) =
      ap (names_set name) now ∙ sym (ap (names_set name) was)

  pub ContentOnly-IsNamed :
      (before after : List (Option (DomainSet D)))
      → ContentOnly before after
      → IsNamed before
      → IsNamed after
  ContentOnly-IsNamed before after only named name i j h g =
      named name i j (sym (same_names name _ _ (only i)) ∙ h)
        (sym (same_names name _ _ (only j)) ∙ g)

  set-ContentOnly :
      (sets : List (Option (DomainSet D))) (i : ℕ) (s : DomainSet D) (c : D)
      → set_at sets i ≡ some s
      → ContentOnly sets (set sets i (some (record s { content = c })))
  set-ContentOnly sets i s c at j = elim (set_at-set sets i (some (record s { content = c })) j) [
    | inl same ↦ inl same
    | inr (here, new) ↦ inr (s, c, ap (set_at sets) (sym here) ∙ at, new)
  ]

  -- the answer to an add or delete command, if there is one
  abbrev OnlyIf : Net D → Option (Answered (Net D)) → Type 0
  OnlyIf inst none = Unit {0}
  OnlyIf inst (some r) = ContentOnly inst.sets r.after.sets

  module _ {T : Type 0} where
    module _ (fuel : ℕ) (variants : ℕ → Variant D T) (replies : ℕ → Reply) where
      put-OnlyIf :
          (inst : Net D) (i : ℕ) (s : DomainSet D) (o : Option (Answered D))
          → set_at inst.sets i ≡ some s
          → OnlyIf inst (put_content fuel variants replies inst i s o)
      put-OnlyIf inst i s none at = tt
      put-OnlyIf inst i s (some r) at = set-ContentOnly inst.sets i s r.after at

      found-OnlyIf :
          (adt : Adt) (flags : ℕ) (use_lineno : Bool) (p : Payload T) (name : List ℕ) (inst : Net D)
          (o : Option (ℕ × DomainSet D))
          → Finds name 0 inst.sets o
          → OnlyIf inst (ad_found fuel variants replies adt flags use_lineno p inst o)
      found-OnlyIf adt flags use_lineno p name inst none h = λ j. inl refl
      found-OnlyIf adt flags use_lineno p name inst (some (i, s)) (o, e, at, named) =
          put-OnlyIf inst i s _ (ap (set_at inst.sets) (omega arith) ∙ at)

      ad-OnlyIf :
          (adt : Adt) (flags : ℕ) (a : AdAttrs T) (inst : Net D)
          → OnlyIf inst (domain_set_ad fuel variants replies adt flags a inst)
      unfolding domain_set_ad
      ad-OnlyIf adt flags a inst = go (ad_args a)
        where
          go :
              (o : Option (List ℕ × Payload T))
              → OnlyIf inst (elim o [
                | none ↦ some (refusal Errno.protocol inst)
                | some (name, p) ↦
                    ad_found fuel variants replies adt flags a.has_lineno p inst
                      (find_set_and_id inst name)
              ])
          go none = λ j. inl refl
          go (some (name, p)) =
              found-OnlyIf adt flags a.has_lineno p name inst (find_set_and_id inst name)
                (find_set_and_id-Finds inst name)

      pub ad-ContentOnly :
          (adt : Adt) (flags : ℕ) (a : AdAttrs T) (inst : Net D) (r : Answered (Net D))
          → domain_set_ad fuel variants replies adt flags a inst ≡ some r
          → ContentOnly inst.sets r.after.sets
      ad-ContentOnly adt flags a inst r e = subst (OnlyIf inst) e (ad-OnlyIf adt flags a inst)

    module _ (v : Variant D T) where
      parsed-ContentOnly :
          (inst : Net D) (i : ℕ) (s : DomainSet D) (tb : T)
          → set_at inst.sets i ≡ some s
          → ContentOnly inst.sets (utest_parsed v inst i s tb).1.sets
      unfolding utest_parsed
      parsed-ContentOnly inst i s tb at = go (v.uadt 0 adt_test tb 0 false s.content) (v.lineno tb)
        where
          go :
              (p : UadtResult × D) (o : Option ℕ)
              → ContentOnly inst.sets (utest_end v inst i s p o).1.sets
          go p none = set-ContentOnly inst.sets i s p.1 at
          go p (some l) = λ j. inl refl

      pub utest-ContentOnly :
          (a : AdAttrs T) (inst : Net D) → ContentOnly inst.sets (utest v a inst).1.sets
      unfolding utest
      utest-ContentOnly a inst =
          if_cases (λ (r : Status × Net D). ContentOnly inst.sets r.1.sets)
            (protocol_min_failed a.protocol) (λ _ j. inl refl) (λ _. named a.setname a.element)
        where
          parsed :
              (i : ℕ) (s : DomainSet D) (o : Option T)
              → set_at inst.sets i ≡ some s
              → ContentOnly inst.sets (utest_with v inst i s o).1.sets
          parsed i s none at = λ j. inl refl
          parsed i s (some tb) at = parsed-ContentOnly inst i s tb at

          found :
              (n : Nested T) (name : List ℕ) (o : Option (ℕ × DomainSet D))
              → Finds name 0 inst.sets o
              → ContentOnly inst.sets (utest_found v inst n o).1.sets
          found n name none h = λ j. inl refl
          found n name (some (i, s)) (o, e, at, is) =
              parsed i s (n.parsed s.kind) (ap (set_at inst.sets) (omega arith) ∙ at)

          named :
              (name : Option (List ℕ)) (n : Option (Nested T))
              → ContentOnly inst.sets (utest_named v inst name n).1.sets
          named none n = λ j. inl refl
          named (some name) none = λ j. inl refl
          named (some name) (some n) =
              if_cases (λ (r : Status × Net D). ContentOnly inst.sets r.1.sets) n.nested
                (λ _. found n name (find_set_and_id inst name) (find_set_and_id-Finds inst name))
                (λ _ j. inl refl)
