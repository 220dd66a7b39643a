-- ===== src/Core/AdLaws.antt =====
-- `domain_set_ad` on the array of sets (kernel/net/netfilter/dset/domain_set_core.c): it ends, and of
-- the array it changes the content of the set it names.
use dset.Core.AdtCommands.{
  Variant, Reply, AdAttrs, Payload, single, batch, ad_args, Answered, refusal, put_content,
  ad_found, domain_set_ad,
}
use dset.Core.Commands.{protocol_min_failed}
use dset.Core.AdtLaws.{IsFault, Progress, ad_payload-Answers}
use dset.Core.EntryLaws.{set_at-set}
use dset.Core.FindLaws.{Finds, find_set_and_id-Finds}
use dset.Core.Sets.{DomainSet, Net, set_at, find_set_and_id}
use dset.Core.Types.{name_eq}
use dset.Domain.Kadt.{Adt}
use dset.Domain.Uadt.{UadtResult}
use dset.Prelude.{
  false, ℕ, ◌<◌, ◌≡◌, ◌⊎◌, inl, inr, refl, sym, ap, ◌∙◌, Bool, true, Option, none, some, List, set,
  arith, length, length-set,
}
use dset.Uapi.{Errno}
use mathlib.Core.Path.{subst}

module _ {D : Type 0} (Valid : D → Type 0) where
  -- the content of every set is valid
  abbrev pub AllValid : List (Option (DomainSet D)) → Type 0
  AllValid sets = (j : ℕ) (s : DomainSet D) → set_at sets j ≡ some s → Valid s.content

  -- an entry of the array after a command for `name`: as it was, or a set of that name with another
  -- content, which is valid but for a fault
  abbrev pub Rewritten : List ℕ → UadtResult → Option (DomainSet D) → Option (DomainSet D) → Type 0
  Rewritten name r before after =
      (after ≡ before)
      ⊎ ((s : DomainSet D) × (c : D) × (before ≡ some s)
          × (name_eq s.name name ≡ true)
          × (after ≡ some (record s { content = c }))
          × (IsFault r ⊎ Valid c))

  -- the answer of a command for `name`
  abbrev pub Commanded : List ℕ → Net D → Answered (Net D) → Type 0
  Commanded name inst r =
      ((j : ℕ) → Rewritten name r.result (set_at inst.sets j) (set_at r.after.sets j))
      × (length r.after.sets ≡ length inst.sets)
      × (IsFault r.result ⊎ AllValid r.after.sets)

  -- the payload of a message: one element, nested, or a nested list of entries with a line number
  abbrev pub Carries : {T : Type 0} → AdAttrs T → Payload T → Type 0
  Carries a (single n) = (a.element ≡ some n) × (a.adt ≡ none) × (n.nested ≡ true)
  Carries a (batch ns) = (a.element ≡ none) × (a.adt ≡ some (true, ns)) × (a.has_lineno ≡ true)

  -- a message of a protocol that is spoken, for the set of this name
  abbrev pub Tells : {T : Type 0} → AdAttrs T → List ℕ → Payload T → Type 0
  Tells a name p = (protocol_min_failed a.protocol ≡ false) × (a.setname ≡ some name) × Carries a p

  -- with no set of that name the answer is ENOENT, and nothing changes
  abbrev pub Found : List ℕ → Net D → Answered (Net D) → Type 0
  Found name inst r =
      ((find_set_and_id inst name ≡ none) × (r ≡ refusal Errno.enoent inst))
      ⊎ ((i : ℕ) × (s : DomainSet D) × (find_set_and_id inst name ≡ some (i, s)))

  -- a refusal of a message that is none, or the answer for the name in the message
  abbrev pub Named : {T : Type 0} → AdAttrs T → Net D → Answered (Net D) → Type 0
  Named a inst r =
      ((r ≡ refusal Errno.protocol inst) × ((name : List ℕ) (p : Payload _) → ¬ Tells a name p))
      ⊎ ((name : List ℕ) × (p : Payload _) × Tells a name p
          × Found name inst r
          × Commanded name inst r)

  abbrev ValidAt : Option (DomainSet D) → Type 0
  ValidAt none = ⊥
  ValidAt (some s) = Valid s.content

  module _ {T : Type 0} (left : D → ℕ) (fuel : ℕ) (variants : ℕ → Variant D T) (replies : ℕ → Reply)
      (laws : (n : ℕ) → Progress Valid left (variants n))
      (bounded : (d : D) → Valid d → left d < fuel) where
    put-Commanded :
        (name : List ℕ) (inst : Net D) (i : ℕ) (s : DomainSet D) (r : Answered D)
        → AllValid inst.sets
        → set_at inst.sets i ≡ some s
        → name_eq s.name name ≡ true
        → IsFault r.result ⊎ Valid r.after
        → Commanded name inst (record {
          result = r.result;
          sent = r.sent;
          after = record inst { sets = set inst.sets i (some (record s { content = r.after })) };
        })
    put-Commanded name inst i s r valid at named ended =
        (entry, length-set inst.sets i (some (record s { content = r.after })), all ended)
      where
        after : List (Option (DomainSet D))
        after = set inst.sets i (some (record s { content = r.after }))

        entry : (j : ℕ) → Rewritten name r.result (set_at inst.sets j) (set_at after j)
        entry j = elim (set_at-set inst.sets i (some (record s { content = r.after })) j) [
          | inl same ↦ inl same
          | inr (here, new) ↦
              inr (s, r.after, ap (set_at inst.sets) (sym here) ∙ at, named, new, ended)
        ]

        all : IsFault r.result ⊎ Valid r.after → IsFault r.result ⊎ AllValid after
        all (inl f) = inl f
        all (inr fine) = inr (λ j s' at'.
            elim (set_at-set inst.sets i (some (record s { content = r.after })) j) [
              | inl same ↦ valid j s' (sym same ∙ at')
              | inr (here, new) ↦ subst ValidAt (sym new ∙ at') fine
            ])

    found-Commanded :
        (adt : Adt) (flags : ℕ) (use_lineno : Bool) (p : Payload T) (name : List ℕ) (inst : Net D)
        → AllValid inst.sets
        → (o : Option (ℕ × DomainSet D)) → Finds name 0 inst.sets o
        → (r : Answered (Net D)) × (ad_found fuel variants replies adt flags use_lineno p inst o
            ≡ some r)
          × Commanded name inst r
    found-Commanded adt flags use_lineno p name inst valid none h =
        (refusal Errno.enoent inst, refl, ((λ j. inl refl), refl, inr valid))
    found-Commanded adt flags use_lineno p name inst valid (some (i, s)) (o, e, at, named) =
        let (r, e', ended) =
          ad_payload-Answers Valid left fuel variants replies laws bounded s.kind adt flags
            use_lineno p s.content (valid o s at) in
        (
          _,
          ap (put_content fuel variants replies inst i s) e',
          put-Commanded name inst i s r valid (ap (set_at inst.sets) (omega arith) ∙ at) named
              ended,
        )

    ad_found-Found :
        (adt : Adt) (flags : ℕ) (use_lineno : Bool) (p : Payload T) (name : List ℕ) (inst : Net D)
        → (o : Option (ℕ × DomainSet D)) → find_set_and_id inst name ≡ o
        → (r : Answered (Net D))
        → ad_found fuel variants replies adt flags use_lineno p inst o ≡ some r
        → Found name inst r
    ad_found-Found adt flags use_lineno p name inst none e r e' = inl (e, cc)
    ad_found-Found adt flags use_lineno p name inst (some (i, s)) e r e' = inr (i, s, e)

    args-Tells :
        (a : AdAttrs T) (name : List ℕ) (p : Payload T)
        → ad_args a ≡ some (name, p)
        → Tells a name p
    unfolding ad_args
    args-Tells a name (single n) e = ground arith
    args-Tells a name (batch ns) e = ground arith

    Tells-args :
        (a : AdAttrs T) (name : List ℕ) (p : Payload T)
        → Tells a name p
        → ad_args a ≡ some (name, p)
    unfolding ad_args
    Tells-args a name (single n) (spoken, named, (has, alone, nested)) =
        rw (spoken, named, has, alone, nested) refl
    Tells-args a name (batch ns) (spoken, named, (alone, has, numbered)) =
        rw (spoken, named, alone, has, numbered) refl

    -- `domain_set_ad`, the add and delete commands, on sets whose functions end their resizes and
    -- keep their data valid (`Progress`), with fuel for each resize that is possible: the command
    -- ends, for single elements and for lists of them. A message is refused, and changes nothing,
    -- exactly if its protocol is too old, it has no name, or not just one nested payload, with a
    -- line number for a list. Otherwise ENOENT is returned if no set has the name; each entry of
    -- the array is as it was or is a set of the name in the message, of which the content alone
    -- changed (a list that an entry breaks off leaves what came before it); and the contents are
    -- valid, unless a fault occurred.
    pub domain_set_ad-Commanded :
        (adt : Adt) (flags : ℕ) (a : AdAttrs T) (inst : Net D)
        → AllValid inst.sets
        → (r : Answered (Net D)) × (domain_set_ad fuel variants replies adt flags a inst ≡ some r)
          × Named a inst r
    unfolding domain_set_ad
    domain_set_ad-Commanded adt flags a inst valid = go (ad_args a) refl
      where
        go :
            (o : Option (List ℕ × Payload T))
            → ad_args a ≡ o
            → (r : Answered (Net D)) × (elim o [
              | none ↦ some (refusal Errno.protocol inst)
              | some (name, p) ↦
                  ad_found fuel variants replies adt flags a.has_lineno p inst
                    (find_set_and_id inst name)
            ]
                ≡ some r)
              × Named a inst r
        go none e = (
          refusal Errno.protocol inst,
          refl,
          inl (refl, λ name p tells. let args = Tells-args a name p tells in cc),
        )
        go (some (name, p)) e =
            let (r, e', h) =
              found-Commanded adt flags a.has_lineno p name inst valid (find_set_and_id inst name)
                (find_set_and_id-Finds inst name) in
            (
              r,
              e',
              inr (
                name,
                p,
                args-Tells a name p e,
                ad_found-Found adt flags a.has_lineno p name inst (find_set_and_id inst name) refl r
                    e',
                h,
              ),
            )
