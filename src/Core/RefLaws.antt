-- ===== src/Core/RefLaws.antt =====
-- References to sets are taken and given back.
use dset.Core.EntryLaws.{set_at-some-lt}
use dset.Core.Refs.{get_found, nfnl_get_byindex, put_found, nfnl_put}
use dset.Core.Sets.{DomainSet, Net, set_at}
use dset.Prelude.{
  ℕ, zero, suc, ◌+◌, ◌^◌, ◌<◌, ◌≡◌, refl, sym, ap, ◌∙◌, false, none, some, List, [], ◌∷◌, get_or,
  set, lt→leb_false, arith, add32, sub32, get_or-set_self, length, if_cases, ◌==◌,
}
use dset.Uapi.{ok}

set-set : {A : Type 0} (xs : List A) (i : ℕ) (a b : A) → set (set xs i a) i b ≡ set xs i b
set-set [] i a b = refl
set-set (x ∷ xs) zero a b = refl
set-set (x ∷ xs) (suc i) a b = ap (◌∷◌ x) (set-set xs i a b)

set-get_or : {A : Type 0} (xs : List A) (i : ℕ) (d : A) → set xs i (get_or xs i d) ≡ xs
set-get_or [] i d = refl
set-get_or (x ∷ xs) zero d = refl
set-get_or (x ∷ xs) (suc i) d = ap (◌∷◌ x) (set-get_or xs i d)

module _ {D : Type 0} (inst : Net D) where
  -- Where the module is not unloading and the counter of references does not wrap, taking a
  -- reference to a set by its index adds one to the counter and returns the index, and giving it
  -- back succeeds and leaves the array as it was before.
  pub put-get :
      (i : ℕ) (s : DomainSet D)
      → inst.is_deleted ≡ false
      → set_at inst.sets i ≡ some s
      → s.ref + 1 < 2 ^ 32
      → (nfnl_get_byindex inst i
          ≡ (i, record inst { sets = set inst.sets i (some (record s { ref = s.ref + 1 })) }))
        × (nfnl_put (nfnl_get_byindex inst i).1 i ≡ (ok, inst))
  put-get i s loaded at small = (taken, ap (λ r. nfnl_put r.1 i) taken ∙ given)
    where
      t : DomainSet D
      t = record s { ref = s.ref + 1 }

      within : i < length inst.sets
      within = set_at-some-lt inst.sets i s at

      counted : add32 s.ref 1 ≡ s.ref + 1
      counted = omega arith

      back : sub32 (s.ref + 1) 1 ≡ s.ref
      back = omega arith

      taken : nfnl_get_byindex inst i ≡ (i, record inst { sets = set inst.sets i (some t) })
      taken =
          unfold nfnl_get_byindex get_found in
          rw (lt→leb_false (length inst.sets) i within, at, counted) refl

      restored : set (set inst.sets i (some t)) i (some s) ≡ inst.sets
      restored =
          set-set inst.sets i (some t) (some s)
          ∙ ap (set inst.sets i) (sym at)
          ∙ set-get_or inst.sets i none

      given : nfnl_put (record inst { sets = set inst.sets i (some t) }) i ≡ (ok, inst)
      given =
          unfold nfnl_put put_found in
          if_cases (λ r. r ≡ (ok, inst)) inst.is_deleted (λ h. absurd cc)
            (λ _. rw (get_or-set_self inst.sets i (some t) none within) (
              if_cases (λ r. r ≡ (ok, inst)) (s.ref + 1 == 0) (λ h. absurd (ground arith))
                (λ _. rw (back, restored) refl)))
