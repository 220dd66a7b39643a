-- ===== src/Core/RetryLaws.antt =====
-- The loop of `call_ad` (kernel/net/netfilter/dset/domain_set_core.c) is one call of `uadt` on a set
-- that was only resized before.
use dset.Core.AdtCommands.{Variant, resized, is_again, after_call, is_failed, ad_loop}
use dset.Core.AdtLaws.{Called, Resizing, Progress, ResizeEnds}
use dset.Domain.Kadt.{Adt}
use dset.Domain.Uadt.{UadtResult, done, tested}
use dset.Prelude.{
  false, ℕ, zero, suc, ◌≤◌, ◌<◌, ◌≡◌, ◌⊎◌, inl, inr, refl, sym, Bool, true, not, Option, none, some,
  if_cases, ◌==◌, arith,
}
use dset.Uapi.{Status}
use mathlib.Core.Path.{subst}

module _ {D : Type 0} (Valid : D → Type 0) (left : D → ℕ) (Same : D → D → Type 0) where
  -- a call that asks to be repeated, and a resize, leave the same set
  abbrev pub Again : D → UadtResult × D → Type 0
  Again d (r, d') = is_again r ≡ true → Same d d'

  abbrev pub ResizeKeeps : Option (ℕ → D → Option (Status × D)) → Type 0
  ResizeKeeps none = Unit {0}
  ResizeKeeps (some resize) =
      (n : ℕ) (d : D) (p : Status × D) → Valid d → resize n d ≡ some p → Same d p.1

  module _ {T : Type 0} where
    pub record Retries (v : Variant D T) : Type 0 where
      pub progress : Progress Valid left v
      pub same_refl : (d : D) → Same d d
      pub same_trans : (a b c : D) → Same a b → Same b c → Same a c
      pub uadt-Again :
          (n : ℕ) (adt : Adt) (tb : T) (flags : ℕ) (retried : Bool) (d : D)
          → Valid d
          → Again d (v.uadt n adt tb flags retried d)
      pub resize-Keeps : ResizeKeeps v.resize

    module _ (v : Variant D T) (adt : Adt) (tb : T) (flags : ℕ) where
      -- a call on a set that is the same as `d`
      abbrev pub Ran : D → UadtResult × D → Type 0
      Ran d p =
          (n : ℕ) × (retried : Bool) × (d₁ : D) × Valid d₁
          × Same d d₁
          × (v.uadt n adt tb flags retried d₁ ≡ p)

      -- what is left of a call that asked to be repeated: it stands if there is no resize; otherwise the
      -- resize of the set that it left failed, with the error that is the result
      abbrev pub Unlarged : UadtResult × D → UadtResult × D → Type 0
      Unlarged q p =
          ((v.resize ≡ none) × (p ≡ q))
          ⊎ ((resize : ℕ → D → Option (Status × D)) × (n : ℕ) × (e : Status) × (v.resize
                ≡ some resize)
              × (resize n q.1 ≡ some (e, p.1))
              × (is_failed (done e) ≡ true)
              × (p.0 ≡ done e))

      -- one such call gives the result and does not ask to be repeated; or one did, and there was no
      -- larger table
      abbrev pub Once : D → Option (UadtResult × D) → Type 0
      Once d o =
          (p : UadtResult × D) × (o ≡ some p)
          × ((Ran d p × (is_again p.0 ≡ false))
              ⊎ ((q : UadtResult × D) × Ran d q
                  × (is_again q.0 ≡ true)
                  × Unlarged q p
                  × Same d p.1))

    module _ (v : Variant D T) (law : Retries v) (adt : Adt) (tb : T) (flags : ℕ) where
      Ran-trans :
          (a b : D) (p : UadtResult × D)
          → Same a b
          → Ran v adt tb flags b p
          → Ran v adt tb flags a p
      Ran-trans a b p s (n, retried, d₁, valid, s', e) =
          (n, retried, d₁, valid, law.same_trans a b d₁ s s', e)

      Once-trans :
          (a b : D) (o : Option (UadtResult × D))
          → Same a b
          → Once v adt tb flags b o
          → Once v adt tb flags a o
      Once-trans a b o s (p, e, inl (ran, over)) = (p, e, inl (Ran-trans a b p s ran, over))
      Once-trans a b o s (p, e, inr (q, ran, asked, un, s')) =
          (p, e, inr (q, Ran-trans a b q s ran, asked, un, law.same_trans a b p.1 s s'))

      -- a call `q` on `d₀` that asked to be repeated
      module _ (d₀ : D) (q : UadtResult × D) (same : Same d₀ q.1) (ran : Ran v adt tb flags d₀ q)
          (asked : is_again q.0 ≡ true) (more : D → Option (UadtResult × D))
          (again : (d' : D)
            → Valid d'
            → left d' < left q.1
            → Once v adt tb flags d' (more d')) where
        resized-Once :
            (resize : ℕ → D → Option (Status × D)) (n : ℕ)
            → v.resize ≡ some resize
            → (r : Status) (d' : D) → resize n q.1 ≡ some (r, d')
            → Resizing Valid left q.1 (r, d')
            → Same q.1 d'
            → Once v adt tb flags d₀ (resized v more (some (r, d')))
        resized-Once resize n has Status.ok d' e (valid, less) s =
            Once-trans d₀ d' (more d') (law.same_trans d₀ q.1 d' same s) (again d' valid less)
        resized-Once resize n has (Status.err x) d' e h s = (
          _,
          refl,
          inr (
            q,
            ran,
            asked,
            inr (resize, n, Status.err x, has, e, refl, refl),
            law.same_trans d₀ q.1 d' same s,
          ),
        )
        resized-Once resize n has (Status.fault f) d' e h s = (
          _,
          refl,
          inr (
            q,
            ran,
            asked,
            inr (resize, n, Status.fault f, has, e, refl, refl),
            law.same_trans d₀ q.1 d' same s,
          ),
        )

        resize-Once :
            (round : ℕ)
            → Valid q.1
            → (o : Option (ℕ → D → Option (Status × D))) → v.resize ≡ o
            → ResizeEnds Valid left o
            → ResizeKeeps o
            → Once v adt tb flags d₀
                (elim o [ none ↦ some q | some resize ↦ resized v more (resize round q.1) ])
        resize-Once round valid none has ends keeps =
            (q, refl, inr (q, ran, asked, inl (has, refl), same))
        resize-Once round valid (some resize) has ends keeps =
            let (p, e, resizing) = ends round q.1 valid in
            subst (λ o. Once v adt tb flags d₀ (resized v more o)) (sym e)
              (resized-Once resize round has p.0 p.1 e resizing (keeps round q.1 p valid e))

      -- The loop of `call_ad` returns, with fuel for each resize that is possible; and what it returns
      -- is what one call of `uadt`, which does not ask to be repeated, returns on a set that is the
      -- same but for resizes; or such a call asked to be repeated, and the result is the error of the
      -- resize that it asked for, or its own if there is no resize, and the set is the same.
      pub ad_loop-Once :
          (fuel round : ℕ) (d : D)
          → Valid d
          → left d < fuel
          → Once v adt tb flags d (ad_loop v fuel round adt tb flags d)
      unfolding ad_loop
      ad_loop-Once zero round d valid few = absurd (omega arith)
      ad_loop-Once (suc fuel) round d valid few =
          go (v.uadt round adt tb flags (not (round == 0)) d) refl
            (law.progress.uadt-Called round adt tb flags (not (round == 0)) d valid)
            (law.uadt-Again round adt tb flags (not (round == 0)) d valid)
            (λ d₁ valid₁ few₁. ad_loop-Once fuel (suc round) d₁ valid₁ few₁)
        where
          more : D → Option (UadtResult × D)
          more = ad_loop v fuel (suc round) adt tb flags

          here :
              (r : UadtResult) (d' : D)
              → v.uadt round adt tb flags (not (round == 0)) d ≡ (r, d')
              → Ran v adt tb flags d (r, d')
          here r d' e = (round, not (round == 0), d, valid, law.same_refl d, e)

          unfaulted :
              (r : UadtResult) (d' : D)
              → is_again r ≡ true
              → Called Valid left d (r, d')
              → Valid d' × (left d' ≤ left d)
          unfaulted (done (Status.fault f)) d' e called = cc
          unfaulted (done Status.ok) d' e called = cc
          unfaulted (tested b) d' e called = cc
          unfaulted (done (Status.err x)) d' e (inl f) = absurd f
          unfaulted (done (Status.err x)) d' e (inr h) = h

          go :
              (p : UadtResult × D)
              → v.uadt round adt tb flags (not (round == 0)) d ≡ p
              → Called Valid left d p
              → Again d p
              → ((d' : D) → Valid d' → left d' < fuel → Once v adt tb flags d' (more d'))
              → Once v adt tb flags d (after_call v more round p.0 p.1)
          go (r, d') e called keeps again =
              if_cases (Once v adt tb flags d) (is_again r)
                (λ h.
                  let (valid', fewer) = unfaulted r d' h called in
                  resize-Once d (r, d') (keeps h) (here r d' e) h more
                    (λ d₁ valid₁ less. again d₁ valid₁ (omega arith)) round valid' v.resize refl
                    law.progress.resize-Ends law.resize-Keeps)
                (λ over. ((r, d'), refl, inl (here r d' e, over)))
