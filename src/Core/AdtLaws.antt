-- ===== src/Core/AdtLaws.antt =====
-- The commands on elements end, and change only the content of the set they name
-- (kernel/net/netfilter/dset/domain_set_core.c), if the type's functions keep to what is asked here.
use dset.Core.AdtCommands.{
  Sent, Variant, Reply, resized, is_again, after_call, ad_loop, ad_end, call_ad, Nested, Payload,
  single, batch, Answered, refusal, answered, is_failed, ad_element, and_sent, go_on, ad_batch,
  ad_payload,
}
use dset.Core.Types.{SetType}
use dset.Domain.Kadt.{Adt}
use dset.Domain.Uadt.{UadtResult, done, tested}
use dset.Prelude.{
  ℕ, zero, suc, ◌≤◌, ◌<◌, ◌≡◌, ◌⊎◌, inl, inr, refl, sym, Bool, true, false, not, ◌||◌, Option, none,
  some, List, [], ◌∷◌, if_cases, ◌==◌, arith,
}
use dset.Uapi.{Errno, Status, ok, has_flag, flag_exist_bit}
use mathlib.Core.Path.{subst}

-- what is undefined happened
abbrev pub IsFault : UadtResult → Type 0
IsFault (done (Status.fault f)) = Unit {0}
IsFault r = ⊥

module _ {D : Type 0} (Valid : D → Type 0) (left : D → ℕ) where
  -- a call leaves valid data, with no more left to grow
  abbrev pub Called : D → UadtResult × D → Type 0
  Called d (r, d') = IsFault r ⊎ (Valid d' × (left d' ≤ left d))

  -- and a resize ends: with less left to grow, or with an error
  abbrev pub Resizing : D → Status × D → Type 0
  Resizing d (Status.ok, d') = Valid d' × (left d' < left d)
  Resizing d (Status.err e, d') = Valid d'
  Resizing d (Status.fault f, d') = Unit {0}

  abbrev pub ResizeEnds : Option (ℕ → D → Option (Status × D)) → Type 0
  ResizeEnds none = Unit {0}
  ResizeEnds (some resize) =
      (n : ℕ) (d : D) → Valid d → (r : Status × D) × (resize n d ≡ some r) × Resizing d r

  -- a result, and data that are valid but for a fault
  abbrev pub Ended : UadtResult × D → Type 0
  Ended (r, d) = IsFault r ⊎ Valid d

  abbrev pub Ends : Option (UadtResult × D) → Type 0
  Ends o = (p : UadtResult × D) × (o ≡ some p) × Ended p

  abbrev pub EndsSent : Option ((UadtResult × Sent) × D) → Type 0
  EndsSent o = (p : (UadtResult × Sent) × D) × (o ≡ some p) × Ended (p.0.0, p.1)

  -- the same of an answer
  abbrev pub Answers : Option (Answered D) → Type 0
  Answers o = (r : Answered D) × (o ≡ some r) × Ended (r.result, r.after)

  module _ {T : Type 0} where
    -- what the commands ask of the functions of a type
    pub record Progress (v : Variant D T) : Type 0 where
      pub uadt-Called :
          (n : ℕ) (adt : Adt) (tb : T) (flags : ℕ) (retried : Bool) (d : D)
          → Valid d
          → Called d (v.uadt n adt tb flags retried d)
      pub resize-Ends : ResizeEnds v.resize

    module _ (v : Variant D T) (law : Progress v) where
      resized-Ends :
          (fuel : ℕ) (d : D) (more : D → Option (UadtResult × D))
          → left d < suc fuel
          → ((d' : D) → Valid d' → left d' < fuel → Ends (more d'))
          → (r : Status × D) → Resizing d r
          → Ends (resized v more (some r))
      resized-Ends fuel d more few again (Status.ok, d') (valid, less) =
          again d' valid (omega arith)
      resized-Ends fuel d more few again (Status.err e, d') valid = (_, refl, inr valid)
      resized-Ends fuel d more few again (Status.fault f, d') t = (_, refl, inl tt)

      -- a call that asks to be repeated is one with valid data
      eagain-Ends :
          (fuel : ℕ) (round : ℕ) (r : UadtResult) (d : D) (more : D → Option (UadtResult × D))
          → Valid d
          → left d < suc fuel
          → ((d' : D) → Valid d' → left d' < fuel → Ends (more d'))
          → Ends
              (elim v.resize [ none ↦ some (r, d) | some resize ↦ resized v more (resize round d) ])
      eagain-Ends fuel round r d more valid few again = go v.resize law.resize-Ends
        where
          go :
              (o : Option (ℕ → D → Option (Status × D)))
              → ResizeEnds o
              → Ends (elim o [ none ↦ some (r, d) | some resize ↦ resized v more (resize round d) ])
          go none h = (_, refl, inr valid)
          go (some resize) h =
              let (p, e, ends) = h round d valid in
              subst (λ o. Ends (resized v more o)) (sym e)
                (resized-Ends fuel d more few again p ends)

      ad_loop-Ends :
          (fuel round : ℕ) (adt : Adt) (tb : T) (flags : ℕ) (d : D)
          → Valid d
          → left d < fuel
          → Ends (ad_loop v fuel round adt tb flags d)
      unfolding ad_loop
      ad_loop-Ends zero round adt tb flags d valid few = absurd (omega arith)
      ad_loop-Ends (suc fuel) round adt tb flags d valid few =
          go (v.uadt round adt tb flags (not (round == 0)) d)
            (law.uadt-Called round adt tb flags (not (round == 0)) d valid)
            (λ d₁ valid₁ few₁. ad_loop-Ends fuel (suc round) adt tb flags d₁ valid₁ few₁)
        where
          more : D → Option (UadtResult × D)
          more = ad_loop v fuel (suc round) adt tb flags

          unfaulted :
              (r : UadtResult) (d' : D)
              → is_again r ≡ true
              → Called d (r, d')
              → Valid d' × (left d' ≤ left d)
          unfaulted (done (Status.fault f)) d' e called = cc
          unfaulted (done Status.ok) d' e called = cc
          unfaulted (tested b) d' e called = cc
          unfaulted (done (Status.err x)) d' e (inl f) = absurd f
          unfaulted (done (Status.err x)) d' e (inr h) = h

          over : (r : UadtResult) (d' : D) → Called d (r, d') → Ended (r, d')
          over r d' (inl f) = inl f
          over r d' (inr h) = inr h.0

          go :
              (p : UadtResult × D)
              → Called d p
              → ((d' : D) → Valid d' → left d' < fuel → Ends (more d'))
              → Ends (after_call v more round p.0 p.1)
          go (r, d') called again_ends =
              if_cases Ends (is_again r)
                (λ again.
                  let (valid', fewer) = unfaulted r d' again called in
                  eagain-Ends fuel round r d' more valid' (omega arith) again_ends)
                (λ _. ((r, d'), refl, over r d' called))

      sent-Ended :
          (reply : Reply) (eexist : Bool) (lineno : Option ℕ) (use_lineno : Bool) (r : UadtResult)
          (d : D)
          → Ended (r, d)
          → Ended ((ad_end v reply eexist lineno use_lineno r).0, d)
      unfolding ad_end
      sent-Ended reply eexist lineno use_lineno r d (inr valid) = inr valid
      sent-Ended reply eexist lineno use_lineno (done (Status.fault f)) d (inl t) = inl tt
      sent-Ended reply eexist lineno use_lineno (done Status.ok) d (inl t) = absurd t
      sent-Ended reply eexist lineno use_lineno (done (Status.err e)) d (inl t) = absurd t
      sent-Ended reply eexist lineno use_lineno (tested b) d (inl t) = absurd t

      call_ad-Ends :
          (fuel : ℕ) (reply : Reply) (adt : Adt) (tb : T) (flags : ℕ) (use_lineno : Bool) (d : D)
          → Valid d
          → left d < fuel
          → EndsSent (call_ad v fuel reply adt tb flags use_lineno d)
      unfolding call_ad
      call_ad-Ends fuel reply adt tb flags use_lineno d valid few =
          let ((r, d'), e, ended) = ad_loop-Ends fuel 0 adt tb flags d valid few in
          subst
            (λ o. EndsSent (elim o [
              | none ↦ none
              | some (r, d') ↦
                  some
                    (ad_end v reply (has_flag flags flag_exist_bit) (v.lineno tb) use_lineno r, d')
            ]))
            (sym e) (_, refl, sent-Ended reply _ (v.lineno tb) use_lineno r d' ended)

    module _ (fuel : ℕ) (variants : ℕ → Variant D T) (replies : ℕ → Reply)
        (laws : (n : ℕ) → Progress (variants n)) (bounded : (d : D) → Valid d → left d < fuel) where
      ad_element-Answers :
          (n : ℕ) (kind : SetType) (adt : Adt) (flags : ℕ) (use_lineno : Bool) (a : Nested T)
          (d : D)
          → Valid d
          → Answers (ad_element fuel variants replies n kind adt flags use_lineno a d)
      unfolding ad_element
      ad_element-Answers n kind adt flags use_lineno a d valid = go (a.parsed kind)
        where
          call : T → Option ((UadtResult × Sent) × D)
          call tb = call_ad (variants n) fuel (replies n) adt tb flags use_lineno d

          go :
              (o : Option T)
              → Answers (elim o [
                | none ↦ some (refusal Errno.protocol d)
                | some tb ↦ answered fuel variants replies (call tb)
              ])
          go none = (_, refl, inr valid)
          go (some tb) =
              let (((r, m), d'), e, ended) =
                call_ad-Ends (variants n) (laws n) fuel (replies n) adt tb flags use_lineno d valid
                  (bounded d valid) in
              subst (λ o. Answers (answered fuel variants replies o)) (sym e) (_, refl, ended)

      after-Valid :
          (r : Answered D) → Ended (r.result, r.after) → is_failed r.result ≡ false → Valid r.after
      after-Valid r (inr valid) e = valid
      after-Valid r (inl f) e = absurd (not_fault r.result f e)
        where
          not_fault : (x : UadtResult) → IsFault x → is_failed x ≡ false → ⊥
          not_fault (done (Status.fault f)) t e = cc
          not_fault (done Status.ok) t e = t
          not_fault (done (Status.err x)) t e = t
          not_fault (tested b) t e = t

      ad_batch-Answers :
          (n : ℕ) (kind : SetType) (adt : Adt) (flags : ℕ) (use_lineno : Bool) (last : UadtResult)
          (ns : List (Nested T)) (d : D)
          → Valid d
          → Answers (ad_batch fuel variants replies n kind adt flags use_lineno last ns d)
      unfolding ad_batch
      ad_batch-Answers n kind adt flags use_lineno last [] d valid = (_, refl, inr valid)
      ad_batch-Answers n kind adt flags use_lineno last (a ∷ rest) d valid =
          if_cases Answers (not a.is_data || not a.nested) (λ _. (_, refl, inr valid))
            (λ _.
              go (ad_element-Answers n kind adt flags use_lineno a d valid) (λ r d' valid'.
                ad_batch-Answers (suc n) kind adt flags use_lineno r rest d' valid'))
        where
          later : UadtResult → D → Option (Answered D)
          later r = ad_batch fuel variants replies (suc n) kind adt flags use_lineno r rest

          sent_too :
              (ms : List (UadtResult × ℕ)) (o : Option (Answered D))
              → Answers o
              → Answers (and_sent fuel variants replies ms o)
          sent_too ms o (r, e, ended) =
              subst (λ o. Answers (and_sent fuel variants replies ms o)) (sym e) (_, refl, ended)

          go :
              Answers (ad_element fuel variants replies n kind adt flags use_lineno a d)
              → ((r : UadtResult) (d' : D) → Valid d' → Answers (later r d'))
              → Answers (elim (ad_element fuel variants replies n kind adt flags use_lineno a d) [
                | none ↦ none
                | some r ↦ go_on fuel variants replies (later r.result) (some r)
              ])
          go (r, e, ended) again =
              subst
                (λ o. Answers (elim o [
                  | none ↦ none
                  | some r ↦ go_on fuel variants replies (later r.result) (some r)
                ]))
                (sym e)
                (if_cases Answers (is_failed r.result) (λ _. (r, refl, ended))
                  (λ fine. sent_too r.sent _ (again r.result r.after (after-Valid r ended fine))))

      pub ad_payload-Answers :
          (kind : SetType) (adt : Adt) (flags : ℕ) (use_lineno : Bool) (p : Payload T) (d : D)
          → Valid d
          → Answers (ad_payload fuel variants replies kind adt flags use_lineno p d)
      unfolding ad_payload
      ad_payload-Answers kind adt flags use_lineno (single a) d valid =
          ad_element-Answers 0 kind adt flags use_lineno a d valid
      ad_payload-Answers kind adt flags use_lineno (batch ns) d valid =
          ad_batch-Answers 0 kind adt flags use_lineno (done ok) ns d valid
