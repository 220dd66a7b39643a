-- ===== src/Domain/KadtLaws.antt =====
-- A packet is tested against the set by the name and its parent domains: what the loop of
-- `hash_domain_kadt` over the dots finds.
use mathlib.Core.Path.{subst}
use dset.Domain.BufferLaws.{
  IsText, cstr-strncpy, drop-IsText, drop-append_le, length-drop, get_or-end, dot_within,
}
use dset.Domain.Kadt.{test_buffer, test_parents}
use dset.Domain.Text.{strncpy, domain_type}
use dset.Ext.{Ext, Extensions}
use dset.Hash.Defs.{MType, Slot, HBucket, HSet, hkey, bucket_at}
use dset.Hash.Lookup.{Tested, test_slots, test_at, test}
use dset.Hash.LookupLaws.{passes, touch, test-Testing}
use dset.Hash.View.{IsValid, live}
use dset.Kernel.{Kernel}
use dset.Prelude.{
  cstr, ℕ, zero, suc, ◌+◌, ◌-◌, ◌≤◌, ◌<◌, ◌≡◌, refl, sym, ap, ◌∙◌, Bool, true, false, ◌||◌, ◌==◌,
  Option, none, some, List, [], ◌∷◌, ◌++◌, if◌then◌else◌, length, length-append, drop, get_or,
  if_cases, Bool-cases, inl, inr, arith,
}

module _ {E : Type 0} (m : MType E) (k : Kernel) (d : E) (ext mext : Ext) (flags : ℕ) where
  test_slots-mext :
      (exts : Extensions) (xs : List (Slot E))
      → (test_slots m k exts d ext mext flags xs).matched ≡ false
      → (test_slots m k exts d ext mext flags xs).mext ≡ mext
  unfolding test_slots
  test_slots-mext exts [] h = refl
  test_slots-mext exts (x ∷ xs) h = ground (arith, test_slots-mext exts xs)

  test_at-exts :
      (s : HSet E) (key : ℕ) (b : Option (HBucket E))
      → (test_at m k s key d ext mext flags b).after.exts ≡ s.exts
  unfolding test_at
  test_at-exts s key none = refl
  test_at-exts s key (some n) = refl

  test_at-mext :
      (s : HSet E) (key : ℕ) (b : Option (HBucket E))
      → (test_at m k s key d ext mext flags b).matched ≡ false
      → (test_at m k s key d ext mext flags b).mext ≡ mext
  unfolding test_at
  test_at-mext s key none h = refl
  test_at-mext s key (some n) h = test_slots-mext s.exts n.slots h

  pub test-exts : (s : HSet E) → (test m k s d ext mext flags).after.exts ≡ s.exts
  unfolding test
  test-exts s = test_at-exts s _ _

  pub test-mext :
      (s : HSet E)
      → (test m k s d ext mext flags).matched ≡ false
      → (test m k s d ext mext flags).mext ≡ mext
  unfolding test
  test-mext s h =
      test_at-mext s (hkey m d s.initval s.htable_bits)
        (bucket_at s.buckets (hkey m d s.initval s.htable_bits)) h

  touch_unmatched :
      (exts : Extensions) (matched : Bool) (o : Option _)
      → matched ≡ false
      → touch m k d ext mext flags exts matched o ≡ o
  touch_unmatched exts matched none h = refl
  touch_unmatched exts matched (some e) h = rw h refl

  -- a test that does not match changes no live element
  live-test :
      {s : HSet E} (valid : IsValid m s)
      → (test m k s d ext mext flags).matched ≡ false
      → (q : E) → live m k (test m k s d ext mext flags).after q ≡ live m k s q
  live-test {s} valid h q =
      let t = test-Testing m k d ext mext flags valid in
      elim (Bool-cases (m.data_equal q d)) [
        | inl e ↦
            let same = (m.data_equal_iff q d).0 e in
            ap (live m k (test m k s d ext mext flags).after) same
            ∙ t.self
            ∙ touch_unmatched s.exts _ (live m k s d) h
            ∙ ap (live m k s) (sym same)
        | inr n ↦ t.others q n
      ]

-- the texts that are tested from position `i - 1` down: what stands behind each dot, then the
-- whole
unfoldable pub parents_below : List ℕ → ℕ → List (List ℕ)
parents_below u zero = u ∷ []
parents_below u (suc i) =
    let rest = parents_below u i in if get_or u i 0 == b'.' then drop (i + 1) u ∷ rest else rest

module _ (jhash2 : List ℕ → ℕ → ℕ) (k : Kernel) (ext : Ext) (flags : ℕ) where
  -- does one of the texts pass in the set
  unfoldable pub any_passes : HSet (List ℕ) → Ext → List (List ℕ) → Bool
  any_passes s mext [] = false
  any_passes s mext (q ∷ qs) =
      passes (domain_type jhash2) k q ext mext flags s.exts (live (domain_type jhash2) k s q)
      || any_passes s mext qs

  any_passes-congr :
      (s s' : HSet (List ℕ)) (mext : Ext) (qs : List (List ℕ))
      → s'.exts ≡ s.exts
      → ((q : List ℕ) → live (domain_type jhash2) k s' q ≡ live (domain_type jhash2) k s q)
      → any_passes s' mext qs ≡ any_passes s mext qs
  unfolding any_passes
  any_passes-congr s s' mext [] e h = refl
  any_passes-congr s s' mext (q ∷ qs) e h =
      let m = domain_type jhash2 in
      let here =
        ap (λ x. passes m k q ext mext flags x (live m k s' q)) e
        ∙ ap (passes m k q ext mext flags s.exts) (h q) in
      ap (λ b. b || any_passes s' mext qs) here
      ∙ ap (◌||◌ (passes m k q ext mext flags s.exts (live m k s q)))
          (any_passes-congr s s' mext qs e h)

  test_buffer-test :
      (s : HSet (List ℕ)) (mext : Ext) (buffer q : List ℕ)
      → cstr buffer ≡ q
      → test_buffer jhash2 k ext flags s mext buffer
        ≡ test (domain_type jhash2) k s q ext mext flags
  unfolding test_buffer
  test_buffer-test s mext buffer q e = ap (λ x. test (domain_type jhash2) k s x ext mext flags) e

  -- the loop goes on while a test does not match
  go_on :
      (t next : Tested (HSet (List ℕ))) (b c : Bool)
      → t.matched ≡ b
      → (t.matched ≡ false → next.matched ≡ c)
      → (if t.matched then t else next).matched ≡ (b || c)
  go_on t next b c e h =
      if_cases (λ (r : Tested (HSet (List ℕ))). r.matched ≡ (b || c)) t.matched (λ g. ground arith)
        (λ g. ground (arith, h g))

  choose :
      (c : Bool) (s : HSet (List ℕ)) (mext : Ext) (x y : Tested (HSet (List ℕ)))
      (xs ys : List (List ℕ))
      → (c ≡ true → x.matched ≡ any_passes s mext xs)
      → (c ≡ false → y.matched ≡ any_passes s mext ys)
      → (if c then x else y).matched ≡ any_passes s mext (if c then xs else ys)
  choose true s mext x y xs ys h g = h refl
  choose false s mext x y xs ys h g = g refl

  pub matched-test_parents :
      (u : List ℕ)
      → IsText u
      → (i : ℕ) → i ≤ length u + 1
      → (buffer : List ℕ) {s : HSet (List ℕ)} (mext : Ext) → IsValid (domain_type jhash2) s
      → (test_parents jhash2 k ext flags (u ++ 0 ∷ []) i buffer s mext).matched
        ≡ any_passes s mext (parents_below u i)
  unfolding test_parents any_passes parents_below
  matched-test_parents u text zero le buffer {s} mext valid =
      let copied = cstr-strncpy buffer u (length (u ++ 0 ∷ [])) text (length-append u (0 ∷ [])) in
      let t = test-Testing (domain_type jhash2) k u ext mext flags valid in
      ap (λ r. r.matched)
        (test_buffer-test s mext (strncpy buffer (u ++ 0 ∷ []) (length (u ++ 0 ∷ []))) u copied)
      ∙ t.matched
      ∙ or_false _
    where
      or_false : (b : Bool) → b ≡ (b || false)
      or_false true = refl
      or_false false = refl
  matched-test_parents u text (suc i) le buffer {s} mext valid = rw (get_or-end u i) (
      choose (get_or u i 0 == b'.') s mext _ _ _ _
        (λ dot.
          let m = domain_type jhash2 in
          let within : i < length u = dot_within u i dot in
          let q = drop (i + 1) u in
          let n = length (u ++ 0 ∷ []) - i - 1 in
          let buffer' = strncpy buffer (drop (i + 1) (u ++ 0 ∷ [])) n in
          let copied : cstr buffer' ≡ q =
            ap (λ src. cstr (strncpy buffer src n)) (drop-append_le (i + 1) u (omega arith))
            ∙ cstr-strncpy buffer q n (drop-IsText (i + 1) u text)
                (omega (arith, length-append u (0 ∷ []), length-drop (i + 1) u (omega arith))) in
          let r = test m k s q ext mext flags in
          let t = test-Testing m k q ext mext flags valid in
          subst
            (λ (t : Tested (HSet (List ℕ))).
              (if t.matched
                then t
                else test_parents jhash2 k ext flags (u ++ 0 ∷ []) i buffer' t.after t.mext).matched
              ≡ any_passes s mext (q ∷ parents_below u i))
            (sym (test_buffer-test s mext buffer' q copied))
            (go_on r _ _ _ t.matched (λ no.
              matched-test_parents u text i (omega arith) buffer' r.mext t.valid_after
              ∙ ap (λ x. any_passes r.after x (parents_below u i))
                  (test-mext m k q ext mext flags s no)
              ∙ any_passes-congr s r.after mext (parents_below u i)
                  (test-exts m k q ext mext flags s) (live-test m k q ext mext flags valid no))))
        (λ _. matched-test_parents u text i (omega arith) buffer mext valid))
