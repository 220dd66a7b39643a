-- ===== src/Hash/LookupLaws.antt =====
-- `mtype_test`: an element matches exactly if it is live and its counters pass, and a test changes
-- nothing but the counters of the element that it matched.
use mathlib.Core.Path.{subst}
use dset.Ext.Match.{match_extensions, counters_pass, update_counter}
use dset.Ext.{Ext, ElemExt, Extensions}
use dset.Hash.Defs.{MType, Slot, HBucket, HSet, bucket_at}
use dset.Hash.Lookup.{Tested, test_slots, test_at, test}
use dset.Hash.SlotLaws.{find_live-eq-none}
use dset.Hash.TableLaws.{home-lt, total-set, set-IsValid, live-replaced}
use dset.Hash.View.{slots_of, slots_at, used_count, Fits, count, home, IsValid, find_live, live}
use dset.Kernel.{Kernel}
use dset.Prelude.{
  ℕ, ◌≤◌, ◌≡◌, refl, sym, ap, ◌∙◌, Bool, false, not, ◌&&◌, Option, none, some, List, [], ◌∷◌,
  if◌then◌else◌, length, arith,
}

module _ {E : Type 0} (m : MType E) (k : Kernel) (d : E) (ext mext : Ext) (flags : ℕ) where
  -- does an element with these extensions match
  abbrev pub passes : Extensions → Option ElemExt → Bool
  passes exts none = false
  passes exts (some e) = not (exts.with_counter && not (counters_pass e.counter mext flags))

  -- the extensions after a test that matched, or did not
  abbrev pub touch : Extensions → Bool → Option ElemExt → Option ElemExt
  touch exts matched none = none
  touch exts matched (some e) =
      if matched && exts.with_counter
      then some (record e { counter = update_counter e.counter ext flags })
      else some e

  module _ (exts : Extensions) where
    abbrev run : List (Slot E) → Tested (List (Slot E))
    run xs = test_slots m k exts d ext mext flags xs

    run-absent :
        (xs : List (Slot E)) → count m d xs ≡ 0 → ((run xs).matched ≡ false) × ((run xs).after ≡ xs)
    unfolding test_slots count
    run-absent [] h = (refl, refl)
    run-absent (x ∷ xs) h = ground (arith, run-absent xs)

    matched-run :
        (xs : List (Slot E))
        → count m d xs ≤ 1
        → (run xs).matched ≡ passes exts (find_live m k exts d xs)
    unfolding test_slots count find_live match_extensions
    matched-run [] h = refl
    matched-run (x ∷ xs) h =
        ground (arith, matched-run xs, run-absent xs, find_live-eq-none m k exts d xs)

    length-run : (xs : List (Slot E)) → length (run xs).after ≡ length xs
    unfolding test_slots match_extensions
    length-run [] = refl
    length-run (x ∷ xs) = ground (arith, length-run xs)

    used_count-run : (xs : List (Slot E)) → used_count (run xs).after ≡ used_count xs
    unfolding test_slots used_count match_extensions
    used_count-run [] = refl
    used_count-run (x ∷ xs) = ground (arith, used_count-run xs)

    count-run : (q : E) (xs : List (Slot E)) → count m q (run xs).after ≡ count m q xs
    unfolding test_slots count match_extensions
    count-run q [] = refl
    count-run q (x ∷ xs) = ground (arith, count-run q xs)

    find_live-run_other :
        (q : E) (xs : List (Slot E))
        → m.data_equal q d ≡ false
        → find_live m k exts q (run xs).after ≡ find_live m k exts q xs
    unfolding test_slots find_live match_extensions
    find_live-run_other q [] n = refl
    find_live-run_other q (x ∷ xs) n = ground (
      arith,
      find_live-run_other q xs n,
      m.data_equal_iff x.elem d,
      m.data_equal_iff x.elem q,
      m.data_equal_iff q d,
    )

    find_live-run_self :
        (xs : List (Slot E))
        → count m d xs ≤ 1
        → find_live m k exts d (run xs).after
          ≡ touch exts (run xs).matched (find_live m k exts d xs)
    unfolding test_slots count find_live match_extensions
    find_live-run_self [] h = refl
    find_live-run_self (x ∷ xs) h =
        ground (arith, find_live-run_self xs, run-absent xs, find_live-eq-none m k exts d xs)

  module _ {s : HSet E} (valid : IsValid m s) where
    -- what a test does to the set
    pub record Testing (r : Tested (HSet E)) : Type 0 where
      pub matched : r.matched ≡ passes s.exts (live m k s d)
      pub valid_after : IsValid m r.after
      pub others : (q : E) → m.data_equal q d ≡ false → live m k r.after q ≡ live m k s q
      pub self : live m k r.after d ≡ touch s.exts r.matched (live m k s d)

    test_some-Testing :
        (n : HBucket E)
        → bucket_at s.buckets (home m s d) ≡ some n
        → Testing (test_at m k s (home m s d) d ext mext flags (some n))
    unfolding test_at live
    test_some-Testing n is_home =
        let r = run s.exts n.slots in
        let b : Option (HBucket E) = some (record n { slots = r.after }) in
        let once : count m d n.slots ≤ 1 =
          subst (λ c. count m d (slots_of c) ≤ 1) is_home (valid.placed d (home m s d)).0 in
        let fits = subst Fits is_home (valid.fits (home m s d)) in
        let read : (q : E)
            → find_live m k s.exts q (slots_at s.buckets (home m s d))
              ≡ find_live m k s.exts q n.slots =
          λ q. ap (λ c. find_live m k s.exts q (slots_of c)) is_home in
        let same : (q : E) → count m q r.after ≡ count m q (slots_at s.buckets (home m s d)) =
          λ q. count-run s.exts q n.slots ∙ ap (λ c. count m q (slots_of c)) (sym is_home) in
        record {
          matched = matched-run s.exts n.slots once ∙ ap (passes s.exts) (sym (read d));
          valid_after =
              set-IsValid m valid d b s.elements s.ext_size
                (omega (arith, length-run s.exts n.slots, fits.0), fits.1, fits.2)
                (λ q. omega (arith, same q, (valid.placed q (home m s d)).0))
                (λ q far. same q ∙ (valid.placed q (home m s d)).1 far)
                (omega (
                  arith,
                  valid.counted,
                  total-set s.buckets (home m s d) b (home-lt m s d valid.width),
                  used_count-run s.exts n.slots,
                  ap (λ c. used_count (slots_of c)) is_home,
                ));
          others = λ q n'.
              live-replaced m valid d b s.elements s.ext_size k q (live m k s q)
                (λ near.
                  find_live-run_other s.exts q n.slots n'
                  ∙ sym (read q)
                  ∙ ap (λ j. find_live m k s.exts q (slots_at s.buckets j)) (sym near))
                (λ _. refl);
          self =
              live-replaced m valid d b s.elements s.ext_size k d _
                (λ _.
                  find_live-run_self s.exts n.slots once
                  ∙ ap (touch s.exts r.matched) (sym (read d)))
                (λ far. absurd (far refl));
        }

    test_at-Testing :
        (b : Option (HBucket E))
        → bucket_at s.buckets (home m s d) ≡ b
        → Testing (test_at m k s (home m s d) d ext mext flags b)
    test_at-Testing none is_home =
        let empty : live m k s d ≡ none =
          unfold live find_live in ap (λ b. find_live m k s.exts d (slots_of b)) is_home in
        unfold test_at in
        record {
          matched = ap (passes s.exts) (sym empty);
          valid_after = valid;
          others = λ q n. refl;
          self = rw empty;
        }
    test_at-Testing (some n) is_home = test_some-Testing n is_home

    -- On a table that satisfies the invariant, a test matches exactly if the element is live and its
    -- counters pass. It keeps the invariant and every other live element, and of the element that
    -- it matched it changes the counters alone.
    pub test-Testing : Testing (test m k s d ext mext flags)
    unfolding test
    test-Testing = test_at-Testing _ refl
