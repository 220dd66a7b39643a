-- ===== src/Hash/CopyLaws.antt =====
-- The copying loop of `mtype_resize`: what each bucket of the new table holds afterwards.
use native.Mathlib.Nat.{mod-lt}
use dset.Ext.{ElemExt, zero_ext}
use dset.Hash.Defs.{MType, Slot, HBucket, ahash_init_size, ahash_max, hkey, bucket_at}
use dset.Hash.Resize.{
  Copied, copied, stopped, push_slot, fresh_bucket, copy_to, copy_slot, copy_slots, copy_buckets,
}
use dset.Hash.SlotLaws.{used_count-append, used_count_one}
use dset.Hash.Slots.{enlarge}
use dset.Hash.TableLaws.{pow2_pos, total-set, at-set}
use dset.Hash.View.{slots_of, slots_at, used_count, total, Fits}
use dset.Kernel.{Kernel}
use dset.Prelude.{
  ℕ, ◌+◌, ◌-◌, ◌^◌, ◌<◌, ◌≡◌, ◌≢◌, refl, sym, ap, ◌∙◌, ◌⊎◌, inl, inr, Bool, true, false, Option,
  none, some, List, [], ◌∷◌, ◌++◌, if◌then◌else◌, leb, ◌==◌, length, length-set, length-append,
  length-replicate, drop, replicate, set, if_cases, arith, ◌&&◌, leb_false→lt,
}
use dset.Uapi.{Errno}
use mathlib.Core.List.{append-nil, append_assoc}
use mathlib.Core.Path.{subst}

-- the slots of all buckets, in the order of the loop
unfoldable pub all_slots : {E : Type 0} → List (Option (HBucket E)) → List (Slot E)
all_slots [] = []
all_slots (b ∷ bs) = slots_of b ++ all_slots bs

module _ {E : Type 0} (m : MType E) (initval : ℕ) where
  -- the used slots whose key is `i`, in order
  unfoldable pub homed : ℕ → ℕ → List (Slot E) → List (Slot E)
  homed bits i [] = []
  homed bits i (x ∷ xs) =
      let rest = homed bits i xs in
      if x.used && (hkey m x.elem initval bits == i) then x ∷ rest else rest

  homed-append :
      (bits i : ℕ) (xs ys : List (Slot E))
      → homed bits i (xs ++ ys) ≡ homed bits i xs ++ homed bits i ys
  unfolding homed
  homed-append bits i [] ys = refl
  homed-append bits i (x ∷ xs) ys = ground (arith, homed-append bits i xs ys)

-- a table after more positions were copied
module _ {E : Type 0} (m : MType E) (initval bits : ℕ) where
  pub record Copies (t : List (Option (HBucket E))) (xs : List (Slot E))
      (t' : List (Option (HBucket E))) : Type 0 where
    pub width : length t' ≡ length t
    pub fits : (i : ℕ) → Fits (bucket_at t' i)
    pub slots : (i : ℕ) → slots_at t' i ≡ slots_at t i ++ homed m initval bits i xs
    pub counted : total t' ≡ total t + used_count xs

  abbrev pub Good : List (Option (HBucket E)) → Type 0
  Good t = (length t ≡ 2 ^ bits) × ((i : ℕ) → Fits (bucket_at t i))

  -- what a part of the loop does to the table
  abbrev pub Copying : List (Option (HBucket E)) → List (Slot E) → Copied E → Type 0
  Copying t xs (copied t' extsize i) = Copies t xs t'
  Copying t xs (stopped e) = (e ≡ Errno.enomem) ⊎ (e ≡ Errno.eagain)

  Copies-refl : (t : List (Option (HBucket E))) → Good t → Copies t [] t
  unfolding homed used_count
  Copies-refl t (w, fits) = record {
    width = refl;
    fits = fits;
    slots = λ i. sym (append-nil (slots_at t i));
    counted = omega arith;
  }

  Copies-trans :
      (t t' t'' : List (Option (HBucket E))) (xs ys : List (Slot E))
      → Copies t xs t'
      → Copies t' ys t''
      → Copies t (xs ++ ys) t''
  Copies-trans t t' t'' xs ys c d = record {
    width = d.width ∙ c.width;
    fits = d.fits;
    slots = λ i.
        d.slots i
        ∙ ap (λ zs. zs ++ homed m initval bits i ys) (c.slots i)
        ∙ append_assoc (slots_at t i) (homed m initval bits i xs) (homed m initval bits i ys)
        ∙ ap (◌++◌ (slots_at t i)) (sym (homed-append m initval bits i xs ys));
    counted = omega (arith, c.counted, d.counted, used_count-append xs ys);
  }

  Copies-Good :
      (t t' : List (Option (HBucket E))) (xs : List (Slot E)) → Good t → Copies t xs t' → Good t'
  Copies-Good t t' xs (w, fits) c = (c.width ∙ w, c.fits)

  homed_here :
      (x : Slot E)
      → x.used ≡ true
      → homed m initval bits (hkey m x.elem initval bits) (x ∷ []) ≡ x ∷ []
  unfolding homed
  homed_here x h = ground arith

  homed_elsewhere :
      (x : Slot E) (i : ℕ) → hkey m x.elem initval bits ≢ i → homed m initval bits i (x ∷ []) ≡ []
  unfolding homed
  homed_elsewhere x i h = ground arith

  homed_unused : (x : Slot E) (i : ℕ) → x.used ≡ false → homed m initval bits i (x ∷ []) ≡ []
  unfolding homed
  homed_unused x i h = ground arith

  key-lt :
      (t : List (Option (HBucket E))) (x : Slot E)
      → length t ≡ 2 ^ bits
      → hkey m x.elem initval bits < length t
  unfolding hkey
  key-lt t x w = rw w (mod-lt (m.jhash x.elem initval) (pow2_pos bits))

  -- the new bucket of the element ends with it
  store-Copies :
      (t : List (Option (HBucket E))) (x : Slot E) (n : HBucket E)
      → Good t
      → x.used ≡ true
      → Fits (some n)
      → n.slots ≡ slots_at t (hkey m x.elem initval bits) ++ (x ∷ [])
      → Copies t (x ∷ []) (set t (hkey m x.elem initval bits) (some n))
  store-Copies t x n (w, fits) used fit ends =
      let key = hkey m x.elem initval bits in
      record {
        width = length-set t key (some n);
        fits = λ i. at-set (λ _ b. Fits b) t key i (some n) (key-lt t x w) fit (λ _. fits i);
        slots = λ i.
            at-set (λ j b. slots_of b ≡ slots_at t j ++ homed m initval bits j (x ∷ [])) t key i
              (some n) (key-lt t x w) (rw (homed_here x used) ends)
              (λ far. rw (homed_elsewhere x i far) (sym (append-nil (slots_at t i))));
        counted = omega (
          arith,
          total-set t key (some n) (key-lt t x w),
          ap used_count ends,
          used_count-append (slots_at t key) (x ∷ []),
        );
      }

  skip-Copies :
      (t : List (Option (HBucket E))) (x : Slot E) → Good t → x.used ≡ false → Copies t (x ∷ []) t
  skip-Copies t x (w, fits) unused = record {
    width = refl;
    fits = fits;
    slots = λ i. rw (homed_unused x i unused) (sym (append-nil (slots_at t i)));
    counted = ground (arith, used_count_one x);
  }

  module _ (k : Kernel) (dsize : ℕ) (alloc : ℕ → Bool) where
    push-Fits :
        (x : Slot E) (n : HBucket E)
        → Fits (some n)
        → length n.slots < n.size
        → Fits (some (push_slot x n))
    unfolding push_slot
    push-Fits x n (sum, small, whole) lt =
        (omega (arith, length-append n.slots (x ∷ []), length-drop n.spare), small, whole)
      where
        length-drop : (es : List ElemExt) → length (drop 1 es) ≡ length es - 1
        length-drop [] = omega arith
        length-drop (e ∷ es) = omega arith

    enlarge-lt :
        (n : HBucket E)
        → Fits (some n)
        → length n.slots < (enlarge n (n.spare ++ replicate ahash_init_size zero_ext)).size
    unfolding enlarge
    enlarge-lt n (sum, small, whole) = omega arith

    enlarge-Fits :
        (n : HBucket E)
        → leb ahash_max n.size ≡ false
        → Fits (some n)
        → Fits (some (enlarge n (n.spare ++ replicate ahash_init_size zero_ext)))
    unfolding enlarge
    enlarge-Fits n g (sum, small, whole) = (
      omega (
        arith,
        length-append n.spare (replicate ahash_init_size zero_ext),
        length-replicate {0} {A = ElemExt} ahash_init_size zero_ext,
      ),
      omega (arith, leb_false→lt _ _ g),
      omega arith,
    )

    copy_to-Copying :
        (t : List (Option (HBucket E))) (x : Slot E) (extsize i : ℕ) (b : Option (HBucket E))
        → Good t
        → x.used ≡ true
        → bucket_at t (hkey m x.elem initval bits) ≡ b
        → Copying t
            (x ∷ [])
            (copy_to m k dsize initval alloc (hkey m x.elem initval bits) x t extsize i b)
    unfolding copy_to push_slot replicate
    copy_to-Copying t x extsize i none good used is =
        if_cases (Copying t (x ∷ [])) (alloc i)
          (λ _.
            store-Copies t x (push_slot x fresh_bucket) good used (omega arith, omega arith, refl)
              (ap (λ b. slots_of b ++ (x ∷ [])) (sym is)))
          (λ _. inl refl)
    copy_to-Copying t x extsize i (some n) good used is =
        let fit = subst Fits is (good.1 (hkey m x.elem initval bits)) in
        let ends : n.slots ++ (x ∷ []) ≡ slots_at t (hkey m x.elem initval bits) ++ (x ∷ []) =
          ap (λ b. slots_of b ++ (x ∷ [])) (sym is) in
        if_cases (Copying t (x ∷ [])) (leb n.size (length n.slots))
          (λ _.
            if_cases (Copying t (x ∷ [])) (leb ahash_max n.size) (λ _. inr refl)
              (λ g.
                if_cases (Copying t (x ∷ [])) (alloc i)
                  (λ _.
                    let big = enlarge n (n.spare ++ replicate ahash_init_size zero_ext) in
                    store-Copies t x (push_slot x big) good used
                      (push-Fits x big (enlarge-Fits n g fit) (enlarge-lt n fit)) ends)
                  (λ _. inl refl)))
          (λ g.
            store-Copies t x (push_slot x n) good used (push-Fits x n fit (leb_false→lt _ _ g))
              ends)

    copy_slot-Copying :
        (x : Slot E) (t : List (Option (HBucket E))) (extsize i : ℕ)
        → Good t
        → Copying t (x ∷ []) (copy_slot m k dsize initval alloc bits x t extsize i)
    unfolding copy_slot
    copy_slot-Copying x t extsize i good =
        if_cases (Copying t (x ∷ [])) x.used
          (λ used. copy_to-Copying t x extsize i _ good used refl)
          (λ unused. skip-Copies t x good unused)

    -- the rest of a loop after a part of it
    Copying-then :
        (t : List (Option (HBucket E))) (xs ys : List (Slot E)) (f : Copied E → Copied E)
        → ((e : Errno) → f (stopped e) ≡ stopped e)
        → ((t' : List (Option (HBucket E))) (extsize i : ℕ)
            → Good t'
            → Copying t' ys (f (copied t' extsize i)))
        → Good t
        → (r : Copied E) → Copying t xs r
        → Copying t (xs ++ ys) (f r)
    Copying-then t xs ys f stays goes good (stopped e) h = rw (stays e) h
    Copying-then t xs ys f stays goes good (copied t' extsize i) h =
        after (f (copied t' extsize i)) (goes t' extsize i (Copies-Good t t' xs good h))
      where
        after : (r : Copied E) → Copying t' ys r → Copying t (xs ++ ys) r
        after (stopped e) g = g
        after (copied t'' extsize' i') g = Copies-trans t t' t'' xs ys h g

    copy_slots_stopped :
        (xs : List (Slot E)) (e : Errno)
        → copy_slots m k dsize initval alloc bits xs (stopped e) ≡ stopped e
    unfolding copy_slots
    copy_slots_stopped [] e = refl
    copy_slots_stopped (x ∷ xs) e = refl

    copy_slots-Copying :
        (xs : List (Slot E)) (t : List (Option (HBucket E))) (extsize i : ℕ)
        → Good t
        → Copying t xs (copy_slots m k dsize initval alloc bits xs (copied t extsize i))
    unfolding copy_slots
    copy_slots-Copying [] t extsize i good = Copies-refl t good
    copy_slots-Copying (x ∷ xs) t extsize i good =
        Copying-then t (x ∷ []) xs (copy_slots m k dsize initval alloc bits xs)
          (copy_slots_stopped xs) (λ t' extsize' i'. copy_slots-Copying xs t' extsize' i') good _
          (copy_slot-Copying x t extsize i good)

    copy_buckets_stopped :
        (bs : List (Option (HBucket E))) (e : Errno)
        → copy_buckets m k dsize initval alloc bits bs (stopped e) ≡ stopped e
    unfolding copy_buckets copy_slots
    copy_buckets_stopped [] e = refl
    copy_buckets_stopped (none ∷ bs) e = copy_buckets_stopped bs e
    copy_buckets_stopped (some n ∷ bs) e =
        ap (copy_buckets m k dsize initval alloc bits bs) (copy_slots_stopped n.slots e)
        ∙ copy_buckets_stopped bs e

    pub copy_buckets-Copying :
        (bs t : List (Option (HBucket E))) (extsize i : ℕ)
        → Good t
        → Copying t
            (all_slots bs)
            (copy_buckets m k dsize initval alloc bits bs (copied t extsize i))
    unfolding copy_buckets all_slots
    copy_buckets-Copying [] t extsize i good = Copies-refl t good
    copy_buckets-Copying (none ∷ bs) t extsize i good = copy_buckets-Copying bs t extsize i good
    copy_buckets-Copying (some n ∷ bs) t extsize i good =
        Copying-then t n.slots (all_slots bs) (copy_buckets m k dsize initval alloc bits bs)
          (copy_buckets_stopped bs) (λ t' extsize' i'. copy_buckets-Copying bs t' extsize' i') good
          _ (copy_slots-Copying n.slots t extsize i good)
