-- ===== src/Hash/AddLaws.antt =====
-- `mtype_add`: the element is in the set afterwards, every other live element is as it was, and
-- the invariant holds, whatever the outcome.
use mathlib.Core.Path.{subst}
use dset.Ext.{Ext, ElemExt, write_extensions, zero_ext}
use dset.Ext.WriteLaws.{Written, write_extensions-Written}
use dset.Hash.Add.{
  Memory, Scan, overwrite, refused, scanned, fill_slot, reuse_slot, put_slot, append_slot, add_new,
  add_bucket, add_scanned, add_at, make_room, must_force, add,
}
use dset.Hash.Added.{Added, old_slots, enter-Added}
use dset.Hash.Defs.{MType, Slot, HBucket, HSet, ahash_init_size, ahash_max, bucket_at}
use dset.Hash.EnterLaws.{set-Enters, append-Enters}
use dset.Hash.Expire.{expire}
use dset.Hash.ExpireLaws.{Follows, expire-IsValid, live-expire}
use dset.Hash.ScanLaws.{Ends, scan-Ends}
use dset.Hash.SlotLaws.{used_count-set, used_count-append, used_count_one, hits-le-count}
use dset.Hash.Slots.{enlarge}
use dset.Hash.View.{to_nat, slots_of, used_count, Fits, hits, count, home, IsValid, is_live, live}
use dset.Kernel.{Kernel}
use dset.Prelude.{
  ℕ, suc, ◌+◌, ◌%◌, ◌≤◌, ◌≡◌, refl, ap, ◌∙◌, Bool, true, false, ◌&&◌, ◌||◌, Option, none, some,
  List, [], ◌∷◌, ◌++◌, leb, leb_false→lt, length, length-append, length-replicate, replicate,
  length-set, get_elem?, set, if_cases, arith,
}
use dset.Uapi.{Status, ok, err, fault, out_of_bounds}

module _ {E : Type 0} (m : MType E) (k : Kernel) (d : E) (ext : Ext) where
  -- `alloc` tells whether there is memory for a comment
  abbrev pub Outcome : Bool → HSet E → Bool → Status × HSet E → Type 0
  Outcome alloc s forced (ok, s') =
      (e : ElemExt) × Written k s.exts alloc ext e × Added m k d s e s'
  Outcome alloc s forced (err x, s') = IsValid m s' × ((q : E) → live m k s' q ≡ live m k s q)
  Outcome alloc s forced (fault f, s') = (f ≡ out_of_bounds) × (forced ≡ true)

  module _ {s : HSet E} (valid : IsValid m s) (forced : Bool) where
    abbrev old : List (Slot E)
    old = old_slots m k d valid

    -- a new table size of the element's bucket is no reason to look at it otherwise
    append_slot-Outcome :
        (z : ℕ) (alloc : Bool) (n : HBucket E) (spare : List ElemExt)
        → old ≡ n.slots
        → count m d old ≡ 0
        → suc (length n.slots) ≤ n.size
        → n.size ≤ ahash_max
        → n.size % ahash_init_size ≡ 0
        → length n.slots + length spare ≡ n.size
        → Outcome alloc s forced
            (append_slot m k (record s { ext_size = z }) (home m s d) alloc d ext n spare)
    unfolding append_slot fill_slot
    append_slot-Outcome z alloc n [] same absent room small whole fits = absurd (omega arith)
    append_slot-Outcome z alloc n (area ∷ spare) same absent room small whole fits =
        let x : Slot E = record {
          used = true;
          elem = d;
          ext = (write_extensions k s.exts alloc ext area z).0;
        } in
        (
          x.ext,
          write_extensions-Written k s.exts alloc ext area z,
          enter-Added m k d valid (record n { slots = n.slots ++ x ∷ []; spare = spare }) x.ext _ _
              (omega (arith, length-append n.slots (x ∷ [])), small, whole)
              (rw same (append-Enters m k s.exts d x refl refl n.slots (rw same at absent)))
              (
                omega (
                  arith,
                  ap used_count same,
                  used_count-append n.slots (x ∷ []),
                  used_count_one x,
                ),
                omega arith,
              ),
        )

    add_new-Outcome :
        (mem : Memory) (n : HBucket E)
        → old ≡ n.slots
        → Fits (some n)
        → count m d old ≡ 0
        → Outcome mem.comment s forced (add_new m k s (home m s d) mem d ext n)
    unfolding add_new enlarge live
    add_new-Outcome mem n same fits absent =
        let P = Outcome mem.comment s forced in
        let kept : IsValid m s × ((q : E) → live m k s q ≡ live m k s q) = (valid, λ q. refl) in
        let keep_next : IsValid m (record s { next = some d }) = record {
          width = valid.width;
          fits = valid.fits;
          placed = valid.placed;
          counted = valid.counted;
        } in
        if_cases P (leb s.maxelem s.elements) (λ _. kept)
          (λ _.
            if_cases P (leb n.size (length n.slots))
              (λ _.
                if_cases P (leb ahash_max n.size) (λ _. (keep_next, λ q. refl))
                  (λ g.
                    if_cases P mem.bucket
                      (λ _.
                        append_slot-Outcome _ mem.comment (enlarge n n.spare) _ same absent
                          (omega arith) (omega (arith, leb_false→lt _ _ g, fits.2))
                          (omega (arith, fits.2))
                          (omega (
                            arith,
                            fits.0,
                            length-append n.spare (replicate ahash_init_size zero_ext),
                            length-replicate {0} {A = ElemExt} ahash_init_size zero_ext,
                          )))
                      (λ _. kept)))
              (λ g.
                append_slot-Outcome s.ext_size mem.comment n n.spare same absent
                  (leb_false→lt _ _ g) fits.1 fits.2 fits.0))

    add_bucket-Outcome :
        (mem : Memory)
        → old ≡ []
        → Outcome mem.comment s forced (add_bucket m k s (home m s d) forced mem d ext)
    unfolding add_bucket count
    add_bucket-Outcome mem same =
        let P = Outcome mem.comment s forced in
        let kept : IsValid m s × ((q : E) → live m k s q ≡ live m k s q) = (valid, λ q. refl) in
        if_cases P (forced || leb s.maxelem s.elements) (λ _. kept)
          (λ _.
            if_cases P mem.bucket
              (λ _.
                append_slot-Outcome _ mem.comment
                  (record { size = ahash_init_size; slots = []; spare = [] }) _ same (rw same)
                  (omega arith) (omega arith) (omega arith)
                  (omega (arith, length-replicate {0} {A = ElemExt} ahash_init_size zero_ext)))
              (λ _. kept))

    at_index :
        (n : HBucket E) (i o : ℕ) (y : Slot E)
        → i ≡ 0 + o
        → get_elem? n.slots o ≡ some y
        → get_elem? n.slots i ≡ some y
    at_index n i o y e at = let e' : i ≡ o = omega arith in rw e' at

    other_of_hit :
        (q : E) (y : Slot E)
        → hits m d y ≡ true
        → m.data_equal q d ≡ false
        → is_live m k s.exts q y ≡ false
    other_of_hit q y hit n =
        ground (arith, m.data_equal_iff y.elem d, m.data_equal_iff y.elem q, m.data_equal_iff q d)

    -- a position of the bucket is written: it held the element, or no position did and this one
    -- was not live
    put_slot-Outcome :
        (alloc : Bool) (n : HBucket E) (i : ℕ) (y x : Slot E) (elements size : ℕ)
        → old ≡ n.slots
        → Fits (some n)
        → get_elem? n.slots i ≡ some y
        → (x.used ≡ true) × (x.elem ≡ d) × Written k s.exts alloc ext x.ext
        → count m d n.slots ≡ to_nat (hits m d y)
        → ((q : E) → m.data_equal q d ≡ false → is_live m k s.exts q y ≡ false)
        → Follows s.elements (to_nat y.used) elements 1
        → Outcome alloc s forced (
          ok,
          put_slot m k s (home m s d) n i (x, record { elements = elements; ext_size = size }),
        )
    unfolding put_slot
    put_slot-Outcome alloc n i y x elements size same fits at (used, is_d, written) only dead
          follows =
        (
          x.ext,
          written,
          enter-Added m k d valid (record n { slots = set n.slots i x }) x.ext elements size
              (rw length-set fits.0, fits.1, fits.2)
              (rw same
                (set-Enters m k s.exts d x used is_d n.slots i y at only dead (ground arith)))
              (
                omega (
                  arith,
                  follows.0,
                  ap used_count same,
                  used_count-set n.slots i x y at,
                  ap to_nat used,
                ),
                follows.1,
              ),
        )

    add_scanned-Outcome :
        (mem : Memory) (flag_exist : Bool) (n : HBucket E) (r : Scan)
        → old ≡ n.slots
        → Fits (some n)
        → Ends m k s.exts d flag_exist n.slots 0 none r
        → Outcome mem.comment s forced (add_scanned m k s (home m s d) forced mem d ext n r)
    unfolding add_scanned fill_slot reuse_slot
    add_scanned-Outcome mem flag_exist n (overwrite i) same fits (o, y, e, at, hit, free) =
        put_slot-Outcome mem.comment n i y _ _ _ same fits (at_index n i o y e at)
          (refl, refl, write_extensions-Written k s.exts mem.comment ext _ _)
          (ground (
            arith,
            hits-le-count m d n.slots o y at,
            (valid.placed d (home m s d)).0,
            ap (count m d) same,
          ))
          (λ q. other_of_hit q y hit) (ground arith)
    add_scanned-Outcome mem flag_exist n refused same fits ends = (valid, λ q. refl)
    add_scanned-Outcome mem flag_exist n (scanned none) same fits ends =
        if_cases (Outcome mem.comment s forced) forced (λ h. (refl, h))
          (λ _. add_new-Outcome mem n same fits (rw same ends.0))
    add_scanned-Outcome mem flag_exist n (scanned (some (i, deleted))) same fits
          (absent, (o, y, e, at, used, free)) =
        put_slot-Outcome mem.comment n i y _ _ _ same fits (at_index n i o y e at)
          (refl, refl, write_extensions-Written k s.exts mem.comment ext _ _)
          (omega (arith, absent, hits-le-count m d n.slots o y at)) (λ q _. ground arith)
          (ground arith, ground arith)

    add_at-Outcome :
        (mem : Memory) (flag_exist : Bool) (b : Option (HBucket E))
        → bucket_at s.buckets (home m s d) ≡ b
        → Outcome mem.comment s forced (add_at m k s (home m s d) forced mem d ext flag_exist b)
    unfolding add_at
    add_at-Outcome mem flag_exist none e = add_bucket-Outcome mem (ap slots_of e)
    add_at-Outcome mem flag_exist (some n) e =
        add_scanned-Outcome mem flag_exist n _ (ap slots_of e)
          (subst Fits e (valid.fits (home m s d)))
          (scan-Ends m k s.exts d flag_exist n.slots 0 none)

  -- a table that reads the same may stand for the one before
  Outcome-congr :
      (alloc : Bool) (s s₁ : HSet E) (forced : Bool) (r : Status × HSet E)
      → s₁.exts ≡ s.exts
      → ((q : E) → live m k s₁ q ≡ live m k s q)
      → Outcome alloc s₁ forced r
      → Outcome alloc s forced r
  Outcome-congr alloc s s₁ forced (ok, s') same reads (e, written, added) = (
    e,
    subst (λ x. Written k x alloc ext e) same written,
    record {
      valid = added.valid;
      others = λ q n. added.others q n ∙ reads q;
      self = rw (← same) added.self;
    },
  )
  Outcome-congr alloc s s₁ forced (err x, s') same reads (valid, kept) =
      (valid, λ q. kept q ∙ reads q)
  Outcome-congr alloc s s₁ forced (fault f, s') same reads h = h

  module _ {s : HSet E} (valid : IsValid m s) (mem : Memory) where
    -- Making room in a table that satisfies the invariant, when the set is full and has timeouts,
    -- keeps the invariant, every live element and the enabled extensions.
    pub make_room-keeps :
        let s₁ = make_room m k s mem in
        IsValid m s₁ × ((q : E) → live m k s₁ q ≡ live m k s q) × (s₁.exts ≡ s.exts)
    unfolding make_room
    make_room-keeps =
        if_cases
          (λ s₁. IsValid m s₁ × ((q : E) → live m k s₁ q ≡ live m k s q) × (s₁.exts ≡ s.exts))
          (leb s.maxelem s.elements && s.exts.with_timeout)
          (λ h.
            let timed : s.exts.with_timeout ≡ true = ground arith in
            (
              expire-IsValid m k valid mem.expire timed,
              live-expire m k valid mem.expire timed,
              unfold expire in refl,
            ))
          (λ _. (valid, λ q. refl, refl))

    -- Adding `d` to a table that satisfies the invariant: on success it is in the set with the
    -- extensions that were asked for (unless these have expired already): timeout, skbinfo, counters,
    -- and the comment up to its NUL and its greatest length if there is memory for it, else none; and
    -- every other live element is as it was; an error changes no live element; the invariant holds after both; and
    -- a fault is out of bounds and arises only when the add is forced.
    pub add-Outcome :
        (flag_exist : Bool)
        → Outcome mem.comment s
            (must_force m k s (make_room m k s mem))
            (add m k s mem d ext flag_exist)
    unfolding add
    add-Outcome flag_exist =
        let s₁ = make_room m k s mem in
        let (valid₁, reads, same) = make_room-keeps in
        Outcome-congr mem.comment s s₁ _ _ same reads
          (add_at-Outcome valid₁ (must_force m k s s₁) mem flag_exist _ refl)
