-- ===== src/Hash/EnterLaws.antt =====
-- Writing an element into a position of its bucket.
use dset.Ext.{ElemExt, Extensions, timeout_expired}
use dset.Hash.Defs.{MType, Slot}
use dset.Hash.SlotLaws.{
  count-append, count-set, find_live-append, find_live-append_none, find_live-set_other,
  find_live-set_self,
}
use dset.Hash.View.{to_nat, hits, count, is_live, find_live}
use dset.Kernel.{Kernel}
use dset.Prelude.{
  ℕ, ◌≤◌, ◌≡◌, refl, ap, ◌∙◌, true, false, ◌&&◌, none, some, List, [], ◌∷◌, ◌++◌, if◌then◌else◌,
  get_elem?, set, arith,
}

module _ {E : Type 0} (m : MType E) (k : Kernel) (exts : Extensions) (d : E) where
  -- `new` is `old` with the element `d` in it once, with the extensions `e`
  pub record Enters (old new : List (Slot E)) (e : ElemExt) : Type 0 where
    pub counts : (q : E) → m.data_equal q d ≡ false → count m q new ≤ count m q old
    pub once : count m d new ≤ 1
    pub others :
        (q : E) → m.data_equal q d ≡ false → find_live m k exts q new ≡ find_live m k exts q old
    pub self :
        find_live m k exts d new
        ≡ (if exts.with_timeout && timeout_expired k e.timeout then none else some e)

  module _ (x : Slot E) (used : x.used ≡ true) (is_d : x.elem ≡ d) where
    hits_self : hits m d x ≡ true
    hits_self = ground (arith, (m.data_equal_iff x.elem d).1 is_d)

    hits_other : (q : E) → m.data_equal q d ≡ false → hits m q x ≡ false
    hits_other q n = ground (arith, m.data_equal_iff x.elem q, m.data_equal_iff q d)

    count_one : (q : E) → count m q (x ∷ []) ≡ to_nat (hits m q x)
    unfolding count
    count_one q = omega arith

    find_one : find_live m k exts d (x ∷ []) ≡ (if is_live m k exts d x then some x.ext else none)
    unfolding find_live
    find_one = refl

    -- position `i` held `d`, or no slot did and position `i` was not live
    pub set-Enters :
        (xs : List (Slot E)) (i : ℕ) (y : Slot E)
        → get_elem? xs i ≡ some y
        → count m d xs ≡ to_nat (hits m d y)
        → ((q : E) → m.data_equal q d ≡ false → is_live m k exts q y ≡ false)
        → to_nat (hits m d y) ≤ 1
        → Enters xs (set xs i x) x.ext
    set-Enters xs i y at only dead le = record {
      counts = λ q n. ground (arith, count-set m q xs i x y at, hits_other q n);
      once = ground (arith, count-set m d xs i x y at, hits_self);
      others = λ q n.
          find_live-set_other m k exts q xs i x y at (dead q n) (ground (arith, hits_other q n));
      self = find_live-set_self m k exts d xs i x y at only ∙ ground (arith, hits_self);
    }

    pub append-Enters : (xs : List (Slot E)) → count m d xs ≡ 0 → Enters xs (xs ++ x ∷ []) x.ext
    append-Enters xs absent = record {
      counts = λ q n.
          omega (arith, count-append m q xs (x ∷ []), count_one q, ap to_nat (hits_other q n));
      once = omega (arith, count-append m d xs (x ∷ []), count_one d, ap to_nat hits_self);
      others = λ q n.
          find_live-append_none m k exts q xs (x ∷ []) (count_one q ∙ ap to_nat (hits_other q n));
      self =
          find_live-append m k exts d xs (x ∷ []) absent ∙ (find_one ∙ ground (arith, hits_self));
    }
