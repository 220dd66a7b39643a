-- ===== src/Hash/Added.antt =====
-- What it means that an element was added to the table, and the table after a write of its home
-- bucket.
use dset.Ext.{ElemExt, timeout_expired}
use dset.Hash.Defs.{MType, Slot, HBucket, HSet}
use dset.Hash.EnterLaws.{Enters}
use dset.Hash.ExpireLaws.{Follows}
use dset.Hash.TableLaws.{home-lt, total-set, set-IsValid, live-replaced, replaced}
use dset.Hash.View.{slots_at, used_count, Fits, home, IsValid, find_live, live}
use dset.Kernel.{Kernel}
use dset.Prelude.{
  ℕ, ◌≡◌, refl, sym, ap, ◌∙◌, inl, inr, false, ◌&&◌, none, some, List, if◌then◌else◌, Bool-cases,
  arith,
}

module _ {E : Type 0} (m : MType E) (k : Kernel) (d : E) where
  -- `d` is in the set with the extensions `e`, unless these have expired already
  pub record Added (s : HSet E) (e : ElemExt) (s' : HSet E) : Type 0 where
    pub valid : IsValid m s'
    pub others : (q : E) → m.data_equal q d ≡ false → live m k s' q ≡ live m k s q
    pub self :
        live m k s' d
        ≡ (if s.exts.with_timeout && timeout_expired k e.timeout then none else some e)

  module _ {s : HSet E} (valid : IsValid m s) where
    abbrev pub old_slots : List (Slot E)
    old_slots = slots_at s.buckets (home m s d)

    pub enter-Added :
        (n : HBucket E) (e : ElemExt) (elements ext_size : ℕ)
        → Fits (some n)
        → Enters m k s.exts d old_slots n.slots e
        → Follows s.elements (used_count old_slots) elements (used_count n.slots)
        → Added s e (replaced m valid d (some n) elements ext_size)
    unfolding live
    enter-Added n e elements ext_size fits enters follows = record {
      valid =
          set-IsValid m valid d (some n) elements ext_size fits
            (λ q. elim (Bool-cases (m.data_equal q d)) [
              | inl e' ↦ rw ((m.data_equal_iff q d).0 e') enters.once
              | inr e' ↦ omega (arith, enters.counts q e', (valid.placed q (home m s d)).0)
            ])
            (λ q far. elim (Bool-cases (m.data_equal q d)) [
              | inl e' ↦ absurd (far (ap (home m s) ((m.data_equal_iff q d).0 e')))
              | inr e' ↦ omega (arith, enters.counts q e', (valid.placed q (home m s d)).1 far)
            ])
            (omega (
              arith,
              follows.0,
              follows.1 (omega (arith, valid.counted)),
              total-set s.buckets (home m s d) (some n) (home-lt m s d valid.width),
              valid.counted,
            ));
      others = λ q n'.
          live-replaced m valid d (some n) elements ext_size k q (live m k s q)
            (λ same.
              enters.others q n'
              ∙ ap (λ i. find_live m k s.exts q (slots_at s.buckets i)) (sym same))
            (λ _. refl);
      self =
          live-replaced m valid d (some n) elements ext_size k d _ (λ _. enters.self)
            (λ far. absurd (far refl));
    }
