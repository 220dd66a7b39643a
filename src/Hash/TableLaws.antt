-- ===== src/Hash/TableLaws.antt =====
-- Replacing one bucket of the table: the invariant and what the table means.
use mathlib.Core.Path.{subst}
use native.Mathlib.Decide.{ℕ_discrete}
use native.Mathlib.Nat.{mod-lt, pow-suc}
use dset.Ext.{ElemExt}
use dset.Hash.Defs.{MType, HBucket, HSet, hkey, bucket_at}
use dset.Hash.View.{
  slots_of, slots_at, used_count, total, Fits, count, home, IsValid, find_live, live,
}
use dset.Kernel.{Kernel}
use dset.Prelude.{
  ℕ, zero, suc, ◌+◌, ◌%◌, ◌^◌, ◌≤◌, ◌<◌, ◌≡◌, refl, sym, ◌∙◌, ◌≢◌, Option, none, List, [], ◌∷◌,
  length, set, length-set, get_or-set_self, get_or-set_ne, arith,
}

pub pow2_pos : (n : ℕ) → 0 < 2 ^ n
pow2_pos zero = omega arith
pow2_pos (suc n) = simp pow-suc (omega (arith, pow2_pos n))

module _ {E : Type 0} where
  pub total-set :
      (bs : List (Option (HBucket E))) (i : ℕ) (b : Option (HBucket E))
      → i < length bs
      → total (set bs i b) + used_count (slots_at bs i) ≡ total bs + used_count (slots_of b)
  unfolding total
  total-set [] i b h = absurd (omega arith)
  total-set (x ∷ bs) zero b h = omega arith
  total-set (x ∷ bs) (suc i) b h = omega (arith, total-set bs i b)

  -- a property of every bucket survives a write that has it
  pub at-set :
      (P : ℕ → Option (HBucket E) → Type 0) (bs : List (Option (HBucket E))) (i j : ℕ)
      (b : Option (HBucket E))
      → i < length bs
      → P i b
      → (i ≢ j → P j (bucket_at bs j))
      → P j (bucket_at (set bs i b) j)
  at-set P bs i j b h here other = elim (ℕ_discrete i j) [
    | yes e ↦
        subst (λ t. P t (bucket_at (set bs i b) t)) e (rw (get_or-set_self bs i b none h) here)
    | no n ↦ rw (get_or-set_ne bs i j b none n) (other n)
  ]

module _ {E : Type 0} (m : MType E) where
  pub home-lt :
      (s : HSet E) (q : E) → length s.buckets ≡ 2 ^ s.htable_bits → home m s q < length s.buckets
  unfolding hkey
  home-lt s q w = rw w (mod-lt (m.jhash q s.initval) (pow2_pos s.htable_bits))

  module _ {s : HSet E} (valid : IsValid m s) (d : E) (b : Option (HBucket E))
      (elements ext_size : ℕ) where
    abbrev pub replaced : HSet E
    replaced = record s {
      elements = elements;
      ext_size = ext_size;
      buckets = set s.buckets (home m s d) b;
    }

    pub set-IsValid :
        Fits b
        → ((q : E) → count m q (slots_of b) ≤ 1)
        → ((q : E) → home m s q ≢ home m s d → count m q (slots_of b) ≡ 0)
        → elements ≡ total (set s.buckets (home m s d) b) % 2 ^ 32
        → IsValid m replaced
    set-IsValid fits once apart counted =
        let lt = home-lt s d valid.width in
        record {
          width = length-set s.buckets _ b ∙ valid.width;
          fits = λ i. at-set (λ _ c. Fits c) s.buckets _ i b lt fits (λ _. valid.fits i);
          placed = λ q i.
              at-set
                (λ j c.
                  (count m q (slots_of c) ≤ 1) × (home m s q ≢ j → count m q (slots_of c) ≡ 0))
                s.buckets _ i b lt (once q, apart q) (λ _. valid.placed q i);
          counted = counted;
        }

    -- the elements of other buckets stay, those of this one are the new bucket's
    pub live-replaced :
        (k : Kernel) (q : E) (o : Option ElemExt)
        → (home m s q ≡ home m s d → find_live m k s.exts q (slots_of b) ≡ o)
        → (home m s q ≢ home m s d → live m k s q ≡ o)
        → live m k replaced q ≡ o
    unfolding live
    live-replaced k q o here other =
        at-set (λ j c. j ≡ home m s q → find_live m k s.exts q (slots_of c) ≡ o) s.buckets _ _ b
          (home-lt s d valid.width) (λ e. here (sym e)) (λ n _. other (λ e. n (sym e))) refl
