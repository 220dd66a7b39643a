-- ===== src/Hash/ResizeLaws.antt =====
-- `mtype_resize` on a valid table: it ends, and the larger table holds the same elements.
use dset.Hash.CopyLaws.{Copies, Good, Copying, all_slots, homed, copy_buckets-Copying}
use dset.Hash.CreateLaws.{total-none, at-none}
use dset.Hash.Defs.{MType, HBucket, HSet, hkey}
use dset.Hash.HomedLaws.{
  used_count-all_slots, count-all_slots, find_live-all_slots, count-homed, count-homed_far,
  find_live-homed,
}
use dset.Hash.Resize.{
  Attempt, finished, retry, Copied, copied, stopped, ResizeMemory, attempt, attempt_end,
  resize_loop, resize,
}
use dset.Hash.Table.{htable_size}
use dset.Hash.View.{slots_of, slots_at, count, home, IsValid, find_live, live}
use dset.Kernel.{Kernel}
use dset.Prelude.{
  ℕ, zero, suc, ◌+◌, ◌-◌, ◌%◌, ◌^◌, ◌≤◌, ◌<◌, ◌≡◌, ◌≢◌, inl, inr, refl, sym, ap, ◌∙◌, true, Option,
  none, some, List, ◌++◌, replicate, length-replicate, if_cases, ◌==◌, arith,
}
use dset.Uapi.{Errno, Status, err}
use mathlib.Core.Path.{subst}
use native.Mathlib.Decide.{ℕ_discrete}

module _ {E : Type 0} (m : MType E) (k : Kernel) (mem : ResizeMemory) (s : HSet E) where
  -- what the set is after a resize with this status
  abbrev pub Resized : Status → HSet E → Type 0
  Resized Status.ok s' =
      IsValid m s'
      × ((q : E) → live m k s' q ≡ live m k s q)
      × (s'.elements ≡ s.elements)
      × (s.htable_bits < s'.htable_bits)
  Resized (Status.err e) s' = s' ≡ s
  Resized (Status.fault f) s' =
      (s' ≡ s)
      × ((bits : ℕ) × (s.htable_bits < bits) × (htable_size k bits ≡ 0) × (mem.table bits ≡ true))

  -- what an attempt leaves if it is the last
  abbrev Ended : Attempt E → Type 0
  Ended (finished r s') = Resized r s'
  Ended retry = Unit {0}

  module _ (valid : IsValid m s) (bits : ℕ) (grows : s.htable_bits < bits) where
    abbrev fresh : List (Option (HBucket E))
    fresh = replicate (2 ^ bits) none

    abbrev copy_of : List (Option (HBucket E)) → ℕ → HSet E
    copy_of t extsize = record s { htable_bits = bits; buckets = t; ext_size = extsize }

    Good-fresh : Good m s.initval bits fresh
    Good-fresh = (length-replicate (2 ^ bits) none, λ i. rw (at-none E (2 ^ bits) i) tt)

    slots-copied :
        (t : List (Option (HBucket E)))
        → Copies m s.initval bits fresh (all_slots s.buckets) t
        → (i : ℕ) → slots_at t i ≡ homed m s.initval bits i (all_slots s.buckets)
    slots-copied t c i =
        c.slots i
        ∙ ap (λ b. slots_of b ++ homed m s.initval bits i (all_slots s.buckets))
            (at-none E (2 ^ bits) i)

    -- every other bucket of the old table lacks the element
    elsewhere : (q : E) (j : ℕ) → j ≢ home m s q → count m q (slots_at s.buckets j) ≡ 0
    elsewhere q j n = (valid.placed q j).1 (λ e. n (sym e))

    count-copied :
        (t : List (Option (HBucket E)))
        → Copies m s.initval bits fresh (all_slots s.buckets) t
        → (q : E)
        → count m q (slots_at t (hkey m q s.initval bits))
          ≡ count m q (slots_at s.buckets (home m s q))
    count-copied t c q =
        ap (count m q) (slots-copied t c (hkey m q s.initval bits))
        ∙ count-homed m q s.initval bits (all_slots s.buckets)
        ∙ count-all_slots m q s.buckets (home m s q) (elsewhere q)

    far-copied :
        (t : List (Option (HBucket E)))
        → Copies m s.initval bits fresh (all_slots s.buckets) t
        → (q : E) (i : ℕ) → hkey m q s.initval bits ≢ i
        → count m q (slots_at t i) ≡ 0
    far-copied t c q i far =
        ap (count m q) (slots-copied t c i)
        ∙ count-homed_far m q s.initval bits (all_slots s.buckets) i far

    copied-IsValid :
        (t : List (Option (HBucket E))) (extsize : ℕ)
        → Copies m s.initval bits fresh (all_slots s.buckets) t
        → IsValid m (copy_of t extsize)
    copied-IsValid t extsize c = record {
      width = c.width ∙ length-replicate (2 ^ bits) none;
      fits = c.fits;
      placed = λ q i. (
        elim (ℕ_discrete (hkey m q s.initval bits) i) [
          | yes e ↦
              subst (λ j. count m q (slots_at t j) ≤ 1) e
                (rw (count-copied t c q) ((valid.placed q (home m s q)).0))
          | no far ↦ omega (arith, far-copied t c q i far)
        ],
        far-copied t c q i,
      );
      counted =
          valid.counted
          ∙ ap (λ n. n % 2 ^ 32)
              (omega (arith, c.counted, total-none E (2 ^ bits), used_count-all_slots s.buckets));
    }

    live-copied :
        (t : List (Option (HBucket E))) (extsize : ℕ)
        → Copies m s.initval bits fresh (all_slots s.buckets) t
        → (q : E) → live m k (copy_of t extsize) q ≡ live m k s q
    unfolding live
    live-copied t extsize c q =
        ap (find_live m k s.exts q) (slots-copied t c (hkey m q s.initval bits))
        ∙ find_live-homed m q s.initval bits k s.exts (all_slots s.buckets)
        ∙ find_live-all_slots m q k s.exts s.buckets (home m s q) (elsewhere q)

    attempt_end-Ended :
        (c : Copied E)
        → Copying m s.initval bits fresh (all_slots s.buckets) c
        → Ended (attempt_end m k mem s bits c)
    unfolding attempt_end
    attempt_end-Ended (copied t extsize i) c =
        (copied-IsValid t extsize c, live-copied t extsize c, refl, grows)
    attempt_end-Ended (stopped e) c = elim c [ inl is ↦ rw is refl | inr is ↦ rw is tt ]

    attempt-Ended : Ended (attempt m k mem s bits)
    unfolding attempt
    attempt-Ended =
        if_cases Ended (bits == 0) (λ _. refl)
          (λ _.
            if_cases Ended (mem.table bits)
              (λ had.
                if_cases Ended (htable_size k bits == 0)
                  (λ z. (refl, (bits, grows, ground arith, had)))
                  (λ _. attempt_end-Ended _ (
                    copy_buckets-Copying m s.initval bits k s.dsize (mem.bucket bits) s.buckets
                      fresh 0 0 Good-fresh)))
              (λ _. refl))

  -- how the loop ends
  abbrev pub Finished : Option (Status × HSet E) → Type 0
  Finished o = (r : Status) × (s' : HSet E) × (o ≡ some (r, s')) × Resized r s'

  module _ (valid : IsValid m s) where
    -- a u8 that overflows ends the loop
    resize_loop_full :
        (fuel : ℕ) → resize_loop m k mem s (suc fuel) 255 ≡ some (err Errno.hash_full, s)
    unfolding resize_loop attempt
    resize_loop_full fuel = refl

    resize_loop-Finished :
        (fuel bits : ℕ)
        → s.htable_bits ≤ bits
        → bits ≤ 255
        → 256 - bits ≤ fuel
        → Finished (resize_loop m k mem s fuel bits)
    unfolding resize_loop
    resize_loop-Finished zero bits low high enough = absurd (omega arith)
    resize_loop-Finished (suc fuel) bits low high enough = elim (ℕ_discrete bits 255) [
      | yes e ↦ (
        err Errno.hash_full,
        s,
        subst (λ b. resize_loop m k mem s (suc fuel) b ≡ some (err Errno.hash_full, s)) (sym e)
            (resize_loop_full fuel),
        refl,
      )
      | no n ↦
          after (attempt m k mem s ((bits + 1) % 2 ^ 8))
            (subst (λ b. Ended (attempt m k mem s b)) (omega arith)
              (attempt-Ended valid (bits + 1) (omega arith)))
            (resize_loop-Finished fuel ((bits + 1) % 2 ^ 8) (omega arith) (omega arith)
              (omega arith))
    ]
      where
        after :
            (a : Attempt E)
            → Ended a
            → Finished (resize_loop m k mem s fuel ((bits + 1) % 2 ^ 8))
            → Finished (elim a [
              | finished r s' ↦ some (r, s')
              | retry ↦ resize_loop m k mem s fuel ((bits + 1) % 2 ^ 8)
            ])
        after (finished r s') ended rest = (r, s', refl, ended)
        after retry ended rest = rest

    -- A resize of a valid table whose size is a u8 ends. If it succeeds, the new table is larger and
    -- satisfies the invariant, and it has the same live elements with the same extensions, and as
    -- many of them. An error leaves the set as it was; and so does a fault, which needs a size that
    -- `htable_size` refuses and an allocator that grants it.
    pub resize-Finished : s.htable_bits ≤ 255 → Finished (resize m k mem s)
    unfolding resize
    resize-Finished small =
        resize_loop-Finished (2 ^ 8) s.htable_bits (omega arith) small (omega arith)
