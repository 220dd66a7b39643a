-- ===== src/Hash/CreateLaws.antt =====
-- A hash that is created satisfies the table's invariant and holds no element.
use dset.Ext.Attrs.{Attr, Result, value_or}
use dset.Hash.Create.{HashAttrs, HashEnv, wrong_order, asked_hashsize}
use dset.Hash.Table.{htable_size, htable_bits}
use dset.Hash.Defs.{MType, HSet, bucket_at}
use dset.Hash.View.{total, used_count, IsValid, live}
use dset.Kernel.{Kernel}
use dset.Prelude.{
  Option, some, if◌then◌else◌, ltb, length, ◌<◌, ◌≤◌, ◌*◌, false, ℕ, zero, suc, ◌^◌, ◌≡◌, refl,
  none, replicate, ◌≢◌, ◌⊎◌, true, get_or-replicate, arith,
}
use dset.Uapi.{Errno}

pub total-none : (E : Type 0) (n : ℕ) → total {E = E} (replicate n none) ≡ 0
unfolding total used_count replicate
total-none E zero = refl
total-none E (suc n) = omega (arith, total-none E n)

pub at-none : (E : Type 0) (n i : ℕ) → bucket_at {E = E} (replicate n none) i ≡ none
at-none E n i = get_or-replicate n i none

-- `fls` of a u32: the place of the highest bit, counted from 1
abbrev pub IsFls : (ℕ → ℕ) → Type 0
IsFls fls = (x : ℕ) → 0 < x → x < 2 ^ 32 → (x < 2 ^ fls x) × (2 ^ fls x ≤ 2 * x)

-- the least power of two that is not below `n`
abbrev pub IsRounded : ℕ → ℕ → Type 0
IsRounded n size = (n ≤ size) × (size < 2 * n)

module _ {E : Type 0} where
  module _ (m : MType E) (k : Kernel) (env : HashEnv) where
    -- the table has the size that was asked for, rounded up; at least 64 buckets, 1024 if no size was
    -- asked for
    abbrev pub IsSized : Option (Attr ℕ) → ℕ → Type 0
    IsSized none size = IsRounded 1024 size
    IsSized (some a) size = IsRounded (if ltb a.value 64 then 64 else a.value) size

    -- the table is valid, empty and as large as asked, and there was no error; each error has its
    -- cause, and those that are tested before it are absent
    abbrev pub Created : ℕ → HashAttrs → Result (HSet E) → Type 0
    Created family tb (Result.ok s) =
        (family ≡ 0)
        × (wrong_order tb ≡ false)
        × (env.alloc_hash ≡ true)
        × (env.alloc_table ≡ true)
        × IsValid m s
        × ((q : E) → live m k s q ≡ none)
        × (s.elements ≡ 0)
        × IsSized tb.hashsize (length s.buckets)
        × (s.maxelem ≡ value_or tb.maxelem 65536)
    Created family tb (Result.err e) =
        ((e ≡ Errno.invalid_family) × (family ≢ 0))
        ⊎ ((e ≡ Errno.protocol) × (family ≡ 0) × (wrong_order tb ≡ true))
        ⊎ ((e ≡ Errno.enomem)
            × (family ≡ 0)
            × (wrong_order tb ≡ false)
            × ((env.alloc_hash ≡ false)
                ⊎ ((htable_size k (htable_bits k (asked_hashsize tb.hashsize)) ≡ 0)
                    ⊎ (env.alloc_table ≡ false))))

    -- the value of an attribute of four bytes
    abbrev pub IsWord : Option (Attr ℕ) → Type 0
    IsWord none = Unit {0}
    IsWord (some a) = a.value < 2 ^ 32
