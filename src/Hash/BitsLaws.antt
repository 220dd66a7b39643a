-- ===== src/Hash/BitsLaws.antt =====
-- The size of the table: no operation but a resize changes it, and a resize keeps it a u8.
use dset.Ext.{Ext, ElemExt}
use dset.Hash.Add.{
  Memory, Scan, overwrite, refused, scanned, put_slot, append_slot, add_new, add_bucket,
  add_scanned, add_at, make_room, add, must_force,
}
use dset.Hash.Defs.{MType, Slot, HBucket, HSet, ahash_init_size, ahash_max, hkey, bucket_at}
use dset.Hash.Del.{del_found, del_at, del, find_slot}
use dset.Hash.Expire.{expire}
use dset.Hash.Lookup.{test_at, test}
use dset.Hash.Resize.{
  Attempt, finished, retry, Copied, copied, stopped, ResizeMemory, attempt, attempt_end,
  resize_loop, resize,
}
use dset.Hash.Slots.{enlarge, slot_expired}
use dset.Hash.Table.{htable_size}
use dset.Kernel.{Kernel}
use dset.Prelude.{
  ℕ, zero, suc, ◌+◌, ◌%◌, ◌^◌, ◌≤◌, ◌≡◌, refl, ◌∙◌, Bool, ◌&&◌, ◌||◌, Option, none, some, List, [],
  ◌∷◌, leb, length, if_cases, ◌==◌, arith,
}
use dset.Uapi.{Errno, Status, err}

module _ {E : Type 0} (m : MType E) (k : Kernel) (d : E) (ext : Ext) where
  -- the size is that of `s`
  abbrev Sized : ℕ → Status × HSet E → Type 0
  Sized bits (st, s') = s'.htable_bits ≡ bits

  append_slot-Sized :
      (s : HSet E) (key : ℕ) (alloc : Bool) (n : HBucket E) (spare : List ElemExt)
      → Sized s.htable_bits (append_slot m k s key alloc d ext n spare)
  unfolding append_slot
  append_slot-Sized s key alloc n [] = refl
  append_slot-Sized s key alloc n (area ∷ spare) = refl

  add_new-Sized :
      (s : HSet E) (key : ℕ) (mem : Memory) (n : HBucket E)
      → Sized s.htable_bits (add_new m k s key mem d ext n)
  unfolding add_new enlarge
  add_new-Sized s key mem n =
      let P = Sized s.htable_bits in
      if_cases P (leb s.maxelem s.elements) (λ _. refl)
        (λ _.
          if_cases P (leb n.size (length n.slots))
            (λ _.
              if_cases P (leb ahash_max n.size) (λ _. refl)
                (λ _.
                  if_cases P mem.bucket
                    (λ _. append_slot-Sized _ key mem.comment (enlarge n n.spare) _) (λ _. refl)))
            (λ _. append_slot-Sized s key mem.comment n n.spare))

  add_bucket-Sized :
      (s : HSet E) (key : ℕ) (forced : Bool) (mem : Memory)
      → Sized s.htable_bits (add_bucket m k s key forced mem d ext)
  unfolding add_bucket
  add_bucket-Sized s key forced mem =
      let P = Sized s.htable_bits in
      if_cases P (forced || leb s.maxelem s.elements) (λ _. refl)
        (λ _.
          if_cases P mem.bucket
            (λ _.
              append_slot-Sized _ key mem.comment
                (record { size = ahash_init_size; slots = []; spare = [] }) _)
            (λ _. refl))

  add_scanned-Sized :
      (s : HSet E) (key : ℕ) (forced : Bool) (mem : Memory) (n : HBucket E) (r : Scan)
      → Sized s.htable_bits (add_scanned m k s key forced mem d ext n r)
  unfolding add_scanned put_slot
  add_scanned-Sized s key forced mem n (overwrite i) = refl
  add_scanned-Sized s key forced mem n refused = refl
  add_scanned-Sized s key forced mem n (scanned (some (i, deleted))) = refl
  add_scanned-Sized s key forced mem n (scanned none) =
      if_cases (Sized s.htable_bits) forced (λ _. refl) (λ _. add_new-Sized s key mem n)

  add_at-Sized :
      (s : HSet E) (key : ℕ) (forced : Bool) (mem : Memory) (flag_exist : Bool)
      (b : Option (HBucket E))
      → Sized s.htable_bits (add_at m k s key forced mem d ext flag_exist b)
  unfolding add_at
  add_at-Sized s key forced mem flag_exist none = add_bucket-Sized s key forced mem
  add_at-Sized s key forced mem flag_exist (some n) = add_scanned-Sized s key forced mem n _

  make_room-bits : (s : HSet E) (mem : Memory) → (make_room m k s mem).htable_bits ≡ s.htable_bits
  unfolding make_room expire
  make_room-bits s mem =
      if_cases (λ (s' : HSet E). s'.htable_bits ≡ s.htable_bits)
        (leb s.maxelem s.elements && s.exts.with_timeout) (λ _. refl) (λ _. refl)

  pub add-bits :
      (s : HSet E) (mem : Memory) (flag_exist : Bool)
      → (add m k s mem d ext flag_exist).1.htable_bits ≡ s.htable_bits
  unfolding add
  add-bits s mem flag_exist =
      let s' = make_room m k s mem in
      let key = hkey m d s'.initval s'.htable_bits in
      add_at-Sized s' key (must_force m k s s') mem flag_exist (bucket_at s'.buckets key)
      ∙ make_room-bits s mem

  pub del-bits : (s : HSet E) (alloc : Bool) → (del m k s alloc d).1.htable_bits ≡ s.htable_bits
  unfolding del
  del-bits s alloc = go (bucket_at s.buckets (hkey m d s.initval s.htable_bits))
    where
      key : ℕ
      key = hkey m d s.initval s.htable_bits

      found :
          (n : HBucket E) (o : Option (ℕ × Slot E))
          → Sized s.htable_bits
              (elim o [ none ↦ (err Errno.exist, s) | some (i, x) ↦ del_found k s key alloc n i x ])
      found n none = refl
      found n (some (i, x)) =
          unfold del_found in
          if_cases (Sized s.htable_bits) (slot_expired k s.exts x) (λ _. refl) (λ _. refl)

      go : (b : Option (HBucket E)) → (del_at m k s key alloc d b).1.htable_bits ≡ s.htable_bits
      go none = unfold del_at in refl
      go (some n) = unfold del_at in found n (find_slot m d 0 n.slots)

  pub test-bits :
      (s : HSet E) (mext : Ext) (flags : ℕ)
      → (test m k s d ext mext flags).after.htable_bits ≡ s.htable_bits
  unfolding test
  test-bits s mext flags = go (bucket_at s.buckets (hkey m d s.initval s.htable_bits))
    where
      go :
          (b : Option (HBucket E))
          → (test_at m k s (hkey m d s.initval s.htable_bits) d ext mext flags b).after.htable_bits
            ≡ s.htable_bits
      go none = unfold test_at in refl
      go (some n) = unfold test_at in refl

module _ {E : Type 0} (m : MType E) (k : Kernel) (mem : ResizeMemory) (s : HSet E)
    (small : s.htable_bits ≤ 255) where
  abbrev SmallIf : Attempt E → Type 0
  SmallIf (finished r s') = s'.htable_bits ≤ 255
  SmallIf retry = Unit {0}

  abbrev pub Small : Option (Status × HSet E) → Type 0
  Small none = Unit {0}
  Small (some (r, s')) = s'.htable_bits ≤ 255

  attempt_end-SmallIf :
      (bits : ℕ) (c : Copied E) → bits ≤ 255 → SmallIf (attempt_end m k mem s bits c)
  unfolding attempt_end
  attempt_end-SmallIf bits (copied t extsize i) h = h
  attempt_end-SmallIf bits (stopped e) h = ground arith

  attempt-SmallIf : (bits : ℕ) → bits ≤ 255 → SmallIf (attempt m k mem s bits)
  unfolding attempt
  attempt-SmallIf bits h =
      if_cases SmallIf (bits == 0) (λ _. small)
        (λ _.
          if_cases SmallIf (mem.table bits)
            (λ _.
              if_cases SmallIf (htable_size k bits == 0) (λ _. small)
                (λ _. attempt_end-SmallIf bits _ h))
            (λ _. small))

  resize_loop-Small : (fuel bits : ℕ) → Small (resize_loop m k mem s fuel bits)
  unfolding resize_loop
  resize_loop-Small zero bits = tt
  resize_loop-Small (suc fuel) bits =
      go (attempt m k mem s ((bits + 1) % 2 ^ 8))
        (attempt-SmallIf ((bits + 1) % 2 ^ 8) (omega arith))
        (resize_loop-Small fuel ((bits + 1) % 2 ^ 8))
    where
      go :
          (a : Attempt E)
          → SmallIf a
          → Small (resize_loop m k mem s fuel ((bits + 1) % 2 ^ 8))
          → Small (elim a [
            | finished r s' ↦ some (r, s')
            | retry ↦ resize_loop m k mem s fuel ((bits + 1) % 2 ^ 8)
          ])
      go (finished r s') h rest = h
      go retry h rest = rest

  pub resize-Small : Small (resize m k mem s)
  unfolding resize
  resize-Small = resize_loop-Small (2 ^ 8) s.htable_bits
