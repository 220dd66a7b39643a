-- ===== src/Domain/Text.antt =====
-- C strings in buffers, the element type of hash:domain, and the decoding of a DNS name in
-- `hash_domain_kadt` (kernel/net/netfilter/dset/domain_set_hash_domain.c).
use dset.Hash.Defs.{MType}
use dset.Prelude.{
  cstr, ℕ, zero, suc, ◌+◌, ◌-◌, ◌≡◌, refl, ◌↔◌, Bool, true, false, ◌&&◌, List, [], ◌∷◌, ◌++◌,
  if◌then◌else◌, ltb, leb, ◌==◌, length, take, drop, replicate, arith,
}
use dset.Uapi.{max_domain_len}

-- the `n` bytes that `strncpy(dst, src, n)` writes: the text, then NULs
unfoldable pub strncpy_bytes : ℕ → List ℕ → List ℕ
unfolding cstr
strncpy_bytes n src = let text = take n (cstr src) in text ++ replicate (n - length text) 0

-- the buffer `dst` after `strncpy(dst, src, n)`
unfoldable pub strncpy : List ℕ → List ℕ → ℕ → List ℕ
unfolding strncpy_bytes
strncpy dst src n = strncpy_bytes n src ++ drop n dst

-- `struct hash_domain_elem` with this text and NULs behind it
unfoldable pub pad : List ℕ → List ℕ
pad text = text ++ replicate (max_domain_len - length text) 0

-- `strcmp(a, b) == 0`, on texts
unfoldable pub text_eq : List ℕ → List ℕ → Bool
text_eq [] [] = true
text_eq [] (y ∷ ys) = false
text_eq (x ∷ xs) [] = false
text_eq (x ∷ xs) (y ∷ ys) = x == y && text_eq xs ys

pub text_eq_refl : (xs : List ℕ) → text_eq xs xs ≡ true
unfolding text_eq
text_eq_refl [] = refl
text_eq_refl (x ∷ xs) = ground (arith, text_eq_refl xs)

pub text_eq_sound : (xs ys : List ℕ) → text_eq xs ys ≡ true → xs ≡ ys
unfolding text_eq
text_eq_sound [] [] h = refl
text_eq_sound [] (y ∷ ys) h = cc
text_eq_sound (x ∷ xs) [] h = cc
text_eq_sound (x ∷ xs) (y ∷ ys) h = ground (arith, text_eq_sound xs ys)

pub text_eq_iff : (xs ys : List ℕ) → (text_eq xs ys ≡ true) ↔ (xs ≡ ys)
text_eq_iff xs ys = (text_eq_sound xs ys, λ e. rw e (text_eq_refl ys))

-- `hash_domain_data_equal`, and `jhash2` over the whole buffer. An element is known by its text, with
-- NULs behind it. (hash_domain_uadt can make a buffer with other bytes behind a NUL, which `strcmp` does
-- not read and `jhash2` does; such elements are not modelled, see `uadt`.)
abbrev pub domain_type : (List ℕ → ℕ → ℕ) → MType (List ℕ)
domain_type jhash2 = record {
  data_equal = text_eq;
  data_equal_iff = text_eq_iff;
  jhash = λ text initval. jhash2 (pad text) initval;
}

-- How the loop over the labels ends: with the bytes written to `doamin_name`, each label followed
-- by a dot; with a name that does not fit (`return 0`); or outside a buffer.
pub data Decoded : Type 0 where
  name : List ℕ → Decoded
  too_long : Decoded
  overrun : Decoded

-- The loop. `char` is signed: a length byte from 128 on is negative, passes the test of the
-- length, and becomes a count near 2 ^ 64 for `strncpy`, which writes that many bytes. A label
-- that the packet does not hold whole is read, or stepped over, past its end. `fuel` bounds the
-- number of labels; each takes at least one byte of the packet.
unfoldable pub decode : ℕ → List ℕ → List ℕ → Decoded
unfolding strncpy_bytes
decode zero rest acc = overrun
decode (suc fuel) [] acc = overrun
decode (suc fuel) (len ∷ rest) acc =
    let more = decode fuel (drop len rest) (acc ++ strncpy_bytes len rest ++ b'.' ∷ []) in
    if len == 0
    then name acc
    else if leb 128 len
    then overrun
    else if leb max_domain_len (length acc + len)
    then too_long
    else if ltb (length rest) len
    then overrun
    else more
