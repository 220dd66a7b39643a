-- ===== src/User/Strings.antt =====
-- `dset_strlcpy` (lib/data.c) and STREQ (include/libdset/utils.h). A string is its text, the bytes
-- before the NUL.
use dset.Prelude.{ℕ, zero, suc, ◌-◌, ◌<◌, ◌≤◌, ◌≡◌, refl, ap, List, [], ◌∷◌, length, take, arith}

-- the text of the buffer of `len` bytes afterwards
unfoldable pub strlcpy : List ℕ → ℕ → List ℕ
strlcpy src len = take (len - 1) src

pub take_all : (n : ℕ) (xs : List ℕ) → length xs ≤ n → take n xs ≡ xs
take_all zero [] h = refl
take_all zero (x ∷ xs) h = absurd (omega arith)
take_all (suc n) [] h = refl
take_all (suc n) (x ∷ xs) h = ap (◌∷◌ x) (take_all n xs (omega arith))

-- a text that fits with its NUL is copied whole
pub strlcpy_short : (src : List ℕ) (len : ℕ) → length src < len → strlcpy src len ≡ src
unfolding strlcpy
strlcpy_short src len h = take_all (len - 1) src (omega arith)
