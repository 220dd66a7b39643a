-- ===== src/Domain/BufferLaws.antt =====
-- Texts in buffers: copied with `strncpy` and read back, and their parts behind a dot.
use mathlib.Core.List.{append_assoc}
use dset.Domain.Text.{strncpy_bytes, strncpy}
use dset.Prelude.{
  cstr, ℕ, zero, suc, ◌+◌, ◌-◌, ◌≤◌, ◌<◌, ◌≡◌, ◌≢◌, refl, ap, true, ◌==◌, List, [], ◌∷◌, ◌++◌,
  length, take, drop, get_or, replicate, All, arith,
}

abbrev pub IsText : List ℕ → Type 0
IsText u = All (λ c. c ≢ 0) u

pub cstr-stop : (v rest : List ℕ) → IsText v → cstr (v ++ 0 ∷ rest) ≡ v
unfolding cstr
cstr-stop [] rest h = refl
cstr-stop (c ∷ v) rest h = ground (arith, cstr-stop v rest)

pub take_all : (n : ℕ) (v : List ℕ) → length v ≤ n → take n v ≡ v
take_all zero [] h = refl
take_all zero (c ∷ v) h = absurd (omega arith)
take_all (suc n) [] h = refl
take_all (suc n) (c ∷ v) h = ap (◌∷◌ c) (take_all n v (omega arith))

-- a text and its NUL, copied into a buffer, are read back
pub cstr-strncpy :
    (dst v : List ℕ) (n : ℕ) → IsText v → n ≡ length v + 1 → cstr (strncpy dst (v ++ 0 ∷ []) n) ≡ v
unfolding strncpy strncpy_bytes replicate
cstr-strncpy dst v n h e =
    let rest : n - length v ≡ 1 = omega arith in
    let again = cstr-stop v (drop n dst) h in
    rw (cstr-stop v [] h, take_all n v (omega arith), rest, append_assoc v (0 ∷ []) (drop n dst))
      again

pub drop-IsText : (n : ℕ) (u : List ℕ) → IsText u → IsText (drop n u)
drop-IsText zero u h = h
drop-IsText (suc n) [] h = tt
drop-IsText (suc n) (c ∷ u) h = drop-IsText n u h.1

pub drop-append_le : (n : ℕ) (u : List ℕ) → n ≤ length u → drop n (u ++ 0 ∷ []) ≡ drop n u ++ 0 ∷ []
drop-append_le zero u h = refl
drop-append_le (suc n) [] h = absurd (omega arith)
drop-append_le (suc n) (c ∷ u) h = drop-append_le n u (omega arith)

pub length-drop : (n : ℕ) (u : List ℕ) → n ≤ length u → length (drop n u) + n ≡ length u
length-drop zero u h = omega arith
length-drop (suc n) [] h = absurd (omega arith)
length-drop (suc n) (c ∷ u) h = omega (arith, length-drop n u (omega arith))

pub get_or-end : (u : List ℕ) (i : ℕ) → get_or (u ++ 0 ∷ []) i 0 ≡ get_or u i 0
get_or-end [] zero = refl
get_or-end [] (suc i) = refl
get_or-end (c ∷ u) zero = refl
get_or-end (c ∷ u) (suc i) = get_or-end u i

-- a dot stands within the text
pub dot_within : (u : List ℕ) (i : ℕ) → (get_or u i 0 == b'.') ≡ true → i < length u
dot_within [] zero h = cc
dot_within [] (suc i) h = cc
dot_within (c ∷ u) zero h = omega arith
dot_within (c ∷ u) (suc i) h = omega (arith, dot_within u i h)
