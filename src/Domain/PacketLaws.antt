-- ===== src/Domain/PacketLaws.antt =====
-- What a packet is tested for: `hash_domain_kadt` as a whole, for DSET_TEST.
use mathlib.Core.List.{append-nil, append_assoc}
use mathlib.Core.Path.{subst}
use dset.Domain.DecodeLaws.{IsLabelByte, IsLabel, wire, dotted, decode-wire, take-append}
use dset.Domain.Kadt.{
  AdtOpt, adt_test, matched, domain_offset, kernel_ext, close_name, zero_buffer, run_adt,
  kadt_decoded, kadt,
}
use dset.Domain.BufferLaws.{IsText}
use dset.Domain.KadtLaws.{parents_below, any_passes, matched-test_parents}
use dset.Domain.Text.{name, decode, domain_type}
use dset.Hash.Add.{Memory}
use dset.Hash.Defs.{HSet}
use dset.Hash.View.{IsValid}
use dset.Kernel.{Kernel}
use dset.Prelude.{
  ℕ, zero, suc, ◌+◌, ◌-◌, ◌≤◌, ◌<◌, ◌≡◌, refl, sym, ap, ◌∙◌, List, [], ◌∷◌, ◌++◌, ◌==◌, length,
  length-append, drop, get_or, Bool, All, false, true, if◌then◌else◌, arith,
}
use dset.Uapi.{max_domain_len}

-- a domain name: its labels with dots between them
abbrev pub joined : List ℕ → List (List ℕ) → List ℕ
joined l [] = l
joined l (l' ∷ ls) = l ++ (b'.' ∷ joined l' ls)

-- a domain and its parents, the shortest first
abbrev pub parents : List ℕ → List (List ℕ) → List (List ℕ)
parents l [] = l ∷ []
parents l (l' ∷ ls) = parents l' ls ++ (joined l (l' ∷ ls) ∷ [])

get_or-label :
    (l v : List ℕ) (i : ℕ)
    → All IsLabelByte l
    → i < length l
    → (get_or (l ++ v) i 0 == b'.') ≡ false
get_or-label [] v i h lt = absurd (omega arith)
get_or-label (c ∷ l) v zero h lt = ground (arith, h.0.1)
get_or-label (c ∷ l) v (suc i) h lt = get_or-label l v i h.1 (omega arith)

-- below the first dot of a name there is nothing but the name
parents_below-label :
    (l v : List ℕ) (i : ℕ)
    → All IsLabelByte l
    → i ≤ length l
    → parents_below (l ++ v) i ≡ (l ++ v) ∷ []
unfolding parents_below
parents_below-label l v zero h le = refl
parents_below-label l v (suc i) h le =
    rw (get_or-label l v i h (omega arith)) (parents_below-label l v i h (omega arith))

get_or-behind : (l v : List ℕ) (i j : ℕ) → i ≡ length l + j → get_or (l ++ v) i 0 ≡ get_or v j 0
get_or-behind [] v i j e = let e' : i ≡ j = omega arith in ap (λ n. get_or v n 0) e'
get_or-behind (c ∷ l) v zero j e = absurd (omega arith)
get_or-behind (c ∷ l) v (suc i) j e = get_or-behind l v i j (omega arith)

drop-behind : (l v : List ℕ) (i j : ℕ) → i ≡ length l + j → drop i (l ++ v) ≡ drop j v
drop-behind [] v i j e = let e' : i ≡ j = omega arith in ap (λ n. drop n v) e'
drop-behind (c ∷ l) v zero j e = absurd (omega arith)
drop-behind (c ∷ l) v (suc i) j e = drop-behind l v i j (omega arith)

if-append :
    (c : Bool) (x : List ℕ) (ys zs : List (List ℕ))
    → (if c then x ∷ (ys ++ zs) else ys ++ zs) ≡ (if c then x ∷ ys else ys) ++ zs
if-append true x ys zs = refl
if-append false x ys zs = refl

-- the dots behind the first one are those of the rest
parents_below-rest :
    (l v : List ℕ) (i j : ℕ)
    → All IsLabelByte l
    → i ≡ length l + 1 + j
    → parents_below (l ++ (b'.' ∷ v)) i ≡ parents_below v j ++ ((l ++ (b'.' ∷ v)) ∷ [])
unfolding parents_below
parents_below-rest l v zero j h e = absurd (omega arith)
parents_below-rest l v (suc i) zero h e =
    rw
      (
        get_or-behind l (b'.' ∷ v) i 0 (omega arith),
        drop-behind l (b'.' ∷ v) (i + 1) 1 (omega arith),
        parents_below-label l (b'.' ∷ v) i h (omega arith),
      )
      refl
parents_below-rest l v (suc i) (suc j) h e =
    rw
      (
        get_or-behind l (b'.' ∷ v) i (suc j) (omega arith),
        drop-behind l (b'.' ∷ v) (i + 1) (suc (j + 1)) (omega arith),
        parents_below-rest l v i j h (omega arith),
      )
      (if-append (get_or v j 0 == b'.') _ (parents_below v j) ((l ++ (b'.' ∷ v)) ∷ []))

parents_below-end :
    (l : List ℕ) (i : ℕ)
    → All IsLabelByte l
    → i ≡ length l + 1
    → parents_below (l ++ []) i ≡ (l ++ []) ∷ []
unfolding parents_below
parents_below-end l zero h e = absurd (omega arith)
parents_below-end l (suc i) h e =
    rw (get_or-behind l [] i 0 (omega arith)) (parents_below-label l [] i h (omega arith))

parents_below-joined :
    (l : List ℕ) (ls : List (List ℕ)) (i : ℕ)
    → All IsLabel (l ∷ ls)
    → i ≡ length (joined l ls) + 1
    → parents_below (joined l ls) i ≡ parents l ls
parents_below-joined l [] i good e =
    subst (λ u. parents_below u i ≡ u ∷ []) (append-nil l) (parents_below-end l i good.0.2 e)
parents_below-joined l (l' ∷ ls) i good e =
    parents_below-rest l (joined l' ls) i (length (joined l' ls) + 1) good.0.2
      (omega (arith, length-append l (b'.' ∷ joined l' ls)))
    ∙ ap (λ ps. ps ++ (joined l (l' ∷ ls) ∷ [])) (parents_below-joined l' ls _ good.1 refl)

dotted-joined : (l : List ℕ) (ls : List (List ℕ)) → dotted (l ∷ ls) ≡ joined l ls ++ (b'.' ∷ [])
dotted-joined l [] = refl
dotted-joined l (l' ∷ ls) =
    ap (λ d. l ++ (b'.' ∷ d)) (dotted-joined l' ls)
    ∙ sym (append_assoc l (b'.' ∷ joined l' ls) (b'.' ∷ []))

close_name-joined :
    (l : List ℕ) (ls : List (List ℕ)) → close_name (dotted (l ∷ ls)) ≡ joined l ls ++ (0 ∷ [])
unfolding close_name
close_name-joined l ls = rw (dotted-joined l ls) (
    let u = joined l ls in
    let n : length (u ++ (b'.' ∷ [])) - 1 ≡ length u = omega (arith, length-append u (b'.' ∷ [])) in
    rw (n, take-append u (b'.' ∷ [])) refl)

label-IsText : (l : List ℕ) → All IsLabelByte l → IsText l
label-IsText [] h = tt
label-IsText (c ∷ l) h = (h.0.0, label-IsText l h.1)

append-IsText : (l u : List ℕ) → IsText l → IsText u → IsText (l ++ u)
append-IsText [] u h g = g
append-IsText (c ∷ l) u h g = (h.0, append-IsText l u h.1 g)

joined-IsText : (l : List ℕ) (ls : List (List ℕ)) → All IsLabel (l ∷ ls) → IsText (joined l ls)
joined-IsText l [] good = label-IsText l good.0.2
joined-IsText l (l' ∷ ls) good =
    append-IsText l (b'.' ∷ joined l' ls) (label-IsText l good.0.2)
      ((omega arith), joined-IsText l' ls good.1)

module _ (jhash2 : List ℕ → ℕ → ℕ) (k : Kernel) (mem : Memory) where
  kadt_decoded-name :
      (acc skb : List ℕ) (opt : AdtOpt) (s : HSet (List ℕ))
      → 1 ≤ length acc
      → kadt_decoded jhash2 k mem adt_test (name acc) skb opt s
        ≡ run_adt jhash2 k mem adt_test (close_name acc) skb opt s
  unfolding kadt_decoded
  kadt_decoded-name [] skb opt s h = absurd (omega arith)
  kadt_decoded-name (c ∷ acc) skb opt s h = refl

  -- On a set that satisfies the invariant, a packet that holds at its offset a name of at most 255
  -- bytes, with at least one label, of labels of 1 to 63 bytes without NUL or dot, matches exactly
  -- if the domain or one of its parent domains is live in the set with counters that pass.
  pub matched-kadt :
      (l : List ℕ) (ls : List (List ℕ)) (skb rest : List ℕ) (opt : AdtOpt) {s : HSet (List ℕ)}
      → IsValid (domain_type jhash2) s
      → All IsLabel (l ∷ ls)
      → length (dotted (l ∷ ls)) ≤ max_domain_len
      → drop domain_offset skb ≡ wire (l ∷ ls) ++ rest
      → (kadt jhash2 k mem adt_test skb opt s).0
        ≡ matched
            (any_passes jhash2 k (kernel_ext skb opt s) opt.cmdflags s opt.mext (parents l ls))
  unfolding kadt run_adt
  matched-kadt l ls skb rest opt {s} valid good fits packet =
      let u = joined l ls in
      let n = length (u ++ (0 ∷ [])) in
      let e : n ≡ length u + 1 = length-append u (0 ∷ []) in
      let decoded : decode (length (drop domain_offset skb)) (drop domain_offset skb) []
          ≡ name (dotted (l ∷ ls)) =
        ap (λ p. decode (length p) p []) packet ∙ decode-wire (l ∷ ls) rest good fits in
      ap (λ d. (kadt_decoded jhash2 k mem adt_test d skb opt s).0) decoded
      ∙ ap (λ r. r.0)
          (kadt_decoded-name (dotted (l ∷ ls)) skb opt s
            (omega (arith, good.0.0, length-append l (b'.' ∷ dotted ls))))
      ∙ ap (λ text. (run_adt jhash2 k mem adt_test text skb opt s).0) (close_name-joined l ls)
      ∙ ap matched (
          matched-test_parents jhash2 k (kernel_ext skb opt s) opt.cmdflags u
            (joined-IsText l ls good) n (omega arith) zero_buffer opt.mext valid
          ∙ ap (any_passes jhash2 k (kernel_ext skb opt s) opt.cmdflags s opt.mext)
              (parents_below-joined l ls n good e))
