-- ===== src/User/CacheSwap.antt =====
-- `dset_cache_swap` (lib/types.c) on a cache without two sets of one name: the two sets exchange
-- their names.
use dset.Domain.Text.{text_eq, text_eq_iff, text_eq_refl}
use dset.Prelude.{
  ℕ, suc, ◌<◌, ◌↔◌, ◌⊎◌, inl, inr, Bool-cases, ◌≡◌, ◌≢◌, refl, sym, ap, ◌∙◌, false, Option, none,
  some, List, [], ◌∷◌, if◌then◌else◌, length, map, arith,
}
use mathlib.Core.Path.{subst}
use dset.Uapi.{Errno, Status, ok, err, max_name_len}
use dset.User.Cache.{Cached, find_cached, find_two, point, name_at, cache_swap}
use dset.User.CacheLaws.{IsDistinct}
use dset.User.Strings.{strlcpy_short}

-- the name that a set of this name has after the swap
abbrev pub swapped : List ℕ → List ℕ → List ℕ → List ℕ
swapped from to q = if text_eq q from then to else if text_eq q to then from else q

swapped_twice :
    (from to q n : List ℕ) → text_eq q (swapped from to n) ≡ text_eq (swapped from to q) n
swapped_twice from to q n = ground (
  arith,
  text_eq_iff q from,
  text_eq_iff q to,
  text_eq_iff q n,
  text_eq_iff n from,
  text_eq_iff n to,
  text_eq_iff from n,
  text_eq_iff to n,
  text_eq_iff from to,
  text_eq_iff to from,
)

swapped_back : (from to q : List ℕ) → swapped from to (swapped from to q) ≡ q
swapped_back from to q = ground (
  arith,
  text_eq_iff q from,
  text_eq_iff q to,
  text_eq_refl from,
  text_eq_refl to,
  text_eq_iff to from,
)

-- the place of the first set of a name, counted from `i`
unfoldable place : {T : Type 0} → List ℕ → ℕ → List (Cached T) → Option ℕ
place name i [] = none
place name i (s ∷ rest) = if text_eq s.name name then some i else place name (suc i) rest

abbrev both : Option ℕ → Option ℕ → Option (ℕ × ℕ)
both none b = none
both (some a) none = none
both (some a) (some b) = some (a, b)

abbrev or_place : Option ℕ → Option ℕ → Option ℕ
or_place none o = o
or_place (some a) o = some a

abbrev shift : Option ℕ → Option ℕ
shift none = none
shift (some i) = some (suc i)

module _ {T : Type 0} where
  abbrev renamed_to : List ℕ → Cached T → Cached T
  renamed_to name s = record s { name = name }

  -- the cache after the swap, set by set
  abbrev exchanged : List ℕ → List ℕ → List (Cached T) → List (Cached T)
  exchanged from to cache = map (λ s. renamed_to (swapped from to s.name) s) cache

  find_two-place :
      (from to : List ℕ) (i : ℕ) (a b : Option ℕ) (cache : List (Cached T))
      → find_two from to i a b cache
        ≡ both (or_place a (place from i cache)) (or_place b (place to i cache))
  unfolding find_two place
  find_two-place from to i (some a) (some b) cache = refl
  find_two-place from to i none none [] = refl
  find_two-place from to i none (some b) [] = refl
  find_two-place from to i (some a) none [] = refl
  find_two-place from to i none none (s ∷ rest) =
      ground (arith, find_two-place from to (suc i) (point none from i s) (point none to i s) rest)
  find_two-place from to i none (some b) (s ∷ rest) =
      ground (arith, find_two-place from to (suc i) (point none from i s) (some b) rest)
  find_two-place from to i (some a) none (s ∷ rest) =
      ground (arith, find_two-place from to (suc i) (some a) (point none to i s) rest)

  name_at-cons :
      (j : ℕ) (name : List ℕ) (s : Cached T) (rest : List (Cached T))
      → name_at (suc j) name (s ∷ rest) ≡ s ∷ name_at j name rest
  unfolding name_at
  name_at-cons j name s rest = ground arith

  place-suc :
      (name : List ℕ) (i : ℕ) (cache : List (Cached T))
      → place name (suc i) cache ≡ shift (place name i cache)
  unfolding place
  place-suc name i [] = refl
  place-suc name i (s ∷ rest) = ground (arith, place-suc name (suc i) rest)

  -- renaming no set
  map-absent :
      (x y : List ℕ) (g : List ℕ → List ℕ) (cache : List (Cached T))
      → ((n : List ℕ) → text_eq n x ≡ false → text_eq n y ≡ false → g n ≡ n)
      → find_cached x cache ≡ none
      → find_cached y cache ≡ none
      → map (λ s. renamed_to (g s.name) s) cache ≡ cache
  unfolding find_cached
  map-absent x y g [] keeps no_x no_y = refl
  map-absent x y g (s ∷ rest) keeps no_x no_y =
      let same : g s.name ≡ s.name =
        keeps s.name (ground (arith, text_eq_iff s.name x, text_eq_iff x s.name))
          (ground (arith, text_eq_iff s.name y, text_eq_iff y s.name)) in
      ap (λ n. renamed_to n s ∷ map (λ t. renamed_to (g t.name) t) rest) same
      ∙ ap (◌∷◌ s) (map-absent x y g rest keeps (ground arith) (ground arith))

  place-cases :
      (name : List ℕ) (s : Cached T) (rest : List (Cached T)) (j : ℕ)
      → place name 0 (s ∷ rest) ≡ some j
      → ((s.name ≡ name) × (j ≡ 0))
        ⊎ ((text_eq s.name name ≡ false) × ((i : ℕ) × (place name 0 rest ≡ some i) × (j ≡ suc i)))
  place-cases name s rest j at = elim (Bool-cases (text_eq s.name name)) [
    | inl h ↦ inl ((text_eq_iff s.name name).0 h, unfold place in ground (arith, h))
    | inr h ↦
        inr (
          h,
          after (place name 0 rest) refl (unfold place in ground (arith, place-suc name 0 rest)),
        )
  ]
    where
      after :
          (o : Option ℕ)
          → place name 0 rest ≡ o
          → shift o ≡ some j
          → (i : ℕ) × (place name 0 rest ≡ some i) × (j ≡ suc i)
      after none e h = cc
      after (some i) e h = (i, e, ground arith)

  name_at_zero :
      (name : List ℕ) (s : Cached T) (rest : List (Cached T))
      → length name < max_name_len
      → name_at 0 name (s ∷ rest) ≡ renamed_to name s ∷ rest
  unfolding name_at
  name_at_zero name s rest short = rw (strlcpy_short name max_name_len short) refl

  -- renaming the one set `x` to a name that no set has
  name_at-alone :
      (x y : List ℕ) (g : List ℕ → List ℕ) (cache : List (Cached T)) (j : ℕ)
      → length y < max_name_len
      → ((n : List ℕ) → text_eq n x ≡ false → text_eq n y ≡ false → g n ≡ n)
      → g x ≡ y
      → IsDistinct cache
      → find_cached y cache ≡ none
      → place x 0 cache ≡ some j
      → name_at j y cache ≡ map (λ s. renamed_to (g s.name) s) cache
  unfolding find_cached place
  name_at-alone x y g [] j short keeps goes d no_y at = cc
  name_at-alone x y g (s ∷ rest) j short keeps goes d no_y at = elim (place-cases x s rest j at) [
    | inl (here, e) ↦
        ap (λ i. name_at i y (s ∷ rest)) e
        ∙ name_at_zero y s rest short
        ∙ ap (◌∷◌ (renamed_to y s))
            (sym (map-absent x y g rest keeps (rw (sym here) d.0) (ground arith)))
        ∙ ap (λ n. renamed_to n s ∷ map (λ t. renamed_to (g t.name) t) rest)
            (sym (ap g here ∙ goes))
    | inr (far, (i, later, e)) ↦ rw e (
        name_at-cons i y s rest
        ∙ ap (◌∷◌ s) (name_at-alone x y g rest i short keeps goes d.1 (ground arith) later)
        ∙ ap (λ n. renamed_to n s ∷ map (λ t. renamed_to (g t.name) t) rest)
            (sym (keeps s.name far (ground (arith, text_eq_iff s.name y, text_eq_iff y s.name)))))
  ]

  -- the second of two renamings, of the set that was called `y` before the first
  renamed_both :
      (from to : List ℕ) (cache : List (Cached T)) (a b : ℕ)
      → length from < max_name_len
      → length to < max_name_len
      → IsDistinct cache
      → place from 0 cache ≡ some a
      → place to 0 cache ≡ some b
      → name_at b from (name_at a to cache) ≡ exchanged from to cache
  unfolding find_cached place
  renamed_both from to [] a b sf st d at_a at_b = cc
  renamed_both from to (s ∷ rest) a b sf st d at_a at_b =
      go (λ i j. renamed_both from to rest i j sf st d.1) (place-cases from s rest a at_a)
        (place-cases to s rest b at_b)
    where
      keeps : (n : List ℕ) → text_eq n from ≡ false → text_eq n to ≡ false → swapped from to n ≡ n
      keeps n f t = ground arith

      others : (n : List ℕ) → text_eq n to ≡ false → text_eq n from ≡ false → swapped from to n ≡ n
      others n t f = ground arith

      moved :
          {i j : ℕ}
          → a ≡ i
          → b ≡ j
          → name_at b from (name_at a to (s ∷ rest)) ≡ name_at j from (name_at i to (s ∷ rest))
      moved {i} {j} e f =
          ap (λ n. name_at b from (name_at n to (s ∷ rest))) e
          ∙ ap (λ n. name_at n from (name_at i to (s ∷ rest))) f

      named :
          {n : List ℕ}
          → n ≡ swapped from to s.name
          → renamed_to n s ∷ exchanged from to rest ≡ exchanged from to (s ∷ rest)
      named e = ap (λ n. renamed_to n s ∷ exchanged from to rest) e

      go :
          ((i j : ℕ)
            → place from 0 rest ≡ some i
            → place to 0 rest ≡ some j
            → name_at j from (name_at i to rest) ≡ exchanged from to rest)
          → (((s.name ≡ from) × (a ≡ 0))
              ⊎ ((text_eq s.name from ≡ false)
                  × ((i : ℕ) × (place from 0 rest ≡ some i) × (a ≡ suc i))))
          → (((s.name ≡ to) × (b ≡ 0))
              ⊎ ((text_eq s.name to ≡ false)
                  × ((i : ℕ) × (place to 0 rest ≡ some i) × (b ≡ suc i))))
          → name_at b from (name_at a to (s ∷ rest)) ≡ exchanged from to (s ∷ rest)
      go again (inl (f, ea)) (inl (t, eb)) =
          moved ea eb
          ∙ ap (name_at 0 from) (name_at_zero to s rest st)
          ∙ name_at_zero from (renamed_to to s) rest sf
          ∙ ap (◌∷◌ (renamed_to from s)) (
              sym
                (map-absent from to (swapped from to) rest keeps (rw (sym f) d.0) (rw (sym t) d.0)))
          ∙ named (ground (arith, text_eq_iff s.name from))
      go again (inl (f, ea)) (inr (t, (j, later, eb))) =
          moved ea eb
          ∙ ap (name_at (suc j) from) (name_at_zero to s rest st)
          ∙ name_at-cons j from (renamed_to to s) rest
          ∙ ap (◌∷◌ (renamed_to to s)) (
              name_at-alone to from (swapped from to) rest j sf others
                (ground (arith, text_eq_iff to from, text_eq_refl to)) d.1 (rw (sym f) d.0) later)
          ∙ named (ground (arith, text_eq_iff s.name from))
      go again (inr (f, (i, sooner, ea))) (inl (t, eb)) =
          moved ea eb
          ∙ ap (name_at 0 from) (name_at-cons i to s rest)
          ∙ name_at_zero from s (name_at i to rest) sf
          ∙ ap (◌∷◌ (renamed_to from s)) (
              name_at-alone from to (swapped from to) rest i st keeps
                (ground (arith, text_eq_refl from)) d.1 (rw (sym t) d.0) sooner)
          ∙ named (ground (arith, text_eq_iff s.name to))
      go again (inr (f, (i, sooner, ea))) (inr (t, (j, later, eb))) =
          moved ea eb
          ∙ ap (name_at (suc j) from) (name_at-cons i to s rest)
          ∙ name_at-cons j from s (name_at i to rest)
          ∙ ap (◌∷◌ s) (again i j sooner later)
          ∙ named (sym (keeps s.name f t))

  find-exchanged :
      (from to q : List ℕ) (cache : List (Cached T))
      → find_cached q (exchanged from to cache) ≡ find_cached (swapped from to q) cache
  unfolding find_cached
  find-exchanged from to q [] = refl
  find-exchanged from to q (s ∷ rest) =
      ground (arith, swapped_twice from to q s.name, find-exchanged from to q rest)

  exchanged-IsDistinct :
      (from to : List ℕ) (cache : List (Cached T))
      → IsDistinct cache
      → IsDistinct (exchanged from to cache)
  exchanged-IsDistinct from to [] d = tt
  exchanged-IsDistinct from to (s ∷ rest) d = (
    find-exchanged from to (swapped from to s.name) rest
        ∙ ap (λ n. find_cached n rest) (swapped_back from to s.name)
        ∙ d.0,
    exchanged-IsDistinct from to rest d.1,
  )

  place-none :
      (name : List ℕ) (i : ℕ) (cache : List (Cached T))
      → (place name i cache ≡ none) ↔ (find_cached name cache ≡ none)
  unfolding place find_cached
  place-none name i [] = (λ _. refl, λ _. refl)
  place-none name i (s ∷ rest) =
      ground (arith, place-none name (suc i) rest, text_eq_iff s.name name, text_eq_iff name s.name)

  -- two sets exchange their names; a missing set is an error
  abbrev pub Exchanged : List ℕ → List ℕ → List (Cached T) → Status × List (Cached T) → Type 0
  Exchanged from to cache (Status.ok, after) =
      IsDistinct after
      × ((q : List ℕ) → find_cached q after ≡ find_cached (swapped from to q) cache)
      × (find_cached from cache ≢ none)
      × (find_cached to cache ≢ none)
  Exchanged from to cache (e, after) =
      (after ≡ cache) × ((find_cached from cache ≡ none) ⊎ (find_cached to cache ≡ none))

  -- In a cache without two sets of one name, swapping two names that fit in their buffers exchanges the
  -- names of the two sets, and a search finds every other set as before; if one of the names has no set,
  -- an error is returned and the cache is as it was.
  pub swap-Exchanged :
      (from to : List ℕ) (cache : List (Cached T))
      → length from < max_name_len
      → length to < max_name_len
      → IsDistinct cache
      → Exchanged from to cache (cache_swap from to cache)
  unfolding cache_swap
  swap-Exchanged from to cache sf st d =
      subst
        (λ r. Exchanged from to cache (elim r [
          | none ↦ (err Errno.eexist, cache)
          | some (a, b) ↦ (ok, name_at b from (name_at a to cache))
        ]))
        (sym (find_two-place from to 0 none none cache))
        (go (place from 0 cache) (place to 0 cache) refl refl)
    where
      go :
          (o p : Option ℕ)
          → place from 0 cache ≡ o
          → place to 0 cache ≡ p
          → Exchanged from to cache (elim (both o p) [
            | none ↦ (err Errno.eexist, cache)
            | some (a, b) ↦ (ok, name_at b from (name_at a to cache))
          ])
      go none p e f = (refl, inl ((place-none from 0 cache).0 e))
      go (some a) none e f = (refl, inr ((place-none to 0 cache).0 f))
      go (some a) (some b) e f = rw (renamed_both from to cache a b sf st d e f) (
        exchanged-IsDistinct from to cache d,
        λ q. find-exchanged from to q cache,
        λ gone. ground (arith, (place-none from 0 cache).1 gone),
        λ gone. ground (arith, (place-none to 0 cache).1 gone),
      )
