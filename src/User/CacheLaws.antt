-- ===== src/User/CacheLaws.antt =====
-- The cache of sets as a map from names to types: what each operation does to it.
use dset.Domain.Text.{text_eq, text_eq_iff}
use dset.Prelude.{
  ℕ, ◌<◌, ◌≡◌, ◌≢◌, refl, false, Option, none, some, List, [], ◌∷◌, ◌++◌, if◌then◌else◌, if_cases,
  length, arith,
}
use dset.Uapi.{Status, ok, max_name_len}
use dset.User.Cache.{Cached, find_cached, add_last, unlink, cache_rename}
use dset.User.Strings.{strlcpy_short}

module _ {T : Type 0} where
  -- no two sets have one name
  abbrev pub IsDistinct : List (Cached T) → Type 0
  IsDistinct [] = Unit {0}
  IsDistinct (s ∷ rest) = (find_cached s.name rest ≡ none) × IsDistinct rest

  pub add_last-absent :
      (name : List ℕ) (n : Cached T) (cache : List (Cached T))
      → find_cached name cache ≡ none
      → add_last name n cache ≡ some (cache ++ n ∷ [])
  unfolding add_last find_cached
  add_last-absent name n [] h = refl
  add_last-absent name n (s ∷ []) h = refl
  add_last-absent name n (s ∷ t ∷ rest) h = ground (arith, add_last-absent name n (t ∷ rest))

  pub find_cached-append :
      (q : List ℕ) (n : Cached T) (cache : List (Cached T))
      → find_cached n.name cache ≡ none
      → find_cached q (cache ++ n ∷ [])
        ≡ (if text_eq q n.name then some n.kind else find_cached q cache)
  unfolding find_cached
  find_cached-append q n [] h = refl
  find_cached-append q n (s ∷ rest) h = ground (
    arith,
    find_cached-append q n rest,
    text_eq_iff q n.name,
    text_eq_iff q s.name,
    text_eq_iff n.name s.name,
  )

  pub IsDistinct-append :
      (n : Cached T) (cache : List (Cached T))
      → find_cached n.name cache ≡ none
      → IsDistinct cache
      → IsDistinct (cache ++ n ∷ [])
  unfolding find_cached
  IsDistinct-append n [] h d = (refl, tt)
  IsDistinct-append n (s ∷ rest) h d = (
    ground (
      arith,
      find_cached-append s.name n rest,
      text_eq_iff s.name n.name,
      text_eq_iff n.name s.name,
    ),
    IsDistinct-append n rest (ground arith) d.1,
  )

  -- removing the first set of a name
  abbrev pub Unlinked : List ℕ → List (Cached T) → Option (List (Cached T)) → Type 0
  Unlinked name cache none = find_cached name cache ≡ none
  Unlinked name cache (some left) =
      (find_cached name cache ≢ none)
      × IsDistinct left
      × ((q : List ℕ) → find_cached q left ≡ (if text_eq q name then none else find_cached q cache))

  pub unlink-Unlinked :
      (name : List ℕ) (cache : List (Cached T))
      → IsDistinct cache
      → Unlinked name cache (unlink name cache)
  unfolding unlink find_cached
  unlink-Unlinked name [] d = refl
  unlink-Unlinked name (s ∷ rest) d =
      if_cases (Unlinked name (s ∷ rest)) (text_eq s.name name)
        (λ h. (
          ground (arith, text_eq_iff s.name name, text_eq_iff name s.name),
          d.1,
          λ q. ground (arith, text_eq_iff s.name name, text_eq_iff q name, text_eq_iff q s.name),
        ))
        (λ h. after h (unlink name rest) (unlink-Unlinked name rest d.1))
    where
      after :
          text_eq s.name name ≡ false
          → (o : Option (List (Cached T))) → Unlinked name rest o
          → Unlinked name (s ∷ rest) (elim o [ none ↦ none | some left ↦ some (s ∷ left) ])
      after h none u = ground (arith, text_eq_iff name s.name, text_eq_iff s.name name)
      after h (some left) (was, apart, u) = (
        ground (arith, text_eq_iff name s.name, text_eq_iff s.name name),
        (ground (arith, u s.name), apart),
        λ q. ground (arith, u q, text_eq_iff q name, text_eq_iff q s.name, text_eq_iff s.name name),
      )

  -- giving the first set of a name another
  pub rename_finds :
      (from to q : List ℕ) (cache : List (Cached T))
      → length to < max_name_len
      → IsDistinct cache
      → find_cached from cache ≢ none
      → find_cached to cache ≡ none
      → find_cached q (cache_rename from to cache).1 ≡ (
          if text_eq q to
          then find_cached from cache
          else if text_eq q from
          then none
          else find_cached q cache)
  unfolding cache_rename find_cached
  rename_finds from to q [] short d was new = absurd (was refl)
  rename_finds from to q (s ∷ rest) short d was new =
      if_cases {A = Status × List (Cached T)}
        (λ r. find_cached q r.1 ≡ (
          if text_eq q to
          then find_cached from (s ∷ rest)
          else if text_eq q from
          then none
          else find_cached q (s ∷ rest)))
        (text_eq s.name from)
        (λ h. ground (
          arith,
          strlcpy_short to max_name_len short,
          text_eq_iff s.name from,
          text_eq_iff from s.name,
          text_eq_iff q from,
          text_eq_iff q s.name,
        ))
        (λ h. ground (
          arith,
          rename_finds from to q rest short d.1,
          text_eq_iff s.name from,
          text_eq_iff from s.name,
          text_eq_iff to s.name,
          text_eq_iff q to,
          text_eq_iff q from,
          text_eq_iff q s.name,
        ))

  pub rename-IsDistinct :
      (from to : List ℕ) (cache : List (Cached T))
      → length to < max_name_len
      → IsDistinct cache
      → find_cached from cache ≢ none
      → find_cached to cache ≡ none
      → IsDistinct (cache_rename from to cache).1
  unfolding cache_rename find_cached
  rename-IsDistinct from to [] short d was new = tt
  rename-IsDistinct from to (s ∷ rest) short d was new =
      if_cases {A = Status × List (Cached T)} (λ r. IsDistinct r.1) (text_eq s.name from)
        (λ h. (ground (arith, strlcpy_short to max_name_len short, text_eq_iff to s.name), d.1))
        (λ h. (
          ground (
            arith,
            rename_finds from to s.name rest short d.1,
            text_eq_iff s.name from,
            text_eq_iff from s.name,
            text_eq_iff to s.name,
            text_eq_iff s.name to,
          ),
          rename-IsDistinct from to rest short d.1
              (ground (arith, text_eq_iff s.name from, text_eq_iff from s.name)) (ground (arith)),
        ))

  pub rename_status :
      (from to : List ℕ) (cache : List (Cached T))
      → find_cached from cache ≢ none
      → (cache_rename from to cache).0 ≡ ok
  unfolding cache_rename find_cached
  rename_status from to [] was = absurd (was refl)
  rename_status from to (s ∷ rest) was =
      ground (arith, rename_status from to rest, text_eq_iff s.name from, text_eq_iff from s.name)
