-- ===== src/User/Cache.antt =====
-- The cache of the sets that exist in the kernel (lib/types.c): `dset_cache_add`, `dset_cache_del`,
-- `dset_cache_rename`, `dset_cache_swap`, `dset_cache_fini`, and the search of `adt_type_get`.
use dset.Domain.Text.{text_eq}
use dset.Prelude.{
  ℕ, suc, Bool, not, Option, none, some, List, [], ◌∷◌, if◌then◌else◌, get_elem?, set,
}
use dset.Uapi.{Errno, Status, ok, err, max_name_len}
use dset.User.Strings.{strlcpy}

-- `struct dset`; a type of type `T` stands for the pointer to it
pub record Cached (T : Type 0) : Type 0 where
  pub name : List ℕ
  pub kind : T
  pub family : ℕ

-- NFPROTO_UNSPEC
abbrev pub unspec : ℕ
unspec = 0

module _ {T : Type 0} where
  -- the loop of `adt_type_get` over `setlist`
  unfoldable pub find_cached : List ℕ → List (Cached T) → Option T
  find_cached name [] = none
  find_cached name (s ∷ rest) = if text_eq name s.name then some s.kind else find_cached name rest

  -- the loop of `dset_cache_add`, which stops at the last set and compares the ones before it;
  -- `none` is -EEXIST
  unfoldable pub add_last : List ℕ → Cached T → List (Cached T) → Option (List (Cached T))
  add_last name n [] = some (n ∷ [])
  add_last name n (s ∷ []) = some (s ∷ n ∷ [])
  add_last name n (s ∷ t ∷ rest) =
      let added = add_last name n (t ∷ rest) in
      if text_eq name s.name then none else elim added [ none ↦ none | some more ↦ some (s ∷ more) ]

  -- `alloc` is the answer of `malloc`
  unfoldable pub cache_add : Bool → List ℕ → T → List (Cached T) → Status × List (Cached T)
  unfolding add_last
  cache_add alloc name kind cache =
      let n : Cached T = record {
        name = strlcpy name max_name_len;
        kind = kind;
        family = unspec;
      } in
      if not alloc then (err Errno.enomem, cache) else elim (add_last name n cache) [
        | none ↦ (err Errno.eexist, cache)
        | some added ↦ (ok, added)
      ]

  -- the second loop of `dset_cache_del`: the first set of the name is unlinked
  unfoldable pub unlink : List ℕ → List (Cached T) → Option (List (Cached T))
  unlink name [] = none
  unlink name (s ∷ rest) =
      let more = unlink name rest in
      if text_eq s.name name
      then some rest
      else elim more [ none ↦ none | some left ↦ some (s ∷ left) ]

  -- without a name the cache is emptied
  unfoldable pub cache_del : Option (List ℕ) → List (Cached T) → Status × List (Cached T)
  unfolding unlink
  cache_del none cache = (ok, [])
  cache_del (some name) cache = elim (unlink name cache) [
    | none ↦ (err Errno.eexist, cache)
    | some left ↦ (ok, left)
  ]

  unfoldable pub cache_rename : List ℕ → List ℕ → List (Cached T) → Status × List (Cached T)
  cache_rename from to [] = (err Errno.eexist, [])
  cache_rename from to (s ∷ rest) =
      let more = cache_rename from to rest in
      if text_eq s.name from
      then (ok, record s { name = strlcpy to max_name_len } ∷ rest)
      else (more.0, s ∷ more.1)

  -- one of the two pointers `a` and `b` of `dset_cache_swap`, the place of the set it points to
  abbrev pub point : Option ℕ → List ℕ → ℕ → Cached T → Option ℕ
  point none name i s = if text_eq s.name name then some i else none
  point (some j) name i s = some j

  -- the loop of `dset_cache_swap`, from place `i` on
  unfoldable pub find_two :
      List ℕ → List ℕ → ℕ → Option ℕ → Option ℕ → List (Cached T) → Option (ℕ × ℕ)
  find_two from to i (some a) (some b) cache = some (a, b)
  find_two from to i a b [] = none
  find_two from to i a b (s ∷ rest) =
      find_two from to (suc i) (point a from i s) (point b to i s) rest

  -- `dset_strlcpy` to the name of the set at a place
  unfoldable pub name_at : ℕ → List ℕ → List (Cached T) → List (Cached T)
  name_at i name cache = elim (get_elem? cache i) [
    | none ↦ cache
    | some s ↦ set cache i (record s { name = strlcpy name max_name_len })
  ]

  unfoldable pub cache_swap : List ℕ → List ℕ → List (Cached T) → Status × List (Cached T)
  unfolding find_two name_at
  cache_swap from to cache = elim (find_two from to 0 none none cache) [
    | none ↦ (err Errno.eexist, cache)
    | some (a, b) ↦ (ok, name_at b from (name_at a to cache))
  ]

  -- `dset_cache_fini`
  unfoldable pub cache_fini : List (Cached T) → List (Cached T)
  cache_fini [] = []
  cache_fini (s ∷ rest) = cache_fini rest
