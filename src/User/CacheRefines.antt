-- ===== src/User/CacheRefines.antt =====
-- The cache of sets (lib/types.c) refines a map from names to types, under the calls that
-- `callback_error` of lib/session.c makes after the kernel has done a command.
use dset.Domain.Text.{text_eq}
use dset.Prelude.{
  ℕ, ◌<◌, ◌≡◌, ◌≢◌, inl, inr, refl, sym, ◌∙◌, true, Option, none, some, List, [], ◌∷◌,
  if◌then◌else◌, length, arith,
}
use mathlib.Core.Path.{subst}
use dset.Uapi.{Errno, Status, ok, err, max_name_len}
use dset.User.Cache.{
  Cached, unspec, find_cached, add_last, cache_add, unlink, cache_del, cache_rename, cache_swap,
}
use dset.User.CacheLaws.{
  IsDistinct, Unlinked, add_last-absent, find_cached-append, IsDistinct-append, unlink-Unlinked,
  rename_finds, rename-IsDistinct, rename_status,
}
use dset.User.CacheSwap.{Exchanged, swapped, swap-Exchanged}
use dset.User.Strings.{strlcpy_short}

-- the calls
pub data CacheCall (T : Type 0) : Type 0 where
  created : List ℕ → T → CacheCall T
  destroyed : List ℕ → CacheCall T
  destroyed_all : CacheCall T
  renamed swapped_with : List ℕ → List ℕ → CacheCall T

module _ {T : Type 0} where
  unfoldable pub run_call : CacheCall T → List (Cached T) → Status × List (Cached T)
  run_call (created name kind) cache = cache_add true name kind cache
  run_call (destroyed name) cache = cache_del (some name) cache
  run_call destroyed_all cache = cache_del none cache
  run_call (renamed from to) cache = cache_rename from to cache
  run_call (swapped_with from to) cache = cache_swap from to cache

  -- what a call means for the sets that exist
  abbrev pub meaning : CacheCall T → (List ℕ → Option T) → List ℕ → Option T
  meaning (created name kind) f q = if text_eq q name then some kind else f q
  meaning (destroyed name) f q = if text_eq q name then none else f q
  meaning destroyed_all f q = none
  meaning (renamed from to) f q =
      if text_eq q to then f from else if text_eq q from then none else f q
  meaning (swapped_with from to) f q = f (swapped from to q)

  -- the kernel does the command: names fit, the set is there or is not
  abbrev pub Possible : CacheCall T → (List ℕ → Option T) → Type 0
  Possible (created name kind) f = (length name < max_name_len) × (f name ≡ none)
  Possible (destroyed name) f = f name ≢ none
  Possible destroyed_all f = Unit {0}
  Possible (renamed from to) f = (length to < max_name_len) × (f from ≢ none) × (f to ≡ none)
  Possible (swapped_with from to) f =
      (length from < max_name_len) × (length to < max_name_len) × (f from ≢ none) × (f to ≢ none)

  -- the map that a cache stands for
  pub record Represents (cache : List (Cached T)) (f : List ℕ → Option T) : Type 0 where
    pub distinct : IsDistinct cache
    pub finds : (q : List ℕ) → find_cached q cache ≡ f q

  -- a call does what it means
  abbrev pub Simulates : CacheCall T → (List ℕ → Option T) → Status × List (Cached T) → Type 0
  Simulates c f r = (r.0 ≡ ok) × Represents r.1 (meaning c f)

  add-Simulates :
      (name : List ℕ) (kind : T) (f : List ℕ → Option T) (cache : List (Cached T))
      → length name < max_name_len
      → f name ≡ none
      → Represents cache f
      → Simulates (created name kind) f (cache_add true name kind cache)
  unfolding cache_add
  add-Simulates name kind f cache short new rep =
      subst (λ m. Simulates (created name kind) f (result (add_last name (entry m) cache)))
        (sym (strlcpy_short name max_name_len short))
        (subst (λ o. Simulates (created name kind) f (result o))
          (sym (add_last-absent name (entry name) cache absent))
          (
            refl,
            record {
              distinct = IsDistinct-append (entry name) cache absent rep.distinct;
              finds =
                  λ q. find_cached-append q (entry name) cache absent ∙ ground (arith, rep.finds q);
            },
          ))
    where
      entry : List ℕ → Cached T
      entry m = record { name = m; kind = kind; family = unspec }

      result : Option (List (Cached T)) → Status × List (Cached T)
      result o = elim o [ none ↦ (err Errno.eexist, cache) | some added ↦ (ok, added) ]

      absent : find_cached name cache ≡ none
      absent = rep.finds name ∙ new

  del-Simulates :
      (name : List ℕ) (f : List ℕ → Option T) (cache : List (Cached T))
      → f name ≢ none
      → Represents cache f
      → Simulates (destroyed name) f (cache_del (some name) cache)
  unfolding cache_del
  del-Simulates name f cache there rep =
      go (unlink name cache) (unlink-Unlinked name cache rep.distinct)
    where
      go :
          (o : Option (List (Cached T)))
          → Unlinked name cache o
          → Simulates
              (destroyed name)
              f
              (elim o [ none ↦ (err Errno.eexist, cache) | some left ↦ (ok, left) ])
      go none u = absurd (there (sym (rep.finds name) ∙ u))
      go (some left) (was, apart, u) =
          (refl, record { distinct = apart; finds = λ q. ground (arith, u q, rep.finds q) })

  rename-Simulates :
      (from to : List ℕ) (f : List ℕ → Option T) (cache : List (Cached T))
      → length to < max_name_len
      → f from ≢ none
      → f to ≡ none
      → Represents cache f
      → Simulates (renamed from to) f (cache_rename from to cache)
  rename-Simulates from to f cache short there new rep =
      let was : find_cached from cache ≢ none = λ e. there (sym (rep.finds from) ∙ e) in
      let free : find_cached to cache ≡ none = rep.finds to ∙ new in
      (
        rename_status from to cache was,
        record {
          distinct = rename-IsDistinct from to cache short rep.distinct was free;
          finds = λ q.
              rename_finds from to q cache short rep.distinct was free
              ∙ ground (arith, rep.finds q, rep.finds from);
        },
      )

  swap-Simulates :
      (from to : List ℕ) (f : List ℕ → Option T) (cache : List (Cached T))
      → Possible (swapped_with from to) f
      → Represents cache f
      → Simulates (swapped_with from to) f (cache_swap from to cache)
  swap-Simulates from to f cache (sf, st, was, were) rep =
      go (cache_swap from to cache) (swap-Exchanged from to cache sf st rep.distinct)
    where
      go :
          (r : Status × List (Cached T))
          → Exchanged from to cache r
          → Simulates (swapped_with from to) f r
      go (Status.ok, after) (apart, finds, _, _) =
          (refl, record { distinct = apart; finds = λ q. finds q ∙ rep.finds (swapped from to q) })
      go (Status.err e, after) (_, inl gone) = absurd (was (sym (rep.finds from) ∙ gone))
      go (Status.err e, after) (_, inr gone) = absurd (were (sym (rep.finds to) ∙ gone))
      go (Status.fault e, after) (_, inl gone) = absurd (was (sym (rep.finds from) ∙ gone))
      go (Status.fault e, after) (_, inr gone) = absurd (were (sym (rep.finds to) ∙ gone))

  run-Simulates :
      (c : CacheCall T) (f : List ℕ → Option T) (cache : List (Cached T))
      → Possible c f
      → Represents cache f
      → Simulates c f (run_call c cache)
  unfolding run_call cache_del find_cached
  run-Simulates (created name kind) f cache (short, new) rep =
      add-Simulates name kind f cache short new rep
  run-Simulates (destroyed name) f cache there rep = del-Simulates name f cache there rep
  run-Simulates destroyed_all f cache p rep = (refl, record { distinct = tt; finds = λ q. refl })
  run-Simulates (renamed from to) f cache (short, there, new) rep =
      rename-Simulates from to f cache short there new rep
  run-Simulates (swapped_with from to) f cache p rep = swap-Simulates from to f cache p rep

  -- a sequence of calls, on the cache and on the map
  unfoldable pub run_calls : List (CacheCall T) → List (Cached T) → List (Cached T)
  unfolding run_call
  run_calls [] cache = cache
  run_calls (c ∷ cs) cache = run_calls cs (run_call c cache).1

  abbrev pub meanings : List (CacheCall T) → (List ℕ → Option T) → List ℕ → Option T
  meanings [] f = f
  meanings (c ∷ cs) f = meanings cs (meaning c f)

  abbrev pub AllPossible : List (CacheCall T) → (List ℕ → Option T) → Type 0
  AllPossible [] f = Unit {0}
  AllPossible (c ∷ cs) f = Possible c f × AllPossible cs (meaning c f)

  -- From the empty cache, or any that stands for a map: after a sequence of calls, each for a
  -- command that is possible on the sets that exist then, the cache has no name twice, and a search
  -- finds in it what the commands mean for the map.
  pub run_calls-Represents :
      (cs : List (CacheCall T)) (f : List ℕ → Option T) (cache : List (Cached T))
      → AllPossible cs f
      → Represents cache f
      → Represents (run_calls cs cache) (meanings cs f)
  unfolding run_calls
  run_calls-Represents [] f cache p rep = rep
  run_calls-Represents (c ∷ cs) f cache (p, ps) rep =
      run_calls-Represents cs (meaning c f) (run_call c cache).1 ps
        (run-Simulates c f cache p rep).1
