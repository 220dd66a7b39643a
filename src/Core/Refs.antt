-- ===== src/Core/Refs.antt =====
-- References to sets: `__domain_set_get`, `__domain_set_put`, `domain_set_nfnl_get_byindex`,
-- `domain_set_nfnl_put`, and the life of the array in `domain_set_net_init` and
-- `domain_set_net_exit` (kernel/net/netfilter/dset/domain_set_core.c).
use dset.Core.Sets.{DomainSet, Net, set_at}
use dset.Prelude.{
  ℕ, ◌-◌, ◌%◌, ◌^◌, Bool, true, false, Option, none, some, if◌then◌else◌, leb, ◌==◌, length, map,
  replicate, set, add32, sub32,
}
use dset.Uapi.{Status, ok, fault, bug_on, invalid_id}

module _ {D : Type 0} where
  -- `__domain_set_get`
  abbrev pub get_ref : DomainSet D → DomainSet D
  get_ref s = record s { ref = add32 s.ref 1 }

  unfoldable pub get_found : Net D → ℕ → Option (DomainSet D) → ℕ × Net D
  get_found inst i none = (invalid_id, inst)
  get_found inst i (some s) = (i, record inst { sets = set inst.sets i (some (get_ref s)) })

  -- `domain_set_nfnl_get_byindex`: the index, or DSET_INVALID_ID
  unfoldable pub nfnl_get_byindex : Net D → ℕ → ℕ × Net D
  unfolding get_found
  nfnl_get_byindex inst i =
      if leb (length inst.sets) i then (invalid_id, inst) else get_found inst i (set_at inst.sets i)

  -- `__domain_set_put`, with its `BUG_ON`
  unfoldable pub put_found : Net D → ℕ → Option (DomainSet D) → Status × Net D
  put_found inst i none = (ok, inst)
  put_found inst i (some s) =
      if s.ref == 0
      then (fault bug_on, inst)
      else (ok, record inst { sets = set inst.sets i (some (record s { ref = sub32 s.ref 1 })) })

  -- `domain_set_nfnl_put`
  unfoldable pub nfnl_put : Net D → ℕ → Status × Net D
  unfolding put_found
  nfnl_put inst i = if inst.is_deleted then (ok, inst) else put_found inst i (set_at inst.sets i)

  -- `domain_set_net_init`; `max_sets` is the module parameter and `config_max` the build's
  -- default; the field is a u16. `alloc` is the answer of `kvcalloc`, `none` is ENOMEM.
  unfoldable pub net_init : Bool → ℕ → ℕ → Option (Net D)
  net_init alloc max_sets config_max =
      let max = (if max_sets == 0 then config_max else max_sets) % 2 ^ 16 in
      if alloc
      then some (record {
        sets = replicate (if leb invalid_id max then invalid_id - 1 else max) none;
        is_deleted = false;
        is_destroyed = false;
      })
      else none

  -- `domain_set_net_exit`: every set is destroyed, and later puts do nothing
  unfoldable pub net_exit : Net D → Net D
  net_exit inst = record inst { sets = map (λ _. none) inst.sets; is_deleted = true }
