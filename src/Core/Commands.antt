-- ===== src/Core/Commands.antt =====
-- The commands that change the array of sets: create, destroy, flush, rename, swap
-- (kernel/net/netfilter/dset/domain_set_core.c). They are serialised by the nfnl mutex, so each is
-- one step.
use dset.Core.Sets.{
  DomainSet, Net, names_set, find_set_and_id, FreeId, free, clash, no_room, find_free,
}
use dset.Core.Types.{name_eq}
use dset.Prelude.{
  ℕ, ◌+◌, ◌%◌, ◌^◌, Bool, true, false, not, ◌&&◌, ◌||◌, Option, none, some, List, [], ◌∷◌, ◌++◌,
  if◌then◌else◌, ltb, ◌==◌, length, map, replicate, set, take,
}
use dset.Uapi.{Errno, Status, ok, err, invalid_id, max_name_len, protocol_min_version}

-- DOMAIN_SET_INC
abbrev pub domain_set_inc : ℕ
domain_set_inc = 64

-- `protocol_min_failed`, on DSET_ATTR_PROTOCOL
abbrev pub protocol_min_failed : Option ℕ → Bool
protocol_min_failed none = true
protocol_min_failed (some v) = ltb v protocol_min_version

-- two names, as rename and swap want them
abbrev pub both : Option (List ℕ) → Option (List ℕ) → Option (List ℕ × List ℕ)
both (some a) (some b) = some (a, b)
both _ _ = none

module _ {D : Type 0} where
  -- a new set is refused: the clash is ignored if it is the same set and that was asked for
  unfoldable pub create_clash :
      (DomainSet D → DomainSet D → Bool) → Bool → DomainSet D → DomainSet D → Status
  create_clash same_set flag_exist s other =
      if flag_exist
        && name_eq s.kind.name other.kind.name
        && s.kind.family == other.kind.family
        && s.kind.revision_min == other.kind.revision_min
        && s.kind.revision_max == other.kind.revision_max
        && same_set s other
      then ok
      else err Errno.eexist

  -- no index is free: the array grows by DOMAIN_SET_INC, in u16; `alloc` is the answer of
  -- `kvcalloc`
  unfoldable pub create_grow : Net D → Bool → DomainSet D → Status × Net D
  create_grow inst alloc s =
      let old = length inst.sets in
      let i = (old + domain_set_inc) % 2 ^ 16 in
      if ltb i old || i == invalid_id || not alloc then (err Errno.max_sets, inst) else (
        ok,
        record inst { sets = set (inst.sets ++ replicate domain_set_inc none) old (some s) },
      )

  unfoldable pub create_placed :
      (DomainSet D → DomainSet D → Bool)
      → Bool
      → Net D
      → Bool
      → DomainSet D
      → FreeId D
      → Status × Net D
  unfolding create_clash create_grow
  create_placed same_set flag_exist inst alloc s (free i) =
      (ok, record inst { sets = set inst.sets i (some s) })
  create_placed same_set flag_exist inst alloc s (clash other) =
      (create_clash same_set flag_exist s other, inst)
  create_placed same_set flag_exist inst alloc s no_room = create_grow inst alloc s

  -- `domain_set_create` from the point where the set is constructed; its name was cut by `strlcpy`
  unfoldable pub create_constructed :
      (DomainSet D → DomainSet D → Bool) → Bool → Net D → Bool → DomainSet D → Status × Net D
  unfolding create_placed
  create_constructed same_set flag_exist inst alloc s =
      create_placed same_set flag_exist inst alloc s (find_free s.name 0 none inst.sets)

  abbrev pub in_use : Option (DomainSet D) → Bool
  in_use none = false
  in_use (some s) = not (s.ref == 0) || not (s.ref_netlink == 0)

  unfoldable pub any_in_use : List (Option (DomainSet D)) → Bool
  any_in_use [] = false
  any_in_use (o ∷ rest) = in_use o || any_in_use rest

  unfoldable pub destroy_one : Net D → Option (ℕ × DomainSet D) → Status × Net D
  destroy_one inst none = (err Errno.enoent, inst)
  destroy_one inst (some (i, s)) =
      if in_use (some s)
      then (err Errno.busy, inst)
      else (ok, record inst { sets = set inst.sets i none })

  -- without a name all the sets are destroyed, or none
  unfoldable pub destroy_named : Net D → Option (List ℕ) → Status × Net D
  unfolding any_in_use destroy_one
  destroy_named inst none =
      if any_in_use inst.sets
      then (err Errno.busy, inst)
      else (ok, record inst { sets = map (λ _. none) inst.sets; is_destroyed = false })
  destroy_named inst (some name) = destroy_one inst (find_set_and_id inst name)

  -- `domain_set_destroy`
  unfoldable pub destroy : Net D → Option ℕ → Option (List ℕ) → Status × Net D
  unfolding destroy_named
  destroy inst protocol name =
      if protocol_min_failed protocol then (err Errno.protocol, inst) else destroy_named inst name

  abbrev pub flush_set : (D → D) → Option (DomainSet D) → Option (DomainSet D)
  flush_set flush none = none
  flush_set flush (some s) = some (record s { content = flush s.content })

  unfoldable pub flush_one : (D → D) → Net D → Option (ℕ × DomainSet D) → Status × Net D
  flush_one flush inst none = (err Errno.enoent, inst)
  flush_one flush inst (some (i, s)) =
      (ok, record inst { sets = set inst.sets i (flush_set flush (some s)) })

  unfoldable pub flush_named : (D → D) → Net D → Option (List ℕ) → Status × Net D
  unfolding flush_one
  flush_named flush inst none = (ok, record inst { sets = map (flush_set flush) inst.sets })
  flush_named flush inst (some name) = flush_one flush inst (find_set_and_id inst name)

  -- `domain_set_flush`; `flush` is the type's own
  unfoldable pub flush_sets : (D → D) → Net D → Option ℕ → Option (List ℕ) → Status × Net D
  unfolding flush_named
  flush_sets flush inst protocol name =
      if protocol_min_failed protocol
      then (err Errno.protocol, inst)
      else flush_named flush inst name

  unfoldable pub any_named : List ℕ → List (Option (DomainSet D)) → Bool
  any_named name [] = false
  any_named name (o ∷ rest) = names_set name o || any_named name rest

  unfoldable pub rename_found : Net D → List ℕ → Option (ℕ × DomainSet D) → Status × Net D
  unfolding any_named
  rename_found inst name2 none = (err Errno.enoent, inst)
  rename_found inst name2 (some (i, s)) =
      if in_use (some s)
      then (err Errno.referenced, inst)
      else if any_named name2 inst.sets
      then (err Errno.exist_setname2, inst)
      else (
        ok,
        record inst { sets = set inst.sets i (some (record s { name = take max_name_len name2 })) },
      )

  unfoldable pub rename_both : Net D → Option ℕ → Option (List ℕ × List ℕ) → Status × Net D
  unfolding rename_found
  rename_both inst protocol none = (err Errno.protocol, inst)
  rename_both inst protocol (some (a, b)) =
      if protocol_min_failed protocol
      then (err Errno.protocol, inst)
      else rename_found inst b (find_set_and_id inst a)

  -- `domain_set_rename`
  unfoldable pub rename : Net D → Option ℕ → Option (List ℕ) → Option (List ℕ) → Status × Net D
  unfolding rename_both
  rename inst protocol name1 name2 = rename_both inst protocol (both name1 name2)

  -- the two sets change places, and their names and references
  unfoldable pub swap_sets : Net D → ℕ → DomainSet D → ℕ → DomainSet D → Status × Net D
  swap_sets inst i from j to =
      if not (from.kind.features == to.kind.features && from.family == to.family)
      then (err Errno.type_mismatch, inst)
      else if not (from.ref_netlink == 0) || not (to.ref_netlink == 0)
      then (err Errno.ebusy, inst)
      else (
        ok,
        record inst {
          sets =
              set (set inst.sets i (some (record to { name = from.name; ref = from.ref }))) j
                (some (record from { name = to.name; ref = to.ref }));
        },
      )

  unfoldable pub swap_found :
      Net D → Option (ℕ × DomainSet D) → Option (ℕ × DomainSet D) → Status × Net D
  unfolding swap_sets
  swap_found inst none to = (err Errno.enoent, inst)
  swap_found inst (some (i, from)) none = (err Errno.exist_setname2, inst)
  swap_found inst (some (i, from)) (some (j, to)) = swap_sets inst i from j to

  unfoldable pub swap_both : Net D → Option ℕ → Option (List ℕ × List ℕ) → Status × Net D
  unfolding swap_found
  swap_both inst protocol none = (err Errno.protocol, inst)
  swap_both inst protocol (some (a, b)) =
      if protocol_min_failed protocol
      then (err Errno.protocol, inst)
      else swap_found inst (find_set_and_id inst a) (find_set_and_id inst b)

  -- `domain_set_swap`
  unfoldable pub swap : Net D → Option ℕ → Option (List ℕ) → Option (List ℕ) → Status × Net D
  unfolding swap_both
  swap inst protocol name1 name2 = swap_both inst protocol (both name1 name2)
