-- ===== src/Core/QueryLaws.antt =====
-- The queries on the array of sets answer each other (kernel/net/netfilter/dset/domain_set_core.c).
use dset.Core.CommandLaws.{find_set_and_id-IsNamed}
use dset.Core.EntryLaws.{set_at-some-lt}
use dset.Core.NameLaws.{IsNamed}
use dset.Core.Queries.{
  Netlink, Attribute, protocol, family, index, setname, put_all, send, index_of, name_of,
  name_indexed, byname, byindex,
}
use dset.Core.Sets.{DomainSet, Net, set_at, find_set_and_id}
use dset.Core.Types.{name_eq}
use dset.Prelude.{
  ℕ, ◌≤◌, ◌<◌, ◌≡◌, refl, ap, ◌∙◌, Bool, true, false, none, some, List, [], ◌∷◌, if◌then◌else◌,
  length, arith,
}
use dset.Uapi.{Errno, ok, err, invalid_id, protocol_version}

-- nothing of netlink fails
abbrev pub IsOpen : Netlink → Type 0
IsOpen nl = (nl.alloc ≡ true) × (nl.start ≡ true) × (nl.unicast ≡ ok) × ((n : ℕ) → nl.room n ≡ true)

put_all-IsOpen :
    (room : ℕ → Bool) (n : ℕ) (attrs : List Attribute)
    → ((n : ℕ) → room n ≡ true)
    → put_all room n attrs ≡ true
unfolding put_all
put_all-IsOpen room n [] h = refl
put_all-IsOpen room n (a ∷ rest) h =
    ap (λ b. if b then put_all room (ℕ.suc n) rest else false) (h n)
    ∙ put_all-IsOpen room (ℕ.suc n) rest h

send-IsOpen : (nl : Netlink) (attrs : List Attribute) → IsOpen nl → send nl attrs ≡ (ok, some attrs)
unfolding send
send-IsOpen nl attrs (a, s, u, r) = ground (arith, put_all-IsOpen nl.room 0 attrs r)

module _ {D : Type 0} (nl : Netlink) (inst : Net D) (takes : IsOpen nl) where
  sent_index :
      (i : ℕ) (s : DomainSet D)
      → i < invalid_id
      → index_of nl inst (some protocol_version) (some (i, s))
        ≡ (ok, some (protocol protocol_version ∷ family s.family ∷ index i ∷ []))
  sent_index i s h =
      let attrs = protocol protocol_version ∷ family s.family ∷ index i ∷ [] in
      ground (arith, send-IsOpen nl attrs takes)

  sent_name :
      (i : ℕ) (s : DomainSet D)
      → i < length inst.sets
      → set_at inst.sets i ≡ some s
      → name_indexed nl inst (some protocol_version) (some i)
        ≡ (ok, some (protocol protocol_version ∷ setname s.name ∷ []))
  sent_name i s low at =
      let attrs = protocol protocol_version ∷ setname s.name ∷ [] in
      ground (arith, ap (name_of nl inst (some protocol_version)) at, send-IsOpen nl attrs takes)

  no_set :
      (i : ℕ)
      → set_at inst.sets i ≡ none
      → name_indexed nl inst (some protocol_version) (some i) ≡ (err Errno.enoent, none)
  no_set i gone = ground (arith, ap (name_of nl inst (some protocol_version)) gone)

  -- Where netlink takes the messages, names are unique and the array is not longer than its bound: a set
  -- of the array is found by its name, under its index, and its index gives its name. A name that no
  -- set has, and an index without a set, are answered with ENOENT, and nothing is sent.
  pub byindex-byname :
      IsNamed inst.sets
      → length inst.sets ≤ invalid_id
      → (name : List ℕ) (i : ℕ)
      → ((s : DomainSet D)
          → set_at inst.sets i ≡ some s
          → name_eq s.name name ≡ true
          → (byname nl inst (some protocol_version) (some name)
              ≡ (ok, some (protocol protocol_version ∷ family s.family ∷ index i ∷ [])))
            × (byindex nl inst (some protocol_version) (some i)
                ≡ (ok, some (protocol protocol_version ∷ setname s.name ∷ []))))
        × (set_at inst.sets i ≡ none
            → byindex nl inst (some protocol_version) (some i) ≡ (err Errno.enoent, none))
        × (find_set_and_id inst name ≡ none
            → byname nl inst (some protocol_version) (some name) ≡ (err Errno.enoent, none))
  unfolding byname byindex
  byindex-byname named long name i = (
    λ s at eq. (
      ap (index_of nl inst (some protocol_version))
            (find_set_and_id-IsNamed inst named i s name at eq)
          ∙ sent_index i s (omega (arith, set_at-some-lt inst.sets i s at)),
      sent_name i s (set_at-some-lt inst.sets i s at) at,
    ),
    λ gone. no_set i gone,
    λ gone. ap (index_of nl inst (some protocol_version)) gone,
  )
