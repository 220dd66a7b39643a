-- ===== src/Core/Queries.antt =====
-- The commands that ask for something: `domain_set_header`, `domain_set_type`, `domain_set_protocol`,
-- `domain_set_byname`, `domain_set_byindex`, and `find_set_type_minmax` with the loading of a module
-- (kernel/net/netfilter/dset/domain_set_core.c).
use dset.Core.Commands.{protocol_min_failed}
use dset.Core.Sets.{DomainSet, Net, set_at, find_set_and_id}
use dset.Core.Types.{SetType, find_set_type_minmax}
use dset.Prelude.{
  ℕ, suc, Bool, true, false, not, Option, none, some, List, [], ◌∷◌, if◌then◌else◌, leb, ◌==◌,
  length,
}
use dset.Uapi.{Errno, Status, err, invalid_id, protocol_version, protocol_min_version}

-- `protocol_failed`
abbrev pub protocol_failed : Option ℕ → Bool
protocol_failed none = true
protocol_failed (some v) = not (v == protocol_version)

-- What the calls of netlink answer: `nlmsg_new`, `start_msg`, `nla_put` of the n-th attribute (whether
-- there is room), and `netlink_unicast` (its errors; a length is `ok`)
pub record Netlink : Type 0 where
  pub alloc : Bool
  pub start : Bool
  pub room : ℕ → Bool
  pub unicast : Status

-- the attributes of an answer; a text is put without its NUL, an index is a u16 in host order
pub data Attribute : Type 0 where
  protocol protocol_min family revision revision_min index : ℕ → Attribute
  setname typename : List ℕ → Attribute

-- a status, and the message that was sent
abbrev pub Sending : Type 0
Sending = Status × Option (List Attribute)

-- is there room for the attributes from the n-th on
unfoldable pub put_all : (ℕ → Bool) → ℕ → List Attribute → Bool
put_all room n [] = true
put_all room n (a ∷ rest) = if room n then put_all room (suc n) rest else false

-- the part of each command that builds the answer and sends it
unfoldable pub send : Netlink → List Attribute → Sending
unfolding put_all
send nl attrs =
    if not nl.alloc
    then (err Errno.enomem, none)
    else if not nl.start
    then (err Errno.emsgsize, none)
    else if put_all nl.room 0 attrs
    then (nl.unicast, some attrs)
    else (err Errno.emsgsize, none)

-- `find_set_type_minmax`; `load` is `request_module`: the registered types afterwards, or a failure
unfoldable pub type_minmax :
    (List ℕ → Option (List SetType)) → List SetType → List ℕ → ℕ → Option (ℕ × ℕ) × List SetType
type_minmax load ts name f =
    let r = find_set_type_minmax ts name f in
    if r.any then (some (r.least, r.greatest), ts) else elim (load name) [
      | none ↦ (none, ts)
      | some ts' ↦
          let r' = find_set_type_minmax ts' name f in
          (if r'.any then some (r'.least, r'.greatest) else none, ts')
    ]

-- the value of DSET_ATTR_PROTOCOL, which is there when it is read
abbrev pub version : Option ℕ → ℕ
version none = 0
version (some v) = v

abbrev pub type_answer : Netlink → Option ℕ → List ℕ → ℕ → Option (ℕ × ℕ) → Sending
type_answer nl p name f none = (err Errno.find_type, none)
type_answer nl p name f (some (least, greatest)) =
    send nl (
      protocol (version p) ∷ typename name ∷ family f ∷ revision greatest ∷ revision_min least ∷ [])

-- the two attributes of a type
abbrev pub type_args : Option (List ℕ) → Option ℕ → Option (List ℕ × ℕ)
type_args (some name) (some f) = some (name, f)
type_args _ _ = none

-- `domain_set_type`
unfoldable pub domain_set_type :
    Netlink
    → (List ℕ → Option (List SetType))
    → List SetType
    → Option ℕ
    → Option (List ℕ)
    → Option ℕ
    → Sending × List SetType
unfolding type_minmax send
domain_set_type nl load ts p name f =
    if protocol_min_failed p then ((err Errno.protocol, none), ts) else elim (type_args name f) [
      | none ↦ ((err Errno.protocol, none), ts)
      | some (n, g) ↦ let (r, ts') = type_minmax load ts n g in (type_answer nl p n g r, ts')
    ]

-- `domain_set_protocol`
unfoldable pub domain_set_protocol : Netlink → Option ℕ → Sending
unfolding send
domain_set_protocol nl none = (err Errno.protocol, none)
domain_set_protocol nl (some v) =
    send nl (protocol protocol_version ∷ protocol_min protocol_min_version ∷ [])

module _ {D : Type 0} (nl : Netlink) (inst : Net D) where
  abbrev pub header_of : Option ℕ → Option (ℕ × DomainSet D) → Sending
  header_of p none = (err Errno.enoent, none)
  header_of p (some (i, s)) = send nl (
      protocol (version p)
      ∷ setname s.name
      ∷ typename s.kind.name
      ∷ family s.family
      ∷ revision s.revision
      ∷ [])

  abbrev pub header_named : Option ℕ → Option (List ℕ) → Sending
  header_named p none = (err Errno.protocol, none)
  header_named p (some name) = header_of p (find_set_and_id inst name)

  -- `domain_set_header`
  unfoldable pub domain_set_header : Option ℕ → Option (List ℕ) → Sending
  unfolding send
  domain_set_header p name =
      if protocol_min_failed p then (err Errno.protocol, none) else header_named p name

  -- an index that is DSET_INVALID_ID counts as none
  abbrev pub index_of : Option ℕ → Option (ℕ × DomainSet D) → Sending
  index_of p none = (err Errno.enoent, none)
  index_of p (some (i, s)) =
      if i == invalid_id
      then (err Errno.enoent, none)
      else send nl (protocol (version p) ∷ family s.family ∷ index i ∷ [])

  abbrev pub index_named : Option ℕ → Option (List ℕ) → Sending
  index_named p none = (err Errno.protocol, none)
  index_named p (some name) = index_of p (find_set_and_id inst name)

  -- `domain_set_byname`
  unfoldable pub byname : Option ℕ → Option (List ℕ) → Sending
  unfolding send
  byname p name = if protocol_failed p then (err Errno.protocol, none) else index_named p name

  abbrev pub name_of : Option ℕ → Option (DomainSet D) → Sending
  name_of p none = (err Errno.enoent, none)
  name_of p (some s) = send nl (protocol (version p) ∷ setname s.name ∷ [])

  abbrev pub name_indexed : Option ℕ → Option ℕ → Sending
  name_indexed p none = (err Errno.protocol, none)
  name_indexed p (some i) =
      if leb (length inst.sets) i then (err Errno.enoent, none) else name_of p (set_at inst.sets i)

  -- `domain_set_byindex`
  unfoldable pub byindex : Option ℕ → Option ℕ → Sending
  unfolding send
  byindex p i = if protocol_failed p then (err Errno.protocol, none) else name_indexed p i
