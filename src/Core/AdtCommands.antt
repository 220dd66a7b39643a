-- ===== src/Core/AdtCommands.antt =====
-- The commands on the elements of a set: `call_ad`, `domain_set_ad`, `domain_set_uadd`,
-- `domain_set_udel`, `domain_set_utest` (kernel/net/netfilter/dset/domain_set_core.c). A set is called
-- through `struct domain_set_type_variant`. Each call of a set's function is one step, under its lock.
use dset.Core.Commands.{protocol_min_failed}
use dset.Core.Sets.{DomainSet, Net, find_set_and_id}
use dset.Core.Types.{SetType}
use dset.Domain.Kadt.{Adt, adt_add, adt_del, adt_test}
use dset.Domain.Uadt.{UadtResult, done, tested}
use dset.Prelude.{
  ℕ, zero, suc, Bool, true, false, not, ◌&&◌, ◌||◌, Option, none, some, List, [], ◌∷◌, ◌++◌,
  if◌then◌else◌, ◌==◌, set,
}
use dset.Uapi.{Errno, Status, ok, err, fault, null_pointer, has_flag, flag_exist_bit}

-- The functions of `struct domain_set_type_variant` that are called here, on the data `D` of a set and
-- the parsed attributes `T`. The number tells the calls apart, as the allocator may answer otherwise
-- each time. `lineno` is what `uadt` writes through its pointer; `resize` may be missing, and `none`
-- is a call that does not return.
pub record Variant (D T : Type 0) : Type 0 where
  pub uadt : ℕ → Adt → T → ℕ → Bool → D → UadtResult × D
  pub lineno : T → Option ℕ
  pub resize : Option (ℕ → D → Option (Status × D))

-- what netlink answers while the error is sent back: `nlmsg_new`, and NLA_PARSE of the message
pub record Reply : Type 0 where
  pub alloc : Bool
  pub parse : Status

-- the error and the line that are sent to userspace
abbrev pub Sent : Type 0
Sent = Option (UadtResult × ℕ)

-- `ret == -EAGAIN`
abbrev pub is_again : UadtResult → Bool
is_again (done (Status.err Errno.eagain)) = true
is_again r = false

module _ {D T : Type 0} (v : Variant D T) where
  -- how the loop goes on after a call of `uadt`; `more` is the next round
  abbrev pub resized : (D → Option (UadtResult × D)) → Option (Status × D) → Option (UadtResult × D)
  resized more none = none
  resized more (some (Status.ok, d)) = more d
  resized more (some (Status.err e, d)) = some (done (err e), d)
  resized more (some (Status.fault f, d)) = some (done (fault f), d)

  abbrev pub after_call :
      (D → Option (UadtResult × D)) → ℕ → UadtResult → D → Option (UadtResult × D)
  after_call more round r d =
      if is_again r
      then elim v.resize [ none ↦ some (r, d) | some resize ↦ resized more (resize round d) ]
      else some (r, d)

  -- the loop of `call_ad`; `none` is a loop that is not over
  unfoldable pub ad_loop : ℕ → ℕ → Adt → T → ℕ → D → Option (UadtResult × D)
  ad_loop zero round adt tb flags d = none
  ad_loop (suc fuel) round adt tb flags d =
      let (r, d') = v.uadt round adt tb flags (not (round == 0)) d in
      after_call (ad_loop fuel (suc round) adt tb flags) round r d'

  -- the answer to a command that failed
  unfoldable pub send_line : Reply → UadtResult → ℕ → UadtResult × Sent
  send_line reply r line =
      if not reply.alloc then (done (err Errno.enomem), none) else elim reply.parse [
        | ok ↦ (done (err Errno.eintr), some (r, line))
        | err e ↦ (done (err e), none)
        | fault f ↦ (done (fault f), none)
      ]

  -- `lineno` is 0 at first
  abbrev pub with_line : Reply → Option ℕ → Bool → UadtResult → UadtResult × Sent
  with_line reply none use_lineno r = (r, none)
  with_line reply (some line) use_lineno r =
      if not (line == 0) && use_lineno then send_line reply r line else (r, none)

  -- behind the loop
  unfoldable pub ad_end : Reply → Bool → Option ℕ → Bool → UadtResult → UadtResult × Sent
  unfolding send_line
  ad_end reply eexist lineno use_lineno (done Status.ok) = (done ok, none)
  ad_end reply eexist lineno use_lineno (tested false) = (done ok, none)
  ad_end reply eexist lineno use_lineno (done (Status.fault f)) = (done (fault f), none)
  ad_end reply eexist lineno use_lineno (done (Status.err Errno.exist)) =
      if eexist then (done ok, none) else with_line reply lineno use_lineno (done (err Errno.exist))
  ad_end reply eexist lineno use_lineno r = with_line reply lineno use_lineno r

  unfoldable pub call_ad : ℕ → Reply → Adt → T → ℕ → Bool → D → Option ((UadtResult × Sent) × D)
  unfolding ad_loop ad_end
  call_ad fuel reply adt tb flags use_lineno d = elim (ad_loop fuel 0 adt tb flags d) [
    | none ↦ none
    | some (r, d') ↦
        some (ad_end reply (has_flag flags flag_exist_bit) (v.lineno tb) use_lineno r, d')
  ]

-- a nested attribute: its NLA_F_NESTED bit, whether it is DSET_ATTR_DATA, and what the policy of a
-- type makes of it
pub record Nested (T : Type 0) : Type 0 where
  pub nested : Bool
  pub is_data : Bool
  pub parsed : SetType → Option T

-- the attributes of the message; `element` is DSET_ATTR_DATA, `adt` are the entries of DSET_ATTR_ADT, with its NLA_F_NESTED bit
pub record AdAttrs (T : Type 0) : Type 0 where
  pub protocol : Option ℕ
  pub setname : Option (List ℕ)
  pub element : Option (Nested T)
  pub adt : Option (Bool × List (Nested T))
  pub has_lineno : Bool

-- the payload: one element, or a list of them
pub data Payload (T : Type 0) : Type 0 where
  single : Nested T → Payload T
  batch : List (Nested T) → Payload T

module _ {T : Type 0} where
  abbrev pub payload_of :
      Bool → Option (Nested T) → Option (Bool × List (Nested T)) → Option (Payload T)
  payload_of has_lineno none none = none
  payload_of has_lineno (some n) none = if n.nested then some (single n) else none
  payload_of has_lineno none (some (nested, ns)) =
      if nested && has_lineno then some (batch ns) else none
  payload_of has_lineno (some n) (some a) = none

  abbrev pub named_payload : Option (List ℕ) → Option (Payload T) → Option (List ℕ × Payload T)
  named_payload (some name) (some p) = some (name, p)
  named_payload _ _ = none

  -- the first `if` of `domain_set_ad`: `none` is DSET_ERR_PROTOCOL
  unfoldable pub ad_args : AdAttrs T → Option (List ℕ × Payload T)
  ad_args a =
      if protocol_min_failed a.protocol
      then none
      else named_payload a.setname (payload_of a.has_lineno a.element a.adt)

-- a command's return value, what was sent, and the state after it
pub record Answered (A : Type 0) : Type 0 where
  pub result : UadtResult
  pub sent : List (UadtResult × ℕ)
  pub after : A

abbrev pub refusal : {A : Type 0} → Errno → A → Answered A
refusal e a = record { result = done (err e); sent = []; after = a }

abbrev pub sent_list : Sent → List (UadtResult × ℕ)
sent_list none = []
sent_list (some m) = m ∷ []

-- `ret < 0`, or a fault
abbrev pub is_failed : UadtResult → Bool
is_failed (done Status.ok) = false
is_failed (done s) = true
is_failed (tested b) = false

-- `variants n` and `replies n` are for the n-th element of a message; `fuel` bounds each loop
module _ {D T : Type 0} (fuel : ℕ) (variants : ℕ → Variant D T) (replies : ℕ → Reply) where
  abbrev pub answered : Option ((UadtResult × Sent) × D) → Option (Answered D)
  answered none = none
  answered (some ((r, m), d)) = some (record { result = r; sent = sent_list m; after = d })

  -- one element of a message
  unfoldable pub ad_element : ℕ → SetType → Adt → ℕ → Bool → Nested T → D → Option (Answered D)
  unfolding call_ad
  ad_element n kind adt flags use_lineno a d = elim (a.parsed kind) [
    | none ↦ some (refusal Errno.protocol d)
    | some tb ↦ answered (call_ad (variants n) fuel (replies n) adt tb flags use_lineno d)
  ]

  abbrev pub and_sent : List (UadtResult × ℕ) → Option (Answered D) → Option (Answered D)
  and_sent ms none = none
  and_sent ms (some r) = some (record r { sent = ms ++ r.sent })

  abbrev pub go_on : (D → Option (Answered D)) → Option (Answered D) → Option (Answered D)
  go_on more none = none
  go_on more (some r) = if is_failed r.result then some r else and_sent r.sent (more r.after)

  -- `nla_for_each_nested`; `last` is `ret` so far
  unfoldable pub ad_batch :
      ℕ → SetType → Adt → ℕ → Bool → UadtResult → List (Nested T) → D → Option (Answered D)
  unfolding ad_element
  ad_batch n kind adt flags use_lineno last [] d =
      some (record { result = last; sent = []; after = d })
  ad_batch n kind adt flags use_lineno last (a ∷ rest) d =
      if not a.is_data || not a.nested
      then some (refusal Errno.protocol d)
      else elim (ad_element n kind adt flags use_lineno a d) [
        | none ↦ none
        | some r ↦ go_on (ad_batch (suc n) kind adt flags use_lineno r.result rest) (some r)
      ]

  unfoldable pub ad_payload : SetType → Adt → ℕ → Bool → Payload T → D → Option (Answered D)
  unfolding ad_element ad_batch
  ad_payload kind adt flags use_lineno (single a) d = ad_element 0 kind adt flags use_lineno a d
  ad_payload kind adt flags use_lineno (batch ns) d =
      ad_batch 0 kind adt flags use_lineno (done ok) ns d

  -- the set at its index with its new content
  abbrev pub put_content : Net D → ℕ → DomainSet D → Option (Answered D) → Option (Answered (Net D))
  put_content inst i s none = none
  put_content inst i s (some r) = some (record {
    result = r.result;
    sent = r.sent;
    after = record inst { sets = set inst.sets i (some (record s { content = r.after })) };
  })

  abbrev pub ad_found :
      Adt → ℕ → Bool → Payload T → Net D → Option (ℕ × DomainSet D) → Option (Answered (Net D))
  ad_found adt flags use_lineno p inst none = some (refusal Errno.enoent inst)
  ad_found adt flags use_lineno p inst (some (i, s)) =
      put_content inst i s (ad_payload s.kind adt flags use_lineno p s.content)

  -- `domain_set_ad`
  unfoldable pub domain_set_ad : Adt → ℕ → AdAttrs T → Net D → Option (Answered (Net D))
  unfolding ad_args ad_payload
  domain_set_ad adt flags a inst = elim (ad_args a) [
    | none ↦ some (refusal Errno.protocol inst)
    | some (name, p) ↦ ad_found adt flags a.has_lineno p inst (find_set_and_id inst name)
  ]

  -- `domain_set_uadd` and `domain_set_udel`
  unfoldable pub uadd : ℕ → AdAttrs T → Net D → Option (Answered (Net D))
  unfolding domain_set_ad
  uadd flags a inst = domain_set_ad adt_add flags a inst

  unfoldable pub udel : ℕ → AdAttrs T → Net D → Option (Answered (Net D))
  unfolding domain_set_ad
  udel flags a inst = domain_set_ad adt_del flags a inst

-- the answer of `domain_set_utest`: 0 for a match, and for -EAGAIN
abbrev pub utest_answer : UadtResult → Status
utest_answer (tested true) = ok
utest_answer (done (Status.err Errno.eagain)) = ok
utest_answer (done (Status.fault f)) = fault f
utest_answer r = err Errno.exist

module _ {D T : Type 0} (v : Variant D T) where
  -- behind the call, with what `lineno` would be written
  abbrev pub utest_end : Net D → ℕ → DomainSet D → UadtResult × D → Option ℕ → Status × Net D
  utest_end inst i s p (some line) = (fault null_pointer, inst)
  utest_end inst i s (r, d) none =
      (utest_answer r, record inst { sets = set inst.sets i (some (record s { content = d })) })

  -- the attributes are parsed; the pointer for the line is null
  unfoldable pub utest_parsed : Net D → ℕ → DomainSet D → T → Status × Net D
  utest_parsed inst i s tb =
      utest_end inst i s (v.uadt 0 adt_test tb 0 false s.content) (v.lineno tb)

  abbrev pub utest_with : Net D → ℕ → DomainSet D → Option T → Status × Net D
  utest_with inst i s none = (err Errno.protocol, inst)
  utest_with inst i s (some tb) = utest_parsed inst i s tb

  abbrev pub utest_found : Net D → Nested T → Option (ℕ × DomainSet D) → Status × Net D
  utest_found inst a none = (err Errno.enoent, inst)
  utest_found inst a (some (i, s)) = utest_with inst i s (a.parsed s.kind)

  abbrev pub utest_named : Net D → Option (List ℕ) → Option (Nested T) → Status × Net D
  utest_named inst (some name) (some a) =
      if a.nested
      then utest_found inst a (find_set_and_id inst name)
      else (err Errno.protocol, inst)
  utest_named inst _ _ = (err Errno.protocol, inst)

  -- `domain_set_utest`
  unfoldable pub utest : AdAttrs T → Net D → Status × Net D
  unfolding utest_parsed
  utest a inst =
      if protocol_min_failed a.protocol
      then (err Errno.protocol, inst)
      else utest_named inst a.setname a.element
