-- ===== src/User/BlobSet.antt =====
-- `dset_data_set`, `dset_data_get`, `dset_data_sizeof`, `dset_data_setname`, `dset_data_reset`
-- (lib/data.c).
use dset.Prelude.{ℕ, ◌+◌, ◌||◌, Option, none, some, List, [], if◌then◌else◌, ◌==◌}
use dset.Uapi.{
  max_name_len, max_domain_len, max_comment_size, flag_with_counters_bit, flag_with_comment_bit,
  flag_with_forceadd_bit, flag_with_skbinfo_bit, flag_exist_bit,
}
use dset.User.Blob.{
  Value, CreateData, AdtData, Union, Blob, Stored, stored, unknown, misread, Code, success, failure,
  confused, flags_set, data_test, read_u8, read_u16, read_u32, read_u64, read_text, read_type,
  add_flag, add_cadt_flag, mark_cadt, flag_before_bit, flag_physdev_bit, flag_nomatch_bit,
}
use dset.User.Opts.{Opt, opt_number, no_bits, flag, without_bits}

module _ {U : Type 0} (un : Union U) where
  -- a field of the union's members
  abbrev on_create : Blob U → Opt → (CreateData → CreateData) → Stored U
  on_create d o f = stored (record d { shared = un.put_create (f (un.create d.shared)) d.shared }) o

  abbrev on_adt : Blob U → Opt → (AdtData → AdtData) → Stored U
  on_adt d o f = stored (record d { shared = un.put_adt (f (un.adt d.shared)) d.shared }) o

  -- the `switch` of `dset_data_set`
  unfoldable pub store : Opt → Value → Blob U → Stored U
  unfolding mark_cadt
  store Opt.setname v d =
      read_text max_name_len v (λ s. stored (record d { setname = s }) Opt.setname)
  store Opt.kind v d = read_type v (λ t. stored (record d { kind = some t }) Opt.kind)
  store Opt.family v d = read_u8 v (λ n.
      stored (record d { family = n; ignored = without_bits d.ignored (flag Opt.family) })
        Opt.family)
  store Opt.domain v d =
      read_text max_domain_len v (λ s. stored (record d { domaindata = s }) Opt.domain)
  store Opt.timeout v d = read_u32 v (λ n. stored (record d { timeout = n }) Opt.timeout)
  store Opt.index v d = read_u16 v (λ n. stored (record d { index = n }) Opt.index)
  store Opt.gc v d = read_u32 v (λ n. on_create d Opt.gc (λ c. record c { gc = n }))
  store Opt.hashsize v d =
      read_u32 v (λ n. on_create d Opt.hashsize (λ c. record c { hashsize = n }))
  store Opt.maxelem v d = read_u32 v (λ n. on_create d Opt.maxelem (λ c. record c { maxelem = n }))
  store Opt.probes v d = read_u8 v (λ n. on_create d Opt.probes (λ c. record c { probes = n }))
  store Opt.resize v d = read_u8 v (λ n. on_create d Opt.resize (λ c. record c { resize = n }))
  store Opt.size v d = read_u32 v (λ n. on_create d Opt.size (λ c. record c { size = n }))
  store Opt.counters v d = add_cadt_flag flag_with_counters_bit d
  store Opt.create_comment v d = add_cadt_flag flag_with_comment_bit d
  store Opt.forceadd v d = add_cadt_flag flag_with_forceadd_bit d
  store Opt.skbinfo v d = add_cadt_flag flag_with_skbinfo_bit d
  store Opt.elements v d =
      read_u32 v (λ n. on_create d Opt.elements (λ c. record c { elements = n }))
  store Opt.references v d =
      read_u32 v (λ n. on_create d Opt.references (λ c. record c { references = n }))
  store Opt.memsize v d = read_u32 v (λ n. on_create d Opt.memsize (λ c. record c { memsize = n }))
  store Opt.typename v d =
      read_text max_name_len v (λ s. on_create d Opt.typename (λ c. record c { typename = s }))
  store Opt.revision v d =
      read_u8 v (λ n. on_create d Opt.revision (λ c. record c { revision = n }))
  store Opt.revision_min v d =
      read_u8 v (λ n. on_create d Opt.revision_min (λ c. record c { revision_min = n }))
  store Opt.name v d =
      read_text max_name_len v (λ s. on_adt d Opt.name (λ a. record a { name = s }))
  store Opt.nameref v d =
      read_text max_name_len v (λ s. on_adt d Opt.nameref (λ a. record a { nameref = s }))
  store Opt.packets v d = read_u64 v (λ n. on_adt d Opt.packets (λ a. record a { packets = n }))
  store Opt.bytes v d = read_u64 v (λ n. on_adt d Opt.bytes (λ a. record a { bytes = n }))
  store Opt.adt_comment v d =
      read_text (max_comment_size + 1) v
        (λ s. on_adt d Opt.adt_comment (λ a. record a { comment = s }))
  store Opt.skbmark v d = read_u64 v (λ n. on_adt d Opt.skbmark (λ a. record a { skbmark = n }))
  store Opt.skbprio v d = read_u32 v (λ n. on_adt d Opt.skbprio (λ a. record a { skbprio = n }))
  store Opt.skbqueue v d = read_u16 v (λ n. on_adt d Opt.skbqueue (λ a. record a { skbqueue = n }))
  store Opt.setname2 v d =
      read_text max_name_len v
        (λ s. stored (record d { shared = un.put_setname2 s d.shared }) Opt.setname2)
  store Opt.exist v d = add_flag flag_exist_bit d
  store Opt.before v d = add_cadt_flag flag_before_bit d
  store Opt.physdev v d = add_cadt_flag flag_physdev_bit d
  store Opt.nomatch v d = add_cadt_flag flag_nomatch_bit d
  store Opt.flags v d = read_u32 v (λ n. stored (record d { flags = n }) Opt.flags)
  store Opt.cadt_flags v d =
      read_u32 v (λ n. stored (mark_cadt n (record d { cadt_flags = n })) Opt.cadt_flags)
  store o v d = unknown

  abbrev pub mark_stored : Blob U → Stored U → Code × Blob U
  mark_stored d (stored d' o) = (success, flags_set d' (flag o))
  mark_stored d unknown = (failure, d)
  mark_stored d misread = (confused, d)

  -- `dset_data_set`
  unfoldable pub data_set : Blob U → Opt → Value → Code × Blob U
  unfolding store flags_set flag
  data_set d o v = mark_stored d (store o v d)

  -- the name of the type, if one is set, or the name that was given
  unfoldable pub type_name : Blob U → Option Value
  unfolding data_test
  type_name d =
      if data_test d Opt.kind
      then elim d.kind [ none ↦ none | some t ↦ some (Value.text t.name) ]
      else if data_test d Opt.typename
      then some (Value.text (un.create d.shared).typename)
      else none

  -- the `switch` of `dset_data_get`
  unfoldable pub field : Opt → Blob U → Option Value
  unfolding type_name
  field Opt.typename d = type_name d
  field Opt.setname d = some (Value.text d.setname)
  field Opt.kind d = elim d.kind [ none ↦ none | some t ↦ some (Value.user_type t) ]
  field Opt.family d = some (Value.u8 d.family)
  field Opt.domain d = some (Value.text d.domaindata)
  field Opt.timeout d = some (Value.u32 d.timeout)
  field Opt.index d = some (Value.u16 d.index)
  field Opt.gc d = some (Value.u32 (un.create d.shared).gc)
  field Opt.hashsize d = some (Value.u32 (un.create d.shared).hashsize)
  field Opt.maxelem d = some (Value.u32 (un.create d.shared).maxelem)
  field Opt.probes d = some (Value.u8 (un.create d.shared).probes)
  field Opt.resize d = some (Value.u8 (un.create d.shared).resize)
  field Opt.size d = some (Value.u32 (un.create d.shared).size)
  field Opt.elements d = some (Value.u32 (un.create d.shared).elements)
  field Opt.references d = some (Value.u32 (un.create d.shared).references)
  field Opt.memsize d = some (Value.u32 (un.create d.shared).memsize)
  field Opt.revision d = some (Value.u8 (un.create d.shared).revision)
  field Opt.revision_min d = some (Value.u8 (un.create d.shared).revision_min)
  field Opt.name d = some (Value.text (un.adt d.shared).name)
  field Opt.nameref d = some (Value.text (un.adt d.shared).nameref)
  field Opt.packets d = some (Value.u64 (un.adt d.shared).packets)
  field Opt.bytes d = some (Value.u64 (un.adt d.shared).bytes)
  field Opt.adt_comment d = some (Value.text (un.adt d.shared).comment)
  field Opt.skbmark d = some (Value.u64 (un.adt d.shared).skbmark)
  field Opt.skbprio d = some (Value.u32 (un.adt d.shared).skbprio)
  field Opt.skbqueue d = some (Value.u16 (un.adt d.shared).skbqueue)
  field Opt.setname2 d = some (Value.text (un.setname2 d.shared))
  field Opt.flags d = some (Value.u32 d.flags)
  field Opt.exist d = some (Value.u32 d.flags)
  field Opt.cadt_flags d = some (Value.u32 d.cadt_flags)
  field Opt.before d = some (Value.u32 d.cadt_flags)
  field Opt.physdev d = some (Value.u32 d.cadt_flags)
  field Opt.nomatch d = some (Value.u32 d.cadt_flags)
  field Opt.counters d = some (Value.u32 d.cadt_flags)
  field Opt.create_comment d = some (Value.u32 d.cadt_flags)
  field Opt.forceadd d = some (Value.u32 d.cadt_flags)
  field Opt.skbinfo d = some (Value.u32 d.cadt_flags)
  field o d = none

  -- `dset_data_get`; `none` is NULL
  unfoldable pub data_get : Blob U → Opt → Option Value
  unfolding field data_test
  data_get d o =
      if (opt_number o == opt_number Opt.typename) || data_test d o then field o d else none

  -- `dset_data_setname`
  unfoldable pub data_setname : Blob U → Option (List ℕ)
  unfolding data_test
  data_setname d = if data_test d Opt.setname then some d.setname else none

  -- `dset_data_reset` and `dset_data_init`
  unfoldable pub data_reset : Blob U
  data_reset = record {
    bits = no_bits;
    ignored = no_bits;
    setname = [];
    kind = none;
    family = 0;
    flags = 0;
    cadt_flags = 0;
    timeout = 0;
    domaindata = [];
    index = 0;
    shared = un.zero;
  }

-- `dset_data_sizeof`
unfoldable pub data_sizeof : Opt → ℕ
data_sizeof Opt.domain = max_domain_len
data_sizeof Opt.skbqueue = 2
data_sizeof Opt.index = 2
data_sizeof Opt.setname = max_name_len
data_sizeof Opt.name = max_name_len
data_sizeof Opt.nameref = max_name_len
data_sizeof Opt.timeout = 4
data_sizeof Opt.gc = 4
data_sizeof Opt.hashsize = 4
data_sizeof Opt.maxelem = 4
data_sizeof Opt.size = 4
data_sizeof Opt.elements = 4
data_sizeof Opt.references = 4
data_sizeof Opt.memsize = 4
data_sizeof Opt.skbprio = 4
data_sizeof Opt.packets = 8
data_sizeof Opt.bytes = 8
data_sizeof Opt.skbmark = 8
data_sizeof Opt.probes = 1
data_sizeof Opt.resize = 1
data_sizeof Opt.before = 4
data_sizeof Opt.physdev = 4
data_sizeof Opt.nomatch = 4
data_sizeof Opt.counters = 4
data_sizeof Opt.forceadd = 4
data_sizeof Opt.adt_comment = max_comment_size + 1
data_sizeof o = 0
