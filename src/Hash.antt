-- ===== src/Hash.antt =====
-- The hash type: kernel/net/netfilter/dset/domain_set_hash_gen.h.
-- The template is instantiated for an element type by macros; here its code takes an `MType`.
pub mod Defs
pub mod Table
pub mod Slots
pub mod Expire
pub mod Add
pub mod Del
pub mod Lookup
pub mod Resize
pub mod CopyLaws
pub mod HomedLaws
pub mod ResizeLaws
pub mod BitsLaws
pub mod Create
pub mod CreateLaws
pub mod LookupLaws
pub mod View
pub mod SlotLaws
pub mod TableLaws
pub mod BucketLaws
pub mod ExpireLaws
pub mod EnterLaws
pub mod Added
pub mod AddLaws
pub mod RemoveLaws
pub mod DelLaws
pub mod ScanLaws
