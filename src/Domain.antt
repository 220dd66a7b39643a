-- ===== src/Domain.antt =====
-- The set type hash:domain: kernel/net/netfilter/dset/domain_set_hash_domain.c.
pub mod Text
pub mod Kadt
pub mod Uadt
pub mod DecodeLaws
pub mod BufferLaws
pub mod KadtLaws
pub mod PacketLaws
pub mod Variant
pub mod VariantLaws
pub mod CommandLaws
pub mod TestCommandLaws
