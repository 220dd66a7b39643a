-- ===== src/Core.antt =====
-- The set management of the kernel module: kernel/net/netfilter/dset/domain_set_core.c.
pub mod Types
pub mod Sets
pub mod Commands
pub mod Create
pub mod AdtCommands
pub mod AdtLaws
pub mod AdLaws
pub mod RetryLaws
pub mod ContentLaws
pub mod Queries
pub mod QueryLaws
pub mod Refs
pub mod EntryLaws
pub mod FindLaws
pub mod NameLaws
pub mod NamedCommands
pub mod HoldLaws
pub mod CommandLaws
pub mod SwapLaws
pub mod RefLaws
pub mod TypeLaws
pub mod Steps
