-- ===== src/User.antt =====
-- The userspace library libdset: its cache of sets, its list of set types, the data blob of a
-- session and the parsers that fill it.
pub mod Strings
pub mod Cache
pub mod CacheLaws
pub mod CacheSwap
pub mod CacheRefines
pub mod Opts
pub mod OptsLaws
pub mod Args
pub mod Blob
pub mod BlobSet
pub mod BlobLaws
pub mod BlobGet
pub mod Parse
pub mod ParseElem
pub mod ParseLaws
pub mod Print
pub mod PrintLaws
pub mod PrintBounds
pub mod HashDomain
pub mod TypeList
pub mod TypeAddLaws
pub mod TypeGet
pub mod TypeGetLaws
pub mod Argv
pub mod ArgvLaws
pub mod Options
pub mod OptionsLaws
pub mod ElemTrip
pub mod Command
pub mod CommandLaws
pub mod EnvLeft
pub mod EnvLaws
pub mod UnknownLaws
