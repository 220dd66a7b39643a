-- ===== src/Lib.antt =====
-- dset: a kernel module that keeps sets of domain names, the set type hash:domain, and the userspace
-- library and tool that drive it.
--
-- The kernel module has three parts. kernel/net/netfilter/dset/domain_set_core.c keeps the registered
-- set types and, for each network namespace, an array of sets, and runs the commands of userspace on
-- it; it calls a set through its type. kernel/net/netfilter/dset/domain_set_hash_gen.h is the template
-- of a hash table that stores elements with their extensions (timeout, counters, comment, skbinfo).
-- kernel/net/netfilter/dset/domain_set_hash_domain.c instantiates it for domain names, and gives it
-- the two interfaces: one for packets, which decodes the name of a DNS query, and one for netlink.
-- In userspace, lib parses a command line into a data blob, chooses the set type, and prints.
--
-- The files of the kernel module:
-- - Kernel, Uapi: what is taken from Linux (the clock, sizes) as a parameter, and the constants of
--   kernel/include/uapi/linux/netfilter/dset/domain_set.h.
-- - Ext, Ext/Match, Ext/Attrs, Ext/Layout: kernel/include/linux/netfilter/dset/domain_set.h and the
--   extension functions of domain_set_core.c. The extension area of an element is a record.
-- - Hash/Defs, Hash/Table, Hash/Slots: the structures of domain_set_hash_gen.h. The element type and
--   jhash2 are the parameter MType, whose law says that mtype_data_equal is equality.
-- - Hash/Create: the create function and mtype_same_set.
-- - Hash/Expire, Hash/Add, Hash/Del, Hash/Lookup, Hash/Resize: mtype_expire and mtype_flush,
--   mtype_add, mtype_del, mtype_test, mtype_resize. Each takes the set as a value and returns the set
--   after it; the answers of the allocator are arguments. Hash/View reads a table as a map from
--   elements to extensions and states the table's invariant. The Laws files of Hash prove the
--   theorems, an operation each.
-- - Domain/Text, Domain/Kadt, Domain/Uadt, Domain/Variant: hash_domain_data_equal, hash_domain_kadt,
--   hash_domain_uadt, and the table of functions through which the core calls them. Strings are lists
--   of bytes. An element is a text, with NULs behind it in the buffer; a fault stands for what
--   hash_domain_uadt does with a NUL inside a domain. The Laws files of Domain lead from the bytes of a
--   packet to the names that are tested, and from a netlink command to the table.
-- - Core/Types: the registry of set types. Core/Sets, Core/Commands, Core/Create, Core/Refs: the array
--   of sets, as the record Net, and domain_set_create, domain_set_destroy, domain_set_flush,
--   domain_set_rename, domain_set_swap, the functions on references, domain_set_net_init and
--   domain_set_net_exit. Core/AdtCommands: call_ad, domain_set_ad, domain_set_uadd, domain_set_udel,
--   domain_set_utest, over the record Variant of a type's functions. Core/Queries: domain_set_header,
--   domain_set_type, domain_set_protocol, domain_set_byname, domain_set_byindex, with the message that
--   is sent. The data of a set is a type parameter. The Laws files of Core prove the theorems on
--   single commands, Core/Steps those on sequences; the record Progress of Core/AdtLaws is what the
--   add and delete commands ask of a type, and Domain/VariantLaws shows it of hash:domain.
-- The files of userspace:
-- - User/Opts, User/Args: the options and keywords (include/libdset/data.h, args.h, types.h,
--   lib/args.c). User/Strings: dset_strlcpy.
-- - User/Blob, User/BlobSet: struct dset_data and lib/data.c. The union of its members is the parameter
--   Union, whose laws say that a member that was written last is read back.
-- - User/Parse, User/ParseElem: lib/parse.c; strtoull and sscanf are the parameter Libc.
-- - User/Print: lib/print.c; the conversions of snprintf are the parameter Format.
-- - User/Cache, User/TypeList, User/TypeGet: the cache of sets, the list of set types, and the choice of
--   a type (lib/types.c); the answer of the kernel is the parameter Query. User/HashDomain:
--   lib/dset_hash_domain.c.
-- - User/Argv, User/Command, User/Options: the splitting of a line into words, the core options and the
--   command, the options of a command (lib/dset.c).
-- The other files of User prove the theorems: User/CacheRefines compares the cache with a map.
-- Prelude: lists, tests, texts and words on native numbers. Tests: concrete data and runs.
--
-- Machine integers: u32 and u64 sums and differences wrap (Prelude/Words). An access outside an array,
-- a null pointer that is read and a BUG_ON are values: `fault`, `crashed`, `broken`, `misread`.
-- Fuel: Domain/Text.decode has one unit for each label; the length of the packet is given, and each
-- label takes at least one byte of it. Hash/Resize.resize has 256 attempts, as each doubles a table
-- whose size is a u8; for the same reason 256 rounds are given to the loop of call_ad.
-- User/Options.unknown has one unit more than there are types, as each round goes one type towards the
-- front of the list.
--
-- Not modelled: an element that a netlink message with a NUL inside the domain makes, whose bytes behind
-- the NUL are hashed and not compared (`embedded_nul`); locks, RCU and atomic operations, since a command of userspace and an operation on a
-- set each hold their lock, so each is one step; the dump of sets over netlink; the match modules
-- kernel/net/netfilter/xt_dset.c and kernel/net/sched/em_dset.c; the messages of lib/session.c and
-- lib/mnl.c, which call libmnl, and their output; in lib/dset.c and src, the rest of dset_parse_argv, which
-- calls them, the interactive mode and the help; the text of error messages; and the copies of Linux code (lib/list_sort.c,
-- kernel/include/linux/jhash.h).
pub mod Prelude
pub mod Kernel
pub mod Uapi
pub mod Ext
pub mod Hash
pub mod Domain
pub mod Core
pub mod User
mod Tests
