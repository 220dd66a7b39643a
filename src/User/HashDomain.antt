-- ===== src/User/HashDomain.antt =====
-- The set type hash:domain of userspace (lib/dset_hash_domain.c).
use dset.Prelude.{ℕ, false, none, some, List, [], ◌∷◌}
use dset.User.Args.{Keyword, Parser, Printer, OptArg, KernelCheck, UserType}
use dset.User.Opts.{Opt, no_bits, flag}

abbrev pub hash_domain_name : List ℕ
hash_domain_name = b'h' ∷ b'a' ∷ b's' ∷ b'h' ∷ b':' ∷ b'd' ∷ b'o' ∷ b'm' ∷ b'a' ∷ b'i' ∷ b'n' ∷ []

-- the command needs the domain, and admits it
abbrev pub domain_command : List Keyword → OptArg
domain_command args = record { args = args; need = flag Opt.domain; full = flag Opt.domain }

-- `dset_hash_domain0`; `address` is the structure's own. NFPROTO_UNSPEC is 0, DSET_DIM_ONE is 1, and
-- `kernel_check` is 0, DSET_KERNEL_CHECK_NEEDED is its name.
unfoldable pub hash_domain : ℕ → UserType
hash_domain address = record {
  address = address;
  name = hash_domain_name;
  alias = (b'd' ∷ b'h' ∷ b'a' ∷ b's' ∷ b'h' ∷ []) ∷ [];
  revision = 0;
  family = 0;
  dimension = 1;
  kernel_check = KernelCheck.check_needed;
  last_elem_optional = false;
  elem =
      record {
        parse = some Parser.parse_domain;
        print = some Printer.print_domain;
        opt = Opt.domain;
      }
      ∷ [];
  compat_parse_elem = none;
  cmd =
      domain_command (Keyword.timeout ∷ [])
      ∷ domain_command []
      ∷ domain_command []
      ∷ record {
        args =
            Keyword.hashsize ∷ Keyword.maxelem ∷ Keyword.timeout ∷ Keyword.probes ∷ Keyword.resize
            ∷ Keyword.gc ∷ [];
        need = no_bits;
        full = no_bits;
      }
      ∷ [];
}
