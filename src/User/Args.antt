-- ===== src/User/Args.antt =====
-- The keywords of the command line (include/libdset/args.h, lib/args.c) and the set types of
-- userspace (include/libdset/types.h, lib/dset_hash_domain.c).
use dset.Prelude.{ℕ, Bool, Option, none, some, List, [], ◌∷◌}
use dset.User.Opts.{Opt, OptBits, with_bits, flag}

-- `enum dset_keywords`, DSET_ARG_NONE and DSET_ARG_MAX left out: a list of keywords is one
-- up to DSET_ARG_NONE
pub data Keyword : Type 0 where
  domain hashsize maxelem probes resize gc size before after forceadd nomatch : Keyword
  timeout counters packets bytes comment adt_comment skbinfo skbmark skbprio skbqueue : Keyword

-- the parser functions of lib/parse.c that stand in a table
pub data Parser : Type 0 where
  parse_domain parse_before parse_after parse_timeout parse_uint64 parse_uint32 : Parser
  parse_uint16 parse_flag parse_comment parse_skbmark parse_skbprio parse_ignored : Parser
  parse_name_compat : Parser

-- the printing functions of lib/print.c
pub data Printer : Type 0 where
  print_number print_flag print_comment print_skbmark print_skbprio print_domain : Printer
  print_name print_type : Printer

-- DSET_NO_ARG, DSET_OPTIONAL_ARG, DSET_MANDATORY_ARG, DSET_MANDATORY_ARG2
pub data HasArg : Type 0 where
  no_arg optional_arg mandatory_arg mandatory_arg2 : HasArg

-- `struct dset_arg`; `none` for a printer that is not there
pub record Arg : Type 0 where
  pub name : List ℕ
  pub has_arg : HasArg
  pub opt : Opt
  pub parse : Option Parser
  pub print : Option Printer

-- the row of a keyword with a value
abbrev with_value : List ℕ → Opt → Parser → Option Printer → Arg
with_value name o p q = record {
  name = name;
  has_arg = HasArg.mandatory_arg;
  opt = o;
  parse = some p;
  print = q;
}

-- the row of a keyword without one
abbrev plain_flag : List ℕ → Opt → Arg
plain_flag name o = record {
  name = name;
  has_arg = HasArg.no_arg;
  opt = o;
  parse = some Parser.parse_flag;
  print = some Printer.print_flag;
}

-- `dset_args`. DSET_ARG_DOMAIN has no row, so all of its fields are zero.
unfoldable pub keyword : Keyword → Arg
keyword Keyword.domain = record {
  name = [];
  has_arg = HasArg.optional_arg;
  opt = Opt.no_option;
  parse = none;
  print = none;
}
keyword Keyword.hashsize =
    with_value (b'h' ∷ b'a' ∷ b's' ∷ b'h' ∷ b's' ∷ b'i' ∷ b'z' ∷ b'e' ∷ []) Opt.hashsize
      Parser.parse_uint32 (some Printer.print_number)
keyword Keyword.maxelem =
    with_value (b'm' ∷ b'a' ∷ b'x' ∷ b'e' ∷ b'l' ∷ b'e' ∷ b'm' ∷ []) Opt.maxelem Parser.parse_uint32
      (some Printer.print_number)
keyword Keyword.probes =
    with_value (b'p' ∷ b'r' ∷ b'o' ∷ b'b' ∷ b'e' ∷ b's' ∷ []) Opt.probes Parser.parse_ignored
      (some Printer.print_number)
keyword Keyword.resize =
    with_value (b'r' ∷ b'e' ∷ b's' ∷ b'i' ∷ b'z' ∷ b'e' ∷ []) Opt.resize Parser.parse_ignored
      (some Printer.print_number)
keyword Keyword.gc =
    with_value (b'g' ∷ b'c' ∷ []) Opt.gc Parser.parse_ignored (some Printer.print_number)
keyword Keyword.size =
    with_value (b's' ∷ b'i' ∷ b'z' ∷ b'e' ∷ []) Opt.size Parser.parse_uint32
      (some Printer.print_number)
keyword Keyword.before =
    with_value (b'b' ∷ b'e' ∷ b'f' ∷ b'o' ∷ b'r' ∷ b'e' ∷ []) Opt.nameref Parser.parse_before none
keyword Keyword.after =
    with_value (b'a' ∷ b'f' ∷ b't' ∷ b'e' ∷ b'r' ∷ []) Opt.nameref Parser.parse_after none
keyword Keyword.forceadd =
    plain_flag (b'f' ∷ b'o' ∷ b'r' ∷ b'c' ∷ b'e' ∷ b'a' ∷ b'd' ∷ b'd' ∷ []) Opt.forceadd
keyword Keyword.nomatch =
    plain_flag (b'n' ∷ b'o' ∷ b'm' ∷ b'a' ∷ b't' ∷ b'c' ∷ b'h' ∷ []) Opt.nomatch
keyword Keyword.timeout =
    with_value (b't' ∷ b'i' ∷ b'm' ∷ b'e' ∷ b'o' ∷ b'u' ∷ b't' ∷ []) Opt.timeout
      Parser.parse_timeout (some Printer.print_number)
keyword Keyword.counters =
    plain_flag (b'c' ∷ b'o' ∷ b'u' ∷ b'n' ∷ b't' ∷ b'e' ∷ b'r' ∷ b's' ∷ []) Opt.counters
keyword Keyword.packets =
    with_value (b'p' ∷ b'a' ∷ b'c' ∷ b'k' ∷ b'e' ∷ b't' ∷ b's' ∷ []) Opt.packets Parser.parse_uint64
      (some Printer.print_number)
keyword Keyword.bytes =
    with_value (b'b' ∷ b'y' ∷ b't' ∷ b'e' ∷ b's' ∷ []) Opt.bytes Parser.parse_uint64
      (some Printer.print_number)
keyword Keyword.comment =
    plain_flag (b'c' ∷ b'o' ∷ b'm' ∷ b'm' ∷ b'e' ∷ b'n' ∷ b't' ∷ []) Opt.create_comment
keyword Keyword.adt_comment =
    with_value (b'c' ∷ b'o' ∷ b'm' ∷ b'm' ∷ b'e' ∷ b'n' ∷ b't' ∷ []) Opt.adt_comment
      Parser.parse_comment (some Printer.print_comment)
keyword Keyword.skbinfo =
    plain_flag (b's' ∷ b'k' ∷ b'b' ∷ b'i' ∷ b'n' ∷ b'f' ∷ b'o' ∷ []) Opt.skbinfo
keyword Keyword.skbmark =
    with_value (b's' ∷ b'k' ∷ b'b' ∷ b'm' ∷ b'a' ∷ b'r' ∷ b'k' ∷ []) Opt.skbmark
      Parser.parse_skbmark (some Printer.print_skbmark)
keyword Keyword.skbprio =
    with_value (b's' ∷ b'k' ∷ b'b' ∷ b'p' ∷ b'r' ∷ b'i' ∷ b'o' ∷ []) Opt.skbprio
      Parser.parse_skbprio (some Printer.print_skbprio)
keyword Keyword.skbqueue =
    with_value (b's' ∷ b'k' ∷ b'b' ∷ b'q' ∷ b'u' ∷ b'e' ∷ b'u' ∷ b'e' ∷ []) Opt.skbqueue
      Parser.parse_uint16 (some Printer.print_number)

-- `struct dset_elem` and `struct dset_optarg`
pub record Elem : Type 0 where
  pub parse : Option Parser
  pub print : Option Printer
  pub opt : Opt

pub record OptArg : Type 0 where
  pub args : List Keyword
  pub need : OptBits
  pub full : OptBits

-- DSET_KERNEL_MISMATCH, DSET_KERNEL_CHECK_NEEDED, DSET_KERNEL_OK
pub data KernelCheck : Type 0 where
  mismatch check_needed kernel_ok : KernelCheck

-- `struct dset_type`. `cmd` holds DSET_ADD, DSET_DEL, DSET_TEST and DSET_CREATE. Two structures
-- are told apart by `address`.
pub record UserType : Type 0 where
  pub address : ℕ
  pub name : List ℕ
  pub alias : List (List ℕ)
  pub revision : ℕ
  pub family : ℕ
  pub dimension : ℕ
  pub kernel_check : KernelCheck
  pub last_elem_optional : Bool
  pub elem : List Elem
  pub compat_parse_elem : Option Parser
  pub cmd : List OptArg

-- the loop of `dset_type_add` over the arguments of a command
unfoldable pub add_full : List Keyword → OptBits → OptBits
unfolding keyword
add_full [] full = full
add_full (a ∷ rest) full = add_full rest (with_bits full (flag (keyword a).opt))
