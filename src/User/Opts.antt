-- ===== src/User/Opts.antt =====
-- `enum dset_opt` and the option bits (include/libdset/data.h).
use dset.Prelude.{ℕ, Bool, false, not, ◌&&◌, ◌||◌, ◌==◌}

pub data Opt : Type 0 where
  no_option : Opt
  setname typename family : Opt
  domain timeout : Opt
  gc hashsize maxelem probes resize size forceadd : Opt
  elements references memsize : Opt
  name nameref : Opt
  setname2 : Opt
  exist before physdev nomatch counters packets bytes create_comment adt_comment : Opt
  skbinfo skbmark skbprio skbqueue : Opt
  flags cadt_flags elem kind lineno revision revision_min index max_option : Opt

unfoldable pub opt_number : Opt → ℕ
opt_number no_option = 0
opt_number setname = 1
opt_number typename = 2
opt_number family = 3
opt_number domain = 4
opt_number timeout = 5
opt_number gc = 6
opt_number hashsize = 7
opt_number maxelem = 8
opt_number probes = 9
opt_number resize = 10
opt_number size = 11
opt_number forceadd = 12
opt_number elements = 13
opt_number references = 14
opt_number memsize = 15
opt_number name = 16
opt_number nameref = 17
opt_number setname2 = 18
opt_number exist = 19
opt_number before = 20
opt_number physdev = 21
opt_number nomatch = 22
opt_number counters = 23
opt_number packets = 24
opt_number bytes = 25
opt_number create_comment = 26
opt_number adt_comment = 27
opt_number skbinfo = 28
opt_number skbmark = 29
opt_number skbprio = 30
opt_number skbqueue = 31
opt_number flags = 48
opt_number cadt_flags = 49
opt_number elem = 50
opt_number kind = 51
opt_number lineno = 52
opt_number revision = 53
opt_number revision_min = 54
opt_number index = 55
opt_number max_option = 56

-- A u64 of option bits, read bit by bit.
abbrev pub OptBits : Type 0
OptBits = ℕ → Bool

abbrev pub no_bits : OptBits
no_bits = λ i. false

-- DSET_FLAG
unfoldable pub flag : Opt → OptBits
unfolding opt_number
flag o i = opt_number o == i

-- `bits | more`, `bits & ~gone`
abbrev pub with_bits : OptBits → OptBits → OptBits
with_bits bits more i = bits i || more i

abbrev pub without_bits : OptBits → OptBits → OptBits
without_bits bits gone i = bits i && not (gone i)

-- `!!(a & b)` among the bits below `n`
unfoldable pub meets : ℕ → OptBits → OptBits → Bool
meets ℕ.zero a b = false
meets (ℕ.suc n) a b = (a n && b n) || meets n a b

-- the bit of one option
abbrev pub opt_bit : OptBits → Opt → Bool
opt_bit bits o = bits (opt_number o)
