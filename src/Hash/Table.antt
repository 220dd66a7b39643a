-- ===== src/Hash/Table.antt =====
-- The size of the table: `htable_size` and `htable_bits`
-- (kernel/net/netfilter/dset/domain_set_hash_gen.h).
use dset.Kernel.{Kernel}
use dset.Hash.Defs.{jhash_size}
use dset.Prelude.{ℕ, ◌+◌, ◌-◌, ◌*◌, ◌/◌, ◌%◌, ◌^◌, ltb, ◌==◌, if◌then◌else◌, sub32}

-- `htable_size`; 0 means that the table cannot be had
unfoldable pub htable_size : Kernel → ℕ → ℕ
htable_size k hbits =
    if ltb 31 hbits
    then 0
    else if ltb ((2 ^ 64 - 1 - k.sizeof_htable) / k.sizeof_pointer) (jhash_size hbits)
    then 0
    else jhash_size hbits * k.sizeof_pointer + k.sizeof_htable

-- `htable_bits`; `jhash_size` is a shift of a u32, so it wraps to 0 at 32 bits
unfoldable pub htable_bits : Kernel → ℕ → ℕ
htable_bits k hashsize =
    let bits = k.fls (sub32 hashsize 1) in
    if jhash_size bits % 2 ^ 32 == hashsize then bits else k.fls hashsize
