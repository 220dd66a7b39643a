-- ===== src/Ext/Match.antt =====
-- Matching an element's extensions: `domain_set_match_extensions` and what it calls
-- (kernel/net/netfilter/dset/domain_set_core.c).
use dset.Ext.{Counter, Ext, ElemExt, Extensions, ullong_max, timeout_expired}
use dset.Kernel.{Kernel}
use dset.Prelude.{
  ℕ, Bool, true, false, not, ◌&&◌, Option, none, some, ltb, ◌==◌, if◌then◌else◌, add64,
}
use dset.Uapi.{has_flag, flag_skip_counter_update_bit, flag_match_counters_bit}

-- `domain_set_match_counter`: DSET_COUNTER_NONE, _EQ, _NE, _LT, _GT are 0 to 4
unfoldable pub match_counter : ℕ → ℕ → ℕ → Bool
match_counter counter match op =
    if op == 0
    then true
    else if op == 1
    then counter == match
    else if op == 2
    then not (counter == match)
    else if op == 3
    then ltb counter match
    else if op == 4
    then ltb match counter
    else false

-- `domain_set_update_counter`
unfoldable pub update_counter : Counter → Ext → ℕ → Counter
update_counter c ext flags =
    if not (ext.packets == ullong_max) && not (has_flag flags flag_skip_counter_update_bit)
    then record { bytes = add64 c.bytes ext.bytes; packets = add64 c.packets ext.packets }
    else c

-- the test that makes `domain_set_match_extensions` fail on counters
unfoldable pub counters_pass : Counter → Ext → ℕ → Bool
unfolding match_counter
counters_pass c mext flags =
    if has_flag flags flag_match_counters_bit
    then match_counter c.packets mext.packets mext.packets_op
      && match_counter c.bytes mext.bytes mext.bytes_op
    else true

module _ (k : Kernel) where
  -- `domain_set_match_extensions`: `none` is the result false; on true the element's counters and
  -- the match's skbinfo are updated
  unfoldable pub match_extensions : Extensions → Ext → Ext → ℕ → ElemExt → Option (ElemExt × Ext)
  unfolding counters_pass
  match_extensions exts ext mext flags e =
      if exts.with_timeout && timeout_expired k e.timeout
      then none
      else if exts.with_counter && not (counters_pass e.counter mext flags)
      then none
      else some (
        record e {
          counter = if exts.with_counter then update_counter e.counter ext flags else e.counter;
        },
        if exts.with_skbinfo then record mext { info = e.info } else mext,
      )
