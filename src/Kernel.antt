-- ===== src/Kernel.antt =====
-- What the code takes from the Linux kernel: the clock and the sizes of structures. None of it
-- is under kernel/, so it is a parameter; a theorem that relies on a law of it says so.
use dset.Prelude.{ℕ, Bool}

pub record Kernel : Type 0 where
  -- the current value of `jiffies`
  pub jiffies : ℕ
  -- `time_is_before_jiffies(t)`: the time `t` has passed
  pub time_is_before : ℕ → Bool
  pub msecs_to_jiffies : ℕ → ℕ
  pub jiffies_to_msecs : ℕ → ℕ
  -- `fls`: the number of the highest bit that is set, counted from 1
  pub fls : ℕ → ℕ
  -- `sizeof(struct hbucket)`, `sizeof(struct domain_set_comment_rcu)`, and those of a pointer
  -- and of `struct htable`
  pub sizeof_hbucket : ℕ
  pub sizeof_comment : ℕ
  pub sizeof_pointer : ℕ
  pub sizeof_htable : ℕ
