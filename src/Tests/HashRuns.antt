-- ===== src/Tests/HashRuns.antt =====
-- A hash table of numbers, hashed by themselves.
use dset.Ext.{Ext, ElemExt, Extensions, no_info, zero_ext}
use dset.Hash.Add.{Memory, add, make_room, must_force}
use dset.Hash.AddLaws.{Outcome, add-Outcome}
use dset.Ext.Layout.{ExtSizes}
use dset.Hash.Create.{HashAttrs, HashEnv}
use dset.Hash.Defs.{MType, HBucket, HSet, hkey, bucket_at}
use dset.Hash.Del.{del}
use dset.Hash.DelLaws.{Deletion, del-Deletion}
use dset.Hash.Expire.{expire}
use dset.Hash.ExpireLaws.{expire-IsValid, live-expire}
use dset.Hash.Lookup.{test}
use dset.Hash.LookupLaws.{Testing, test-Testing}
use dset.Hash.Resize.{ResizeMemory, resize}
use dset.Hash.ResizeLaws.{Finished, resize-Finished}
use dset.Hash.View.{Fits, IsPlaced, used_count, total, count, IsValid, live}
use dset.Kernel.{Kernel}
use dset.Prelude.{
  ◌/◌, if◌then◌else◌, ℕ, zero, suc, ◌+◌, ◌≡◌, refl, true, false, none, some, [], ◌∷◌, ltb, ◌==◌,
  ==_iff, arith,
}

abbrev numbers : MType ℕ
numbers = record { data_equal = ◌==◌; data_equal_iff = ==_iff; jhash = λ d initval. d + initval }

-- the number of the highest bit that is set, among `n` bits
abbrev fls_from : ℕ → ℕ → ℕ
fls_from zero x = 0
fls_from (suc n) x = let rest = fls_from n (x / 2) in if x == 0 then 0 else suc rest

abbrev pub kernel : Kernel
kernel = record {
  jiffies = 100;
  time_is_before = λ t. ltb t 100;
  msecs_to_jiffies = λ x. x;
  jiffies_to_msecs = λ x. x;
  fls = fls_from 32;
  sizeof_hbucket = 24;
  sizeof_comment = 16;
  sizeof_pointer = 8;
  sizeof_htable = 32;
}

abbrev pub timed : Extensions
timed = record {
  with_timeout = true;
  with_counter = true;
  with_comment = false;
  with_skbinfo = false;
  with_destroy = false;
}

-- one live element in the first bucket, an expired one beside it
abbrev pub until : ℕ → ElemExt
until t = record zero_ext { timeout = t }

abbrev first : HBucket ℕ
first = record {
  size = 4;
  slots =
      record { used = true; elem = 4; ext = until 150 }
      ∷ record { used = true; elem = 6; ext = until 50 }
      ∷ [];
  spare = zero_ext ∷ zero_ext ∷ [];
}

abbrev table : HSet ℕ
table = record {
  exts = timed;
  forceadd = false;
  timeout = 10;
  dsize = 64;
  elements = 2;
  ext_size = 0;
  maxelem = 8;
  initval = 0;
  htable_bits = 1;
  buckets = some first ∷ none ∷ [];
  next = none;
}

table-Fits : (i : ℕ) → Fits (bucket_at table.buckets i)
table-Fits zero = (refl, omega arith, refl)
table-Fits (suc zero) = tt
table-Fits (suc (suc i)) = tt

table-IsPlaced : IsPlaced numbers table
unfolding count hkey
table-IsPlaced q zero = (ground arith, λ far. ground arith)
table-IsPlaced q (suc zero) = (omega arith, λ _. refl)
table-IsPlaced q (suc (suc i)) = (omega arith, λ _. refl)

table-IsValid : IsValid numbers table
unfolding total used_count
table-IsValid = record { width = refl; fits = table-Fits; placed = table-IsPlaced; counted = refl }

abbrev pub plain : Ext
plain = record {
  info = no_info;
  packets = 1;
  bytes = 60;
  comment = none;
  timeout = 30;
  packets_op = 0;
  bytes_op = 0;
}

abbrev pub enough : Memory
enough = record { expire = λ _. true; bucket = true; comment = true }

expire-IsValid_example : IsValid numbers (expire kernel (λ _. true) table)
expire-IsValid_example = expire-IsValid numbers kernel table-IsValid (λ _. true) refl

live-expire_example :
    live numbers kernel (expire kernel (λ _. true) table) 4 ≡ live numbers kernel table 4
live-expire_example = live-expire numbers kernel table-IsValid (λ _. true) refl 4

add-Outcome_example :
    Outcome numbers kernel 8 plain enough.comment table
      (must_force numbers kernel table (make_room numbers kernel table enough))
      (add numbers kernel table enough 8 plain false)
add-Outcome_example = add-Outcome numbers kernel 8 plain table-IsValid enough false

del-Deletion_example : Deletion numbers kernel 4 table (del numbers kernel table true 4)
del-Deletion_example = del-Deletion numbers kernel 4 table-IsValid true

test-Testing_example :
    Testing numbers kernel 4 plain plain 0 table-IsValid (test numbers kernel table 4 plain plain 0)
test-Testing_example = test-Testing numbers kernel 4 plain plain 0 table-IsValid

abbrev sizes : ExtSizes
sizes = record {
  counter_len = 16;
  counter_align = 8;
  timeout_len = 8;
  timeout_align = 8;
  skbinfo_len = 16;
  skbinfo_align = 4;
  comment_len = 8;
  comment_align = 8;
}

abbrev env : HashEnv
env = record {
  sizes = sizes;
  elem_size = 4;
  elem_align = 4;
  alloc_hash = true;
  alloc_table = true;
  random = 3;
}

abbrev no_attrs : HashAttrs
no_attrs = record { hashsize = none; maxelem = none; timeout = none; cadt_flags = none }

abbrev ample : ResizeMemory
ample = record { table = λ _. true; bucket = λ _ _. true }

resize-Finished_example : Finished numbers kernel ample table (resize numbers kernel ample table)
resize-Finished_example = resize-Finished numbers kernel ample table table-IsValid (omega arith)
