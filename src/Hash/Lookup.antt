-- ===== src/Hash/Lookup.antt =====
-- `mtype_test` and `mtype_data_match` (kernel/net/netfilter/dset/domain_set_hash_gen.h).
use dset.Ext.Match.{match_extensions}
use dset.Ext.{Ext, Extensions}
use dset.Hash.Defs.{MType, Slot, HBucket, HSet, hkey, bucket_at}
use dset.Kernel.{Kernel}
use dset.Prelude.{ℕ, Bool, true, false, ◌&&◌, Option, none, some, List, [], ◌∷◌, if◌then◌else◌, set}

-- what a test returns: whether an element matched (1 or 0: `mtype_do_data_match` is 1), the set
-- with the counters of the matched element updated, and the match's `mext`
pub record Tested (A : Type 0) : Type 0 where
  pub matched : Bool
  pub after : A
  pub mext : Ext

module _ {E : Type 0} (m : MType E) (k : Kernel) where
  unfoldable pub test_slots :
      Extensions → E → Ext → Ext → ℕ → List (Slot E) → Tested (List (Slot E))
  test_slots exts d ext mext flags [] = record { matched = false; after = []; mext = mext }
  test_slots exts d ext mext flags (x ∷ xs) =
      let rest = test_slots exts d ext mext flags xs in
      let next : Tested (List (Slot E)) = record rest { after = x ∷ rest.after } in
      if x.used && m.data_equal x.elem d
      then elim (match_extensions k exts ext mext flags x.ext) [
        | none ↦ next
        | some (area, mext') ↦ record {
          matched = true;
          after = record x { ext = area } ∷ xs;
          mext = mext';
        }
      ]
      else next

  unfoldable pub test_at : HSet E → ℕ → E → Ext → Ext → ℕ → Option (HBucket E) → Tested (HSet E)
  unfolding test_slots
  test_at s key d ext mext flags none = record { matched = false; after = s; mext = mext }
  test_at s key d ext mext flags (some n) =
      let r = test_slots s.exts d ext mext flags n.slots in
      record {
        matched = r.matched;
        after = record s { buckets = set s.buckets key (some (record n { slots = r.after })) };
        mext = r.mext;
      }

  unfoldable pub test : HSet E → E → Ext → Ext → ℕ → Tested (HSet E)
  unfolding test_at
  test s d ext mext flags =
      let key = hkey m d s.initval s.htable_bits in
      test_at s key d ext mext flags (bucket_at s.buckets key)
