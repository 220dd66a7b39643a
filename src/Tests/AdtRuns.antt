-- ===== src/Tests/AdtRuns.antt =====
-- The commands on elements, on a set of hash:domain.
use dset.Core.AdtCommands.{Nested, AdAttrs, utest, ad_loop}
use dset.Core.RetryLaws.{Once}
use dset.Core.Sets.{DomainSet, Net, find_set_and_id}
use dset.Core.Types.{SetType}
use dset.Domain.CommandLaws.{SameLive, hash_ad_loop-Once}
use dset.Domain.Kadt.{adt_add}
use dset.Domain.Text.{domain_type, text_eq}
use dset.Domain.TestCommandLaws.{hash_utest-live}
use dset.Domain.Uadt.{without_nuls, is_text, elem_of_attr, user_ext}
use dset.Domain.Variant.{hash_variant}
use dset.Domain.VariantLaws.{IsHash, doublings}
use dset.Ext.Attrs.{Attrs, get_extensions}
use dset.Hash.LookupLaws.{passes}
use dset.Hash.View.{live}
use dset.Hash.Defs.{HSet}
use dset.Hash.Resize.{ResizeMemory}
use dset.Prelude.{
  ℕ, ◌≡◌, refl, true, false, if◌then◌else◌, none, some, Option, List, [], ◌∷◌, arith,
}
use dset.Tests.HashRuns.{kernel, enough}
use dset.Tests.PacketRuns.{seed_hash, domains, domains-IsValid}
use dset.Uapi.{Errno, ok, err}

abbrev all_given : ResizeMemory
all_given = record { table = λ n. true; bucket = λ n i. true }

-- add the domain `d`, from line 7
abbrev attrs : Attrs
attrs = record {
  domain = some (100 ∷ []);
  lineno = some 7;
  timeout = none;
  bytes = none;
  packets = none;
  comment = none;
  skbmark = none;
  skbprio = none;
  skbqueue = none;
}

hash_ad_loop-Once_example :
    Once
      (IsHash seed_hash)
      (doublings seed_hash)
      (SameLive seed_hash kernel)
      (hash_variant seed_hash kernel (λ n. enough) (λ n. all_given))
      adt_add
      attrs
      0
      domains
      (ad_loop
        (hash_variant seed_hash kernel (λ n. enough) (λ n. all_given))
        256
        0
        adt_add
        attrs
        0
        domains)
hash_ad_loop-Once_example =
    hash_ad_loop-Once seed_hash kernel (λ n. enough) (λ n. all_given) adt_add attrs 0 domains
      (domains-IsValid, omega arith)

-- "c" with two NULs is copied as "c", and a NUL inside stays
elem_of_attr_run :
    (elem_of_attr (99 ∷ 0 ∷ 0 ∷ []) ≡ 99 ∷ [])
    × (elem_of_attr (99 ∷ 0 ∷ 120 ∷ 0 ∷ []) ≡ 99 ∷ 0 ∷ 120 ∷ [])
unfolding elem_of_attr without_nuls
elem_of_attr_run = (refl, refl)

abbrev kind : SetType
kind = record {
  address = 1;
  name = 104 ∷ 100 ∷ [];
  protocol = 9;
  family = 0;
  revision_min = 0;
  revision_max = 2;
  features = 1;
}

abbrev domain_set : DomainSet (HSet (List ℕ))
domain_set = record {
  name = 97 ∷ [];
  ref = 0;
  ref_netlink = 0;
  kind = kind;
  family = 0;
  revision = 0;
  content = domains;
}

abbrev one_set : Net (HSet (List ℕ))
one_set = record { sets = some domain_set ∷ []; is_deleted = false; is_destroyed = false }

abbrev Content : Option (DomainSet (HSet (List ℕ))) → Type 0
Content none = ⊥
Content (some s) = IsHash seed_hash s.content

abbrev message : AdAttrs Attrs
message = record {
  protocol = some 9;
  setname = some (97 ∷ []);
  element = none;
  adt = some (true, record { nested = true; is_data = true; parsed = λ t. some attrs } ∷ []);
  has_lineno = true;
}

-- a query for the domain `c`
abbrev asked : Attrs
asked = record attrs { domain = some (99 ∷ []); lineno = none }

abbrev question : Nested Attrs
question = record { nested = true; is_data = true; parsed = λ t. some asked }

abbrev test_message : AdAttrs Attrs
test_message = record {
  protocol = some 9;
  setname = some (97 ∷ []);
  element = some question;
  adt = none;
  has_lineno = false;
}

hash_utest-live_example :
    (utest (hash_variant seed_hash kernel (λ n. enough) (λ n. all_given)) test_message one_set).0
    ≡ (if passes
          (domain_type seed_hash)
          kernel
          (elem_of_attr (99 ∷ []))
          (user_ext domains)
          (user_ext domains)
          0
          domains.exts
          (live (domain_type seed_hash) kernel domains (elem_of_attr (99 ∷ [])))
        then ok
        else err Errno.exist)
hash_utest-live_example =
    hash_utest-live seed_hash kernel (λ n. enough) (λ n. all_given) test_message one_set (97 ∷ [])
      (99 ∷ []) 0 domain_set question asked (user_ext domains) refl refl refl refl
      (unfold find_set_and_id text_eq in refl) refl refl refl (unfold get_extensions in refl)
      (unfold elem_of_attr without_nuls is_text in refl) domains-IsValid
