-- ===== src/Tests/PacketRuns.antt =====
-- A set of domains that a packet is tested against.
use dset.Domain.DecodeLaws.{IsLabel, wire}
use dset.Domain.Kadt.{AdtOpt, adt_test, matched, domain_offset, kernel_ext, kadt}
use dset.Domain.KadtLaws.{any_passes}
use dset.Domain.PacketLaws.{parents, matched-kadt}
use dset.Domain.Text.{domain_type}
use dset.Ext.{zero_ext}
use dset.Hash.Defs.{HSet, hkey, bucket_at}
use dset.Hash.View.{Fits, IsPlaced, used_count, total, count, IsValid}
use dset.Prelude.{
  drop, true, false, ℕ, zero, suc, ◌≡◌, refl, none, some, List, [], ◌∷◌, ◌++◌, replicate, All,
  arith,
}
use dset.Tests.HashRuns.{kernel, timed, until, plain, enough}

abbrev pub seed_hash : List ℕ → ℕ → ℕ
seed_hash words initval = initval

-- the domain `c`, live for a while
abbrev pub domains : HSet (List ℕ)
domains = record {
  exts = timed;
  forceadd = false;
  timeout = 10;
  dsize = 280;
  elements = 1;
  ext_size = 0;
  maxelem = 8;
  initval = 0;
  htable_bits = 1;
  buckets =
      some (record {
        size = 4;
        slots = record { used = true; elem = 99 ∷ []; ext = until 150 } ∷ [];
        spare = zero_ext ∷ zero_ext ∷ zero_ext ∷ [];
      })
      ∷ none
      ∷ [];
  next = none;
}

domains-Fits : (i : ℕ) → Fits (bucket_at domains.buckets i)
domains-Fits zero = (refl, omega arith, refl)
domains-Fits (suc zero) = tt
domains-Fits (suc (suc i)) = tt

domains-IsPlaced : IsPlaced (domain_type seed_hash) domains
unfolding count hkey
domains-IsPlaced q zero = (ground arith, λ far. absurd (far refl))
domains-IsPlaced q (suc zero) = (omega arith, λ _. refl)
domains-IsPlaced q (suc (suc i)) = (omega arith, λ _. refl)

pub domains-IsValid : IsValid (domain_type seed_hash) domains
unfolding total used_count
domains-IsValid = record {
  width = refl;
  fits = domains-Fits;
  placed = domains-IsPlaced;
  counted = refl;
}

-- a query for `ab.c`
abbrev query : List ℕ
query = replicate 40 0 ++ (2 ∷ 97 ∷ 98 ∷ 1 ∷ 99 ∷ 0 ∷ 0 ∷ 1 ∷ [])

abbrev match_opt : AdtOpt
match_opt = record { cmdflags = 0; mext = plain }

query_labels : All IsLabel ((97 ∷ 98 ∷ []) ∷ (99 ∷ []) ∷ [])
query_labels = ground arith

packet_read : drop domain_offset query ≡ wire ((97 ∷ 98 ∷ []) ∷ (99 ∷ []) ∷ []) ++ (0 ∷ 1 ∷ [])
unfolding replicate
packet_read = refl

matched-kadt_example :
    (kadt seed_hash kernel enough adt_test query match_opt domains).0
    ≡ matched (
        any_passes seed_hash kernel
          (kernel_ext query match_opt domains)
          0
          domains
          plain
          (parents (97 ∷ 98 ∷ []) ((99 ∷ []) ∷ [])))
matched-kadt_example =
    matched-kadt seed_hash kernel enough (97 ∷ 98 ∷ []) ((99 ∷ []) ∷ []) query (0 ∷ 1 ∷ [])
      match_opt domains-IsValid query_labels (omega arith) packet_read
