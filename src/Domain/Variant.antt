-- ===== src/Domain/Variant.antt =====
-- `set_variant` of hash:domain: the functions through which the commands on elements call a set
-- (kernel/net/netfilter/dset/domain_set_hash_gen.h, domain_set_hash_domain.c).
use dset.Core.AdtCommands.{Variant}
use dset.Domain.Text.{domain_type}
use dset.Domain.Uadt.{uadt}
use dset.Ext.Attrs.{Attrs}
use dset.Hash.Add.{Memory}
use dset.Hash.Defs.{HSet}
use dset.Hash.Resize.{ResizeMemory, resize}
use dset.Kernel.{Kernel}
use dset.Prelude.{ℕ, List, some}

-- `mem n` and `resize_mem n` are the answers of the allocator in the n-th call
unfoldable pub hash_variant :
    (List ℕ → ℕ → ℕ) → Kernel → (ℕ → Memory) → (ℕ → ResizeMemory) → Variant (HSet (List ℕ)) Attrs
hash_variant jhash2 k mem resize_mem = record {
  uadt = λ n adt tb flags retried s. uadt jhash2 k (mem n) adt tb flags s;
  lineno = λ tb. tb.lineno;
  resize = some (λ n s. resize (domain_type jhash2) k (resize_mem n) s);
}
