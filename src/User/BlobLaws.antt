-- ===== src/User/BlobLaws.antt =====
-- The data blob of libdset (lib/data.c): what is put in is read back.
use dset.Prelude.{ℕ, ◌+◌, ◌≡◌, ◌≢◌, refl, ap, Option, none, some, List}
use dset.User.Args.{UserType}
use mathlib.Core.Path.{subst}
use dset.Uapi.{
  max_name_len, max_domain_len, max_comment_size, flag_with_counters_bit, flag_with_comment_bit,
  flag_with_forceadd_bit, flag_with_skbinfo_bit, flag_exist_bit,
}
use dset.User.Blob.{
  Value, Union, Blob, Stored, stored, read_u8, read_u16, read_u32, read_u64, read_text, read_type,
  flag_before_bit, flag_physdev_bit, flag_nomatch_bit,
}
use dset.User.BlobSet.{store, field}
use dset.User.Opts.{Opt}
use dset.User.Strings.{strlcpy}

-- what an option is: a number of some bytes, a text in a buffer, the set type, a bit of `flags` or
-- of `cadt_flags`, the whole of `cadt_flags`, or nothing that can be set
pub data Shape : Type 0 where
  byte half word long : Shape
  buffer : ℕ → Shape
  type_pointer : Shape
  flag_bit cadt_bit : ℕ → Shape
  cadt_word : Shape
  no_field : Shape

unfoldable pub shape : Opt → Shape
shape Opt.setname = buffer max_name_len
shape Opt.kind = type_pointer
shape Opt.family = byte
shape Opt.domain = buffer max_domain_len
shape Opt.timeout = word
shape Opt.index = half
shape Opt.gc = word
shape Opt.hashsize = word
shape Opt.maxelem = word
shape Opt.probes = byte
shape Opt.resize = byte
shape Opt.size = word
shape Opt.elements = word
shape Opt.references = word
shape Opt.memsize = word
shape Opt.typename = buffer max_name_len
shape Opt.revision = byte
shape Opt.revision_min = byte
shape Opt.name = buffer max_name_len
shape Opt.nameref = buffer max_name_len
shape Opt.packets = long
shape Opt.bytes = long
shape Opt.adt_comment = buffer (max_comment_size + 1)
shape Opt.skbmark = long
shape Opt.skbprio = word
shape Opt.skbqueue = half
shape Opt.setname2 = buffer max_name_len
shape Opt.flags = word
shape Opt.cadt_flags = cadt_word
shape Opt.exist = flag_bit flag_exist_bit
shape Opt.before = cadt_bit flag_before_bit
shape Opt.physdev = cadt_bit flag_physdev_bit
shape Opt.nomatch = cadt_bit flag_nomatch_bit
shape Opt.counters = cadt_bit flag_with_counters_bit
shape Opt.create_comment = cadt_bit flag_with_comment_bit
shape Opt.forceadd = cadt_bit flag_with_forceadd_bit
shape Opt.skbinfo = cadt_bit flag_with_skbinfo_bit
shape o = no_field

-- the value that is read back: itself, or as much of a text as the buffer holds
abbrev pub kept : Shape → Value → Option Value
kept byte (Value.u8 n) = some (Value.u8 n)
kept half (Value.u16 n) = some (Value.u16 n)
kept word (Value.u32 n) = some (Value.u32 n)
kept long (Value.u64 n) = some (Value.u64 n)
kept (buffer len) (Value.text s) = some (Value.text (strlcpy s len))
kept type_pointer (Value.user_type t) = some (Value.user_type t)
kept s v = none

module _ {U : Type 0} (un : Union U) where
  -- the field is written, under its own option
  abbrev pub Wrote : Blob U → Opt → Value → Stored U → Type 0
  Wrote d o w r = (d' : Blob U) × (r ≡ stored d' o) × (d'.bits ≡ d.bits) × (field un o d' ≡ some w)

  -- a pointer that is read as what it points to
  module _ (d : Blob U) (o : Opt) (w : Value) where
    read_back : (u : Value) (r : Stored U) → some u ≡ some w → Wrote d o u r → Wrote d o w r
    read_back u r h g = subst (λ x. Wrote d o x r) same g
      where
        same : u ≡ w
        same = cc

    by_u8 :
        (v : Value) (f : ℕ → Stored U)
        → ((n : ℕ) → Wrote d o (Value.u8 n) (f n))
        → kept byte v ≡ some w
        → Wrote d o w (read_u8 v f)
    by_u8 (Value.u8 n) f good h = read_back _ (f n) h (good n)
    by_u8 (Value.u16 n) f good h = cc
    by_u8 (Value.u32 n) f good h = cc
    by_u8 (Value.u64 n) f good h = cc
    by_u8 (Value.text s) f good h = cc
    by_u8 (Value.user_type t) f good h = cc

    by_u16 :
        (v : Value) (f : ℕ → Stored U)
        → ((n : ℕ) → Wrote d o (Value.u16 n) (f n))
        → kept half v ≡ some w
        → Wrote d o w (read_u16 v f)
    by_u16 (Value.u8 n) f good h = cc
    by_u16 (Value.u16 n) f good h = read_back _ (f n) h (good n)
    by_u16 (Value.u32 n) f good h = cc
    by_u16 (Value.u64 n) f good h = cc
    by_u16 (Value.text s) f good h = cc
    by_u16 (Value.user_type t) f good h = cc

    by_u32 :
        (v : Value) (f : ℕ → Stored U)
        → ((n : ℕ) → Wrote d o (Value.u32 n) (f n))
        → kept word v ≡ some w
        → Wrote d o w (read_u32 v f)
    by_u32 (Value.u8 n) f good h = cc
    by_u32 (Value.u16 n) f good h = cc
    by_u32 (Value.u32 n) f good h = read_back _ (f n) h (good n)
    by_u32 (Value.u64 n) f good h = cc
    by_u32 (Value.text s) f good h = cc
    by_u32 (Value.user_type t) f good h = cc

    by_u64 :
        (v : Value) (f : ℕ → Stored U)
        → ((n : ℕ) → Wrote d o (Value.u64 n) (f n))
        → kept long v ≡ some w
        → Wrote d o w (read_u64 v f)
    by_u64 (Value.u8 n) f good h = cc
    by_u64 (Value.u16 n) f good h = cc
    by_u64 (Value.u32 n) f good h = cc
    by_u64 (Value.u64 n) f good h = read_back _ (f n) h (good n)
    by_u64 (Value.text s) f good h = cc
    by_u64 (Value.user_type t) f good h = cc

    by_type :
        (v : Value) (f : UserType → Stored U)
        → ((n : UserType) → Wrote d o (Value.user_type n) (f n))
        → kept type_pointer v ≡ some w
        → Wrote d o w (read_type v f)
    by_type (Value.u8 n) f good h = cc
    by_type (Value.u16 n) f good h = cc
    by_type (Value.u32 n) f good h = cc
    by_type (Value.u64 n) f good h = cc
    by_type (Value.text s) f good h = cc
    by_type (Value.user_type t) f good h = read_back _ (f t) h (good t)

    by_text :
        (len : ℕ) (v : Value) (f : List ℕ → Stored U)
        → ((s : List ℕ) → Wrote d o (Value.text s) (f s))
        → kept (buffer len) v ≡ some w
        → Wrote d o w (read_text len v f)
    by_text len (Value.u8 n) f good h = cc
    by_text len (Value.u16 n) f good h = cc
    by_text len (Value.u32 n) f good h = cc
    by_text len (Value.u64 n) f good h = cc
    by_text len (Value.text s) f good h = read_back _ (f (strlcpy s len)) h (good (strlcpy s len))
    by_text len (Value.user_type t) f good h = cc

  -- a value that fits is written, and stands in the field of its option
  pub store-Wrote :
      (o : Opt) (v w : Value) (d : Blob U)
      → kept (shape o) v ≡ some w
      → o ≢ Opt.cadt_flags
      → o ≢ Opt.typename
      → Wrote d o w (store un o v d)
  unfolding store shape field
  store-Wrote Opt.setname v w d h n m =
      by_text d Opt.setname w max_name_len v _ (λ s. (_, refl, refl, refl)) h
  store-Wrote Opt.domain v w d h n m =
      by_text d Opt.domain w max_domain_len v _ (λ s. (_, refl, refl, refl)) h
  store-Wrote Opt.kind v w d h n m = by_type d Opt.kind w v _ (λ n. (_, refl, refl, refl)) h
  store-Wrote Opt.family v w d h n m = by_u8 d Opt.family w v _ (λ n. (_, refl, refl, refl)) h
  store-Wrote Opt.timeout v w d h n m = by_u32 d Opt.timeout w v _ (λ n. (_, refl, refl, refl)) h
  store-Wrote Opt.index v w d h n m = by_u16 d Opt.index w v _ (λ n. (_, refl, refl, refl)) h
  store-Wrote Opt.flags v w d h n m = by_u32 d Opt.flags w v _ (λ n. (_, refl, refl, refl)) h
  store-Wrote Opt.gc v w d h n m =
      by_u32 d Opt.gc w v _
        (λ n. (_, refl, refl, ap (λ c. some (Value.u32 c.gc)) (un.create-put_create _ _))) h
  store-Wrote Opt.hashsize v w d h n m =
      by_u32 d Opt.hashsize w v _
        (λ n. (_, refl, refl, ap (λ c. some (Value.u32 c.hashsize)) (un.create-put_create _ _))) h
  store-Wrote Opt.maxelem v w d h n m =
      by_u32 d Opt.maxelem w v _
        (λ n. (_, refl, refl, ap (λ c. some (Value.u32 c.maxelem)) (un.create-put_create _ _))) h
  store-Wrote Opt.probes v w d h n m =
      by_u8 d Opt.probes w v _
        (λ n. (_, refl, refl, ap (λ c. some (Value.u8 c.probes)) (un.create-put_create _ _))) h
  store-Wrote Opt.resize v w d h n m =
      by_u8 d Opt.resize w v _
        (λ n. (_, refl, refl, ap (λ c. some (Value.u8 c.resize)) (un.create-put_create _ _))) h
  store-Wrote Opt.size v w d h n m =
      by_u32 d Opt.size w v _
        (λ n. (_, refl, refl, ap (λ c. some (Value.u32 c.size)) (un.create-put_create _ _))) h
  store-Wrote Opt.elements v w d h n m =
      by_u32 d Opt.elements w v _
        (λ n. (_, refl, refl, ap (λ c. some (Value.u32 c.elements)) (un.create-put_create _ _))) h
  store-Wrote Opt.references v w d h n m =
      by_u32 d Opt.references w v _
        (λ n. (_, refl, refl, ap (λ c. some (Value.u32 c.references)) (un.create-put_create _ _))) h
  store-Wrote Opt.memsize v w d h n m =
      by_u32 d Opt.memsize w v _
        (λ n. (_, refl, refl, ap (λ c. some (Value.u32 c.memsize)) (un.create-put_create _ _))) h
  store-Wrote Opt.revision v w d h n m =
      by_u8 d Opt.revision w v _
        (λ n. (_, refl, refl, ap (λ c. some (Value.u8 c.revision)) (un.create-put_create _ _))) h
  store-Wrote Opt.revision_min v w d h n m =
      by_u8 d Opt.revision_min w v _
        (λ n. (_, refl, refl, ap (λ c. some (Value.u8 c.revision_min)) (un.create-put_create _ _)))
        h
  store-Wrote Opt.packets v w d h n m =
      by_u64 d Opt.packets w v _
        (λ n. (_, refl, refl, ap (λ a. some (Value.u64 a.packets)) (un.adt-put_adt _ _))) h
  store-Wrote Opt.bytes v w d h n m =
      by_u64 d Opt.bytes w v _
        (λ n. (_, refl, refl, ap (λ a. some (Value.u64 a.bytes)) (un.adt-put_adt _ _))) h
  store-Wrote Opt.skbmark v w d h n m =
      by_u64 d Opt.skbmark w v _
        (λ n. (_, refl, refl, ap (λ a. some (Value.u64 a.skbmark)) (un.adt-put_adt _ _))) h
  store-Wrote Opt.skbprio v w d h n m =
      by_u32 d Opt.skbprio w v _
        (λ n. (_, refl, refl, ap (λ a. some (Value.u32 a.skbprio)) (un.adt-put_adt _ _))) h
  store-Wrote Opt.skbqueue v w d h n m =
      by_u16 d Opt.skbqueue w v _
        (λ n. (_, refl, refl, ap (λ a. some (Value.u16 a.skbqueue)) (un.adt-put_adt _ _))) h
  store-Wrote Opt.name v w d h n m =
      by_text d Opt.name w max_name_len v _
        (λ s. (_, refl, refl, ap (λ a. some (Value.text a.name)) (un.adt-put_adt _ _))) h
  store-Wrote Opt.nameref v w d h n m =
      by_text d Opt.nameref w max_name_len v _
        (λ s. (_, refl, refl, ap (λ a. some (Value.text a.nameref)) (un.adt-put_adt _ _))) h
  store-Wrote Opt.adt_comment v w d h n m =
      by_text d Opt.adt_comment w (max_comment_size + 1) v _
        (λ s. (_, refl, refl, ap (λ a. some (Value.text a.comment)) (un.adt-put_adt _ _))) h
  store-Wrote Opt.setname2 v w d h n m =
      by_text d Opt.setname2 w max_name_len v _
        (λ s. (_, refl, refl, ap (λ x. some (Value.text x)) (un.setname2-put_setname2 _ _))) h
  store-Wrote Opt.typename v w d h n m = absurd (m refl)
  store-Wrote Opt.cadt_flags v w d h n m = absurd (n refl)
  store-Wrote Opt.exist v w d h n m = cc
  store-Wrote Opt.before v w d h n m = cc
  store-Wrote Opt.physdev v w d h n m = cc
  store-Wrote Opt.nomatch v w d h n m = cc
  store-Wrote Opt.counters v w d h n m = cc
  store-Wrote Opt.create_comment v w d h n m = cc
  store-Wrote Opt.forceadd v w d h n m = cc
  store-Wrote Opt.skbinfo v w d h n m = cc
  store-Wrote Opt.no_option v w d h n m = cc
  store-Wrote Opt.elem v w d h n m = cc
  store-Wrote Opt.lineno v w d h n m = cc
  store-Wrote Opt.max_option v w d h n m = cc
