-- ===== src/Ext/WriteLaws.antt =====
-- What the extensions of an element are after they were written.
use dset.Ext.{
  Counter, Ext, ElemExt, Extensions, ullong_max, timeout_set, init_counter, comment_free,
  store_comment, init_comment, write_extensions,
}
use dset.Uapi.{max_comment_size}
use dset.Kernel.{Kernel}
use dset.Prelude.{
  Option, none, some, List, [], ◌∷◌, false, length, take, cstr, ◌==◌, ℕ, ◌≡◌, refl, ◌≢◌, Bool, true,
  if◌then◌else◌, if_cases, arith,
}

init_comment-counter :
    (k : Kernel) (alloc : Bool) (ext : Ext) (e : ElemExt) (size : ℕ)
    → (init_comment k alloc ext e size).0.counter ≡ e.counter
unfolding init_comment comment_free store_comment
init_comment-counter k alloc ext e size = ground arith

counter_asked : Extensions → Ext → ElemExt → Counter
counter_asked exts ext e = if exts.with_counter then init_counter e.counter ext else e.counter

write_extensions-counter :
    (k : Kernel) (exts : Extensions) (alloc : Bool) (ext : Ext) (e : ElemExt) (size : ℕ)
    → (write_extensions k exts alloc ext e size).0.counter ≡ counter_asked exts ext e
unfolding write_extensions counter_asked
write_extensions-counter k exts alloc ext e size =
    let start : ElemExt = record e { counter = counter_asked exts ext e } in
    if_cases (λ (r : ElemExt × ℕ). r.0.counter ≡ counter_asked exts ext e) exts.with_comment
      (λ _. init_comment-counter k alloc ext start size) (λ _. refl)

abbrev pub is_nil : List ℕ → Bool
is_nil [] = true
is_nil (c ∷ cs) = false

-- the comment that an element gets: the text up to a NUL, at most DSET_MAX_COMMENT_SIZE bytes of it;
-- none if there is no text or no memory
abbrev pub comment_asked : Bool → Option (List ℕ) → Option (List ℕ)
comment_asked false text = none
comment_asked true none = none
comment_asked true (some text) =
    if is_nil (cstr text) then none else some (take max_comment_size (cstr text))

store-asked :
    (k : Kernel) (alloc : Bool) (text : List ℕ) (e : ElemExt) (size : ℕ)
    → e.comment ≡ none
    → (if length (cstr text) == 0 then (e, size) else store_comment k alloc text e size).0.comment
      ≡ comment_asked alloc (some text)
unfolding store_comment
store-asked k alloc text e size empty = ground (arith, empty)

init_comment-asked :
    (k : Kernel) (alloc : Bool) (ext : Ext) (e : ElemExt) (size : ℕ)
    → (init_comment k alloc ext e size).0.comment ≡ comment_asked alloc ext.comment
unfolding init_comment comment_free
init_comment-asked k alloc ext e size = go alloc ext.comment (comment_free k e size) freed
  where
    freed : (comment_free k e size).0.comment ≡ none
    freed = ground arith

    go :
        (a : Bool) (o : Option (List ℕ)) (r : ElemExt × ℕ)
        → r.0.comment ≡ none
        → (elim o as (λ _. ElemExt × ℕ) [
          | none ↦ (r.0, r.1)
          | some text ↦
              if length (cstr text) == 0 then (r.0, r.1) else store_comment k a text r.0 r.1
        ]).0.comment
          ≡ comment_asked a o
    go true none r h = h
    go false none r h = h
    go a (some text) r h = store-asked k a text r.0 r.1 h

write_extensions-comment :
    (k : Kernel) (exts : Extensions) (alloc : Bool) (ext : Ext) (e : ElemExt) (size : ℕ)
    → exts.with_comment ≡ true
    → (write_extensions k exts alloc ext e size).0.comment ≡ comment_asked alloc ext.comment
unfolding write_extensions
write_extensions-comment k exts alloc ext e size h = rw h (init_comment-asked k alloc ext _ size)

-- what the extensions of an element are after a command that asked for `ext`, where `alloc` tells
-- whether there is memory for a comment
pub record Written (k : Kernel) (exts : Extensions) (alloc : Bool) (ext : Ext) (e : ElemExt)
    : Type 0 where
  pub comment : exts.with_comment ≡ true → e.comment ≡ comment_asked alloc ext.comment
  pub timeout : exts.with_timeout ≡ true → e.timeout ≡ timeout_set k ext.timeout
  pub info : exts.with_skbinfo ≡ true → e.info ≡ ext.info
  pub bytes : exts.with_counter ≡ true → ext.bytes ≢ ullong_max → e.counter.bytes ≡ ext.bytes
  pub packets :
      exts.with_counter ≡ true → ext.packets ≢ ullong_max → e.counter.packets ≡ ext.packets

pub write_extensions-Written :
    (k : Kernel) (exts : Extensions) (alloc : Bool) (ext : Ext) (e : ElemExt) (size : ℕ)
    → Written k exts alloc ext (write_extensions k exts alloc ext e size).0
unfolding init_counter counter_asked
write_extensions-Written k exts alloc ext e size = record {
  comment = write_extensions-comment k exts alloc ext e size;
  timeout = λ h. unfold write_extensions in rw h;
  info = λ h. unfold write_extensions in rw h;
  bytes = λ h n. ground (arith, write_extensions-counter k exts alloc ext e size);
  packets = λ h n. ground (arith, write_extensions-counter k exts alloc ext e size);
}
