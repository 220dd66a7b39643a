-- ===== src/User/TypeAddLaws.antt =====
-- `dset_type_add` (lib/types.c): what is registered, and in which order.
use dset.Domain.Text.{text_eq, text_eq_iff}
use dset.Prelude.{
  ℕ, ◌-◌, ◌<◌, ◌≡◌, ◌≢◌, ◌⊎◌, inl, inr, refl, true, Option, none, some, List, [], ◌∷◌,
  if◌then◌else◌, if_cases, ltb, ◌≤◌, ltb→lt, ◌==◌, ◌&&◌, length, All, arith, ==_iff, Bool-cases,
}
use dset.Uapi.{Errno, Status, max_name_len}
use dset.User.Args.{UserType}
use dset.User.TypeList.{
  Place, same_revision, before_it, further, place, place_next, Inserted, exists, run_through,
  inserted, behind, insert_type, fill_full, type_add, type_add_end,
}

-- the type of a name and a revision
unfoldable pub find_revision : List ℕ → ℕ → List UserType → Option UserType
find_revision name rev [] = none
find_revision name rev (t ∷ rest) =
    if text_eq t.name name && t.revision == rev then some t else find_revision name rev rest

-- of two types with the name of `t`, `t` is the higher revision
abbrev pub IsAbove : UserType → UserType → Type 0
IsAbove t u = text_eq t.name u.name ≡ true → u.revision < t.revision

-- higher revisions come first
abbrev pub Descending : List UserType → Type 0
Descending [] = Unit {0}
Descending (t ∷ rest) = All (IsAbove t) rest × Descending rest

-- a type of this name is there
abbrev pub HasName : List ℕ → List UserType → Type 0
HasName name [] = ⊥
HasName name (t ∷ rest) = (text_eq t.name name ≡ true) ⊎ HasName name rest

-- what the loop finds
abbrev Loop : UserType → List UserType → Inserted → Type 0
Loop n l exists = find_revision n.name n.revision l ≢ none
Loop n l run_through = All (λ u. IsAbove u n) l
Loop n l (inserted l') =
    ((t : UserType) → IsAbove t n → All (IsAbove t) l → All (IsAbove t) l')
    × (Descending l → Descending l')
    × ((name : List ℕ) (rev : ℕ)
        → find_revision name rev l'
          ≡ (if text_eq n.name name && n.revision == rev then some n else find_revision name rev l))

-- one comparison
abbrev Placed : UserType → UserType → Place → Type 0
Placed n t same_revision = (text_eq t.name n.name ≡ true) × (t.revision ≡ n.revision)
Placed n t before_it = (text_eq t.name n.name ≡ true) × (t.revision < n.revision)
Placed n t further = IsAbove t n

place-Placed : (n t : UserType) → Placed n t (place n t)
unfolding place
place-Placed n t =
    if_cases (Placed n t) (text_eq t.name n.name)
      (λ same.
        if_cases (Placed n t) (t.revision == n.revision)
          (λ e. (same, (==_iff t.revision n.revision).0 e))
          (λ ne.
            if_cases (Placed n t) (ltb t.revision n.revision)
              (λ h. (same, ltb→lt t.revision n.revision h)) (λ h _. ground arith)))
      (λ other e. ground (arith))

found_here :
    (n t : UserType) (rest : List UserType)
    → text_eq t.name n.name ≡ true
    → t.revision ≡ n.revision
    → find_revision n.name n.revision (t ∷ rest) ≢ none
unfolding find_revision
found_here n t rest same e = ground arith

found_later :
    (n t : UserType) (rest : List UserType)
    → find_revision n.name n.revision rest ≢ none
    → find_revision n.name n.revision (t ∷ rest) ≢ none
unfolding find_revision
found_later n t rest h = ground arith

-- what is below a lower revision is below the new one
All-below :
    (n t : UserType) (rest : List UserType)
    → text_eq t.name n.name ≡ true
    → t.revision < n.revision
    → All (IsAbove t) rest
    → All (IsAbove n) rest
All-below n t [] same low a = tt
All-below n t (u ∷ rest) same low (a, more) = (
  λ e.
      ground
        (arith, text_eq_iff t.name n.name, text_eq_iff n.name u.name, text_eq_iff t.name u.name, a),
  All-below n t rest same low more,
)

find-front :
    (n : UserType) (l : List UserType) (name : List ℕ) (rev : ℕ)
    → find_revision name rev (n ∷ l)
      ≡ (if text_eq n.name name && n.revision == rev then some n else find_revision name rev l)
unfolding find_revision
find-front n l name rev = refl

-- a type further on does not hide one that stands before it
find-behind :
    (n t : UserType) (l l' : List UserType) (name : List ℕ) (rev : ℕ)
    → IsAbove t n
    → find_revision name rev l'
      ≡ (if text_eq n.name name && n.revision == rev then some n else find_revision name rev l)
    → find_revision name rev (t ∷ l') ≡ (
        if text_eq n.name name && n.revision == rev then some n else find_revision name rev (t ∷ l))
unfolding find_revision
find-behind n t l l' name rev above e =
    ground
      (arith, text_eq_iff n.name name, text_eq_iff t.name name, text_eq_iff t.name n.name, above)

front-Loop :
    (n t : UserType) (rest : List UserType)
    → text_eq t.name n.name ≡ true
    → t.revision < n.revision
    → Loop n (t ∷ rest) (inserted (n ∷ t ∷ rest))
front-Loop n t rest same low = (
  λ w a more. (a, more),
  λ d. ((λ e. low, All-below n t rest same low d.0), d),
  find-front n (t ∷ rest),
)

behind-Loop :
    (n t : UserType) (rest : List UserType) (r : Inserted)
    → IsAbove t n
    → Loop n rest r
    → Loop n (t ∷ rest) (behind t r)
behind-Loop n t rest exists above h = found_later n t rest h
behind-Loop n t rest run_through above h =
    (λ e. above (ground (arith, text_eq_iff t.name n.name, text_eq_iff n.name t.name)), h)
behind-Loop n t rest (inserted l') above (all, desc, finds) = (
  λ w a more. (more.0, all w a more.1),
  λ d. (all t above d.0, desc d.1),
  λ name rev. find-behind n t rest l' name rev above (finds name rev),
)

next-Loop :
    (n t : UserType) (rest : List UserType)
    → IsAbove t n
    → Loop n rest (insert_type n rest)
    → Loop n (t ∷ rest) (elim (place_next n rest) [
      | same_revision ↦ exists
      | before_it ↦ inserted (t ∷ n ∷ rest)
      | further ↦ behind t (insert_type n rest)
    ])
unfolding place_next
next-Loop n t [] above h = behind-Loop n t [] (insert_type n []) above h
next-Loop n t (u ∷ rest) above h = go (place n u) (place-Placed n u)
  where
    go :
        (p : Place)
        → Placed n u p
        → Loop n (t ∷ u ∷ rest) (elim p [
          | same_revision ↦ exists
          | before_it ↦ inserted (t ∷ n ∷ u ∷ rest)
          | further ↦ behind t (insert_type n (u ∷ rest))
        ])
    go same_revision (same, e) = found_later n t (u ∷ rest) (found_here n u rest same e)
    go before_it (same, low) =
        behind-Loop n t (u ∷ rest) (inserted (n ∷ u ∷ rest)) above (front-Loop n u rest same low)
    go further a = behind-Loop n t (u ∷ rest) (insert_type n (u ∷ rest)) above h

insert_type-Loop : (n : UserType) (l : List UserType) → Loop n l (insert_type n l)
unfolding insert_type
insert_type-Loop n [] = tt
insert_type-Loop n (t ∷ rest) = go (place n t) (place-Placed n t) (insert_type-Loop n rest)
  where
    go :
        (p : Place)
        → Placed n t p
        → Loop n rest (insert_type n rest)
        → Loop n (t ∷ rest) (elim p [
          | same_revision ↦ exists
          | before_it ↦ inserted (n ∷ t ∷ rest)
          | further ↦ elim (place_next n rest) [
            | same_revision ↦ exists
            | before_it ↦ inserted (t ∷ n ∷ rest)
            | further ↦ behind t (insert_type n rest)
          ]
        ])
    go same_revision (same, e) h = found_here n t rest same e
    go before_it (same, low) h = front-Loop n t rest same low
    go further above h = next-Loop n t rest above h

-- the structure as it is registered
abbrev pub filled : UserType → UserType
filled type = record type { cmd = fill_full type.cmd }

-- the list after a type was added, by the value returned
abbrev pub Added : UserType → List UserType → Status × List UserType → Type 0
Added type l (Status.ok, l') =
    (length type.name < max_name_len)
    × ((name : List ℕ) (rev : ℕ)
        → find_revision name rev l' ≡ (
            if text_eq type.name name && type.revision == rev
            then some (filled type)
            else find_revision name rev l))
    × (Descending l' ⊎ ((l' ≡ filled type ∷ l) × HasName type.name l × All (λ u. IsAbove u type) l))
Added type l (Status.err e, l') =
    (l' ≡ l)
    × ((e ≡ Errno.einval) × (max_name_len ≤ length type.name)
        ⊎ (e ≡ Errno.eexist) × (find_revision type.name type.revision l ≢ none))
Added type l (Status.fault f, l') = ⊥

named_or_apart : (n : UserType) (l : List UserType) → HasName n.name l ⊎ All (IsAbove n) l
named_or_apart n [] = inr tt
named_or_apart n (t ∷ rest) = elim (Bool-cases (text_eq t.name n.name)) [
  | inl same ↦ inl (inl same)
  | inr other ↦ elim (named_or_apart n rest) [
    | inl h ↦ inl (inr h)
    | inr h ↦ inr ((λ e. ground (arith, text_eq_iff t.name n.name, text_eq_iff n.name t.name)), h)
  ]
]

-- `dset_type_add` to a list in which higher revisions of a name come first: a type with a name that
-- fits and a new revision is registered, is found by its name and revision, and leaves the other
-- types as they are; a name that is too long and a revision that is there are refused, and the list
-- is as it was. The order holds afterwards, but for a type whose name is registered with higher
-- revisions only: that one is put in front of them.
pub type_add-Added :
    (type : UserType) (l : List UserType) → Descending l → Added type l (type_add type l)
unfolding type_add
type_add-Added type l desc =
    if_cases (Added type l) (ltb (max_name_len - 1) (length type.name))
      (λ h. (refl, inl (refl, ltb→lt (max_name_len - 1) (length type.name) h)))
      (λ h. ended (ground arith) (insert_type n l) (insert_type-Loop n l))
  where
    n : UserType
    n = filled type

    ended :
        length type.name < max_name_len
        → (r : Inserted) → Loop n l r
        → Added type l (type_add_end n l r)
    ended short exists found = (refl, inr (refl, found))
    ended short (inserted l') (_, keeps, finds) = (short, finds, inl (keeps desc))
    ended short run_through above = (
      short,
      find-front n l,
      elim (named_or_apart n l) [
        | inl named ↦ inr (refl, named, above)
        | inr apart ↦ inl (apart, desc)
      ],
    )
