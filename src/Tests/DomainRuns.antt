-- ===== src/Tests/DomainRuns.antt =====
-- Names in packets, decoded.
use dset.Domain.DecodeLaws.{IsLabel, wire, dotted, decode-wire}
use dset.Domain.Text.{name, overrun, decode}
use dset.Prelude.{ℕ, ◌≡◌, refl, List, [], ◌∷◌, ◌++◌, All, arith, length, replicate}

-- `ab.c`
abbrev labels : List (List ℕ)
labels = (97 ∷ 98 ∷ []) ∷ (99 ∷ []) ∷ []

labels-IsLabel : All IsLabel labels
labels-IsLabel = ground arith

-- the type and the class follow the name
abbrev footer : List ℕ
footer = 0 ∷ 1 ∷ 0 ∷ 1 ∷ []

decode-wire_example :
    decode (length (wire labels ++ footer)) (wire labels ++ footer) [] ≡ name (dotted labels)
decode-wire_example = decode-wire labels footer labels-IsLabel (omega arith)

decode_run : decode 9 (2 ∷ 97 ∷ 98 ∷ 1 ∷ 99 ∷ 0 ∷ []) [] ≡ name (97 ∷ 98 ∷ 46 ∷ 99 ∷ 46 ∷ [])
unfolding decode replicate
decode_run = refl

-- a length byte from 128 on leaves the buffer
decode_negative_run : decode 9 (200 ∷ 97 ∷ 0 ∷ []) [] ≡ overrun
unfolding decode
decode_negative_run = refl
