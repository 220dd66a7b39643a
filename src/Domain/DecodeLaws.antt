-- ===== src/Domain/DecodeLaws.antt =====
-- Decoding a well-formed DNS name.
use mathlib.Core.List.{append-nil, append_assoc}
use dset.Domain.Text.{strncpy_bytes, name, decode}
use dset.Prelude.{
  cstr, ℕ, zero, suc, ◌+◌, ◌-◌, ◌≤◌, ◌<◌, ◌≡◌, refl, ap, ◌∙◌, ◌≢◌, List, [], ◌∷◌, ◌++◌, length,
  take, drop, replicate, All, length-append, arith,
}
use dset.Uapi.{max_domain_len}

-- a byte that may stand in a label
abbrev pub IsLabelByte : ℕ → Type 0
IsLabelByte c = (c ≢ 0) × (c ≢ b'.')

-- a label of a DNS name: 1 to 63 bytes
abbrev pub IsLabel : List ℕ → Type 0
IsLabel l = (1 ≤ length l) × (length l ≤ 63) × All IsLabelByte l

-- the name in the packet: each label behind its length, and a zero byte
abbrev pub wire : List (List ℕ) → List ℕ
wire [] = 0 ∷ []
wire (l ∷ ls) = length l ∷ (l ++ wire ls)

-- the labels, each with a dot behind it
abbrev pub dotted : List (List ℕ) → List ℕ
dotted [] = []
dotted (l ∷ ls) = l ++ (b'.' ∷ dotted ls)

cstr-label : (l : List ℕ) → All IsLabelByte l → cstr l ≡ l
unfolding cstr
cstr-label [] h = refl
cstr-label (c ∷ l) h = ground (arith, cstr-label l)

pub cstr-append : (l rest : List ℕ) → All IsLabelByte l → cstr (l ++ rest) ≡ l ++ cstr rest
unfolding cstr
cstr-append [] rest h = refl
cstr-append (c ∷ l) rest h = ground (arith, cstr-append l rest)

pub take-append : (l rest : List ℕ) → take (length l) (l ++ rest) ≡ l
take-append [] rest = refl
take-append (c ∷ l) rest = ap (◌∷◌ c) (take-append l rest)

pub drop-append : (l rest : List ℕ) → drop (length l) (l ++ rest) ≡ rest
drop-append [] rest = refl
drop-append (c ∷ l) rest = drop-append l rest

pub strncpy-label : (l rest : List ℕ) → All IsLabelByte l → strncpy_bytes (length l) (l ++ rest) ≡ l
unfolding strncpy_bytes
strncpy-label l rest h =
    rw (cstr-append l rest h, take-append l (cstr rest), sub_self (length l)) (append-nil l)
  where
    sub_self : (n : ℕ) → replicate (n - n) (zero) ≡ []
    sub_self n = let e : n - n ≡ 0 = omega arith in rw e (unfold replicate in refl)

-- One label of the packet is read, and stands with its dot behind the text.
decode_step :
    (fuel : ℕ) (l rest acc : List ℕ)
    → IsLabel l
    → length acc + length l < max_domain_len
    → decode (suc fuel) (length l ∷ (l ++ rest)) acc ≡ decode fuel rest (acc ++ (l ++ b'.' ∷ []))
unfolding decode
decode_step fuel l rest acc (some_byte, short, bytes) fits =
    rw (strncpy-label l rest bytes, drop-append l rest, append_assoc acc l (b'.' ∷ []))
      (ground (arith, length-append l rest))

decode_fuel-wire :
    (fuel : ℕ) (labels : List (List ℕ)) (rest acc : List ℕ)
    → All IsLabel labels
    → length labels < fuel
    → length acc + length (dotted labels) ≤ max_domain_len
    → decode fuel (wire labels ++ rest) acc ≡ name (acc ++ dotted labels)
decode_fuel-wire zero labels rest acc good enough fits = absurd (omega arith)
decode_fuel-wire (suc fuel) [] rest acc good enough fits = unfold decode in rw (append-nil acc)
decode_fuel-wire (suc fuel) (l ∷ ls) rest acc good enough fits =
    let room : length acc + length l < max_domain_len =
      omega (arith, length-append l (b'.' ∷ dotted ls)) in
    rw (append_assoc l (wire ls) rest) (
      decode_step fuel l (wire ls ++ rest) acc good.0 room
      ∙ decode_fuel-wire fuel ls rest (acc ++ (l ++ b'.' ∷ [])) good.1 (omega arith) (
          omega (
            arith,
            length-append l (b'.' ∷ dotted ls),
            length-append acc (l ++ b'.' ∷ []),
            length-append l (b'.' ∷ []),
          ))
      ∙ ap name (
          append_assoc acc (l ++ b'.' ∷ []) (dotted ls)
          ∙ ap (◌++◌ acc) (append_assoc l (b'.' ∷ []) (dotted ls))))

labels-le-wire : (labels : List (List ℕ)) → length labels < length (wire labels)
labels-le-wire [] = omega arith
labels-le-wire (l ∷ ls) = omega (arith, labels-le-wire ls, length-append l (wire ls))

-- Decoding is inverse to the wire format: a packet that holds a name of at most 255 bytes, made of
-- labels of 1 to 63 bytes without NUL or dot, decodes to its labels with their dots, whatever
-- follows the name.
pub decode-wire :
    (labels : List (List ℕ)) (rest : List ℕ)
    → All IsLabel labels
    → length (dotted labels) ≤ max_domain_len
    → decode (length (wire labels ++ rest)) (wire labels ++ rest) [] ≡ name (dotted labels)
decode-wire labels rest good fits =
    decode_fuel-wire _ labels rest [] good
      (omega (arith, labels-le-wire labels, length-append (wire labels) rest)) (omega arith)
