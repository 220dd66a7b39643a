-- ===== src/Prelude/Texts.antt =====
-- The texts of the C code: the bytes before the first NUL.
use dset.Prelude.Tests.{◌==◌, if◌then◌else◌}
use Prim.Native.Nat.{ℕ}
use mathlib.Core.List.{List, [], ◌∷◌}

-- what `strlen`, `strncpy` and `strncat` read
unfoldable pub cstr : List ℕ → List ℕ
cstr [] = []
cstr (c ∷ cs) = if c == 0 then [] else c ∷ cstr cs
