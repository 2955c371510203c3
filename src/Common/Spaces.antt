-- ===== src/Common/Spaces.antt =====
-- `String.prototype.trim`, `split` on spaces apart: white space of JavaScript and its removal.
use Prim.Native.Nat.{ℕ}
use mathlib.Core.Path.{◌≡◌, refl}
use mathlib.Core.Bool.{Bool, false, ◌&&◌, ◌||◌}
use mathlib.Core.List.{[], ◌∷◌}
use native.Mathlib.Omega.{arith}
use nothingapp.Common.Tests.{◌==◌, leb, if◌then◌else◌}
use nothingapp.Common.Text.{Str, is_empty}

-- `WhiteSpace` and `LineTerminator` of ECMAScript; the byte order mark is one of them.
unfoldable pub is_space : ℕ → Bool
is_space c =
    (leb 9 c && leb c 13)
    || c == 32
    || c == 160
    || c == 0x1680
    || (leb 0x2000 c && leb c 0x200a)
    || c == 0x2028
    || c == 0x2029
    || c == 0x202f
    || c == 0x205f
    || c == 0x3000
    || c == 0xfeff

unfoldable pub trim_start : Str → Str
trim_start [] = []
trim_start (c ∷ s) = let rest = trim_start s in if is_space c then rest else c ∷ s

unfoldable pub trim_end : Str → Str
trim_end [] = []
trim_end (c ∷ s) = let rest = trim_end s in if is_empty rest && is_space c then [] else c ∷ rest

unfoldable pub trim : Str → Str
trim s = trim_end (trim_start s)

abbrev pub head_is_space : Str → Bool
head_is_space [] = false
head_is_space (c ∷ s) = is_space c

trim_start_lem : (s : Str) → head_is_space (trim_start s) ≡ false
unfolding trim_start
trim_start_lem [] = refl
trim_start_lem (c ∷ s) = ground (arith, trim_start_lem s)

trim_end_lem : (s : Str) → head_is_space s ≡ false → head_is_space (trim_end s) ≡ false
unfolding trim_end
trim_end_lem [] h = refl
trim_end_lem (c ∷ s) h = ground (arith, trim_end_lem s)

-- A trimmed text does not begin with white space.
pub trim_head : (s : Str) → head_is_space (trim s) ≡ false
unfolding trim
trim_head s = trim_end_lem (trim_start s) (trim_start_lem s)

pub mark-is_space : (c : ℕ) → is_space c ≡ false → (c == 0xfeff) ≡ false
unfolding is_space
mark-is_space c h = ground arith
