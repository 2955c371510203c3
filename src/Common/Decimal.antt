-- ===== src/Common/Decimal.antt =====
-- `${n}` of a number that is a natural one: its decimal digits.
use Prim.Native.Nat.{ℕ, zero, suc, ◌+◌, ◌-◌, ◌*◌, ◌/◌, ◌%◌, ◌<◌}
use mathlib.Core.Path.{◌≡◌, refl, sym, ap, ◌∙◌}
use mathlib.Core.List.{[], ◌∷◌, ◌++◌}
use native.Mathlib.Omega.{arith}
use nothingapp.Common.Tests.{ltb, if◌then◌else◌}
use nothingapp.Common.Text.{Str}

-- The first argument bounds the number of digits.
unfoldable pub digits : ℕ → ℕ → Str
digits zero n = []
digits (suc f) n =
    let rest = digits f (n / 10) in if ltb n 10 then (48 + n) ∷ [] else rest ++ (48 + n % 10) ∷ []

unfoldable pub show : ℕ → Str
show n = digits (suc n) n

abbrev value_from : ℕ → Str → ℕ
value_from a [] = a
value_from a (c ∷ s) = value_from (a * 10 + (c - 48)) s

value_from-append :
    (a c : ℕ) (s : Str) → value_from a (s ++ c ∷ []) ≡ value_from a s * 10 + (c - 48)
value_from-append a c [] = refl
value_from-append a c (d ∷ s) = value_from-append (a * 10 + (d - 48)) c s

value_from-digits : (f n : ℕ) → n < f → value_from 0 (digits f n) ≡ n
unfolding digits
value_from-digits zero n h = absurd (omega arith)
value_from-digits (suc f) n h =
    ground
      (arith, value_from-append 0 (48 + n % 10) (digits f (n / 10)), value_from-digits f (n / 10))

pub show_injective : (m n : ℕ) → show m ≡ show n → m ≡ n
unfolding show
show_injective m n h =
    sym (value_from-digits (suc m) m (omega arith))
    ∙ ap (value_from 0) h
    ∙ value_from-digits (suc n) n (omega arith)
