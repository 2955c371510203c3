-- ===== src/Common/IdMap.antt =====
-- `Map<number, V>` of the source, as an association list by ids.
use Prim.Native.Nat.{ℕ}
use mathlib.Core.Path.{◌≡◌, refl}
use mathlib.Core.Bool.{not}
use mathlib.Core.Option.{Option, none, some}
use mathlib.Core.List.{List, [], ◌∷◌}
use native.Mathlib.Omega.{arith}
use nothingapp.Common.Tests.{if◌then◌else◌, ◌==◌}
use nothingapp.Common.Lists.{keep, All}

abbrev pub IdMap {ℓ} : Type ℓ → Type ℓ
IdMap V = List (ℕ × V)

module _ {ℓ} {V : Type ℓ} where
  unfoldable pub get : ℕ → IdMap V → Option V
  get k [] = none
  get k ((j, v) ∷ m) = if j == k then some v else get k m

  unfoldable pub put : ℕ → V → IdMap V → IdMap V
  put k v [] = (k, v) ∷ []
  put k v ((j, w) ∷ m) = if j == k then (k, v) ∷ m else (j, w) ∷ put k v m

  unfoldable pub delete : ℕ → IdMap V → IdMap V
  delete k = keep (λ e. not (e.0 == k))

  pub get-put :
      (k j : ℕ) (v : V) (m : IdMap V) → get j (put k v m) ≡ (if k == j then some v else get j m)
  unfolding get put
  get-put k j v [] = refl
  get-put k j v ((i, w) ∷ m) = ground (arith, get-put k j v m)

  pub get-delete : (k j : ℕ) (m : IdMap V) → get j (delete k m) ≡ (if k == j then none else get j m)
  unfolding get delete
  get-delete k j [] = ground arith
  get-delete k j ((i, w) ∷ m) = ground (arith, get-delete k j m)

  pub get-put_self : (k : ℕ) (v : V) (m : IdMap V) → get k (put k v m) ≡ some v
  get-put_self k v m = ground (arith, get-put k k v m)

  pub get-delete_self : (k : ℕ) (m : IdMap V) → get k (delete k m) ≡ none
  get-delete_self k m = ground (arith, get-delete k k m)

module _ {ℓ κ} {V : Type ℓ} (P : V → Type κ) where
  -- What holds of every stored value.
  abbrev pub Values : IdMap V → Type κ
  Values = All (λ e. P e.1)

  pub Values-put : (k : ℕ) (v : V) (m : IdMap V) → P v → Values m → Values (put k v m)
  unfolding put
  Values-put k v [] pv h = (pv, tt)
  Values-put k v ((j, w) ∷ m) pv h = ground (arith, Values-put k v m pv h.1)

  pub Values-get : (k : ℕ) (v : V) (m : IdMap V) → Values m → get k m ≡ some v → P v
  unfolding get
  Values-get k v [] h e = cc
  Values-get k v ((j, w) ∷ m) h e = ground (arith, Values-get k v m h.1)
