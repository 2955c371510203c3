-- ===== src/Common/Storage.antt =====
-- `window.localStorage`: a map from strings to strings of which every access can throw. `none` is
-- a throw: the storage is unavailable (private mode), or a write exceeds the quota.
use mathlib.Core.Path.{◌≡◌, refl}
use mathlib.Core.Bool.{Bool, not, ◌&&◌}
use mathlib.Core.Option.{Option, none, some}
use mathlib.Core.List.{List, [], ◌∷◌}
use Prim.Native.Nat.{ℕ, ◌+◌}
use native.Mathlib.Omega.{arith}
use nothingapp.Common.Tests.{leb, if◌then◌else◌}
use nothingapp.Common.Lists.{length, keep}
use nothingapp.Common.Text.{Str, str_eq, str_eq_iff, str_eq_refl}

abbrev pub Items : Type 0
Items = List (Str × Str)

pub record Storage : Type 0 where
  pub items : Items
  pub available : Bool
  pub quota : ℕ

unfoldable pub lookup : Str → Items → Option Str
lookup k [] = none
lookup k ((j, v) ∷ m) = if str_eq j k then some v else lookup k m

unfoldable pub insert : Str → Str → Items → Items
insert k v [] = (k, v) ∷ []
insert k v ((j, w) ∷ m) = if str_eq j k then (k, v) ∷ m else (j, w) ∷ insert k v m

-- Keys are unique in a real storage; here every entry under the key goes.
abbrev pub remove : Str → Items → Items
remove k = keep (λ e. not (str_eq e.0 k))

abbrev pub size : Items → ℕ
size [] = 0
size ((k, v) ∷ m) = length k + length v + size m

unfoldable pub get_item : Str → Storage → Option (Option Str)
get_item k s = if s.available then some (lookup k s.items) else none

unfoldable pub set_item : Str → Str → Storage → Option Storage
set_item k v s =
    let next = insert k v s.items in
    if s.available && leb (size next) s.quota then some (record s { items = next }) else none

unfoldable pub remove_item : Str → Storage → Option Storage
remove_item k s = if s.available then some (record s { items = remove k s.items }) else none

pub lookup-insert :
    (k j v : Str) (m : Items)
    → lookup j (insert k v m) ≡ (if str_eq k j then some v else lookup j m)
unfolding lookup insert
lookup-insert k j v [] = refl
lookup-insert k j v ((i, w) ∷ m) =
    ground (arith, str_eq_iff k j, str_eq_iff i k, str_eq_iff i j, lookup-insert k j v m)

pub lookup-insert_self : (k v : Str) (m : Items) → lookup k (insert k v m) ≡ some v
lookup-insert_self k v m = simp (lookup-insert, str_eq_refl)

pub lookup-remove :
    (k j : Str) (m : Items) → lookup j (remove k m) ≡ (if str_eq k j then none else lookup j m)
unfolding lookup
lookup-remove k j [] = ground arith
lookup-remove k j ((i, w) ∷ m) =
    ground (arith, str_eq_iff k j, str_eq_iff i k, str_eq_iff i j, lookup-remove k j m)

pub get_item-set_item :
    (k v : Str) (s r : Storage) → set_item k v s ≡ some r → get_item k r ≡ some (some v)
unfolding get_item set_item
get_item-set_item k v s r h = ground (arith, lookup-insert_self k v s.items)

pub get_item-remove_item :
    (k : Str) (s r : Storage) → remove_item k s ≡ some r → get_item k r ≡ some none
unfolding get_item remove_item
get_item-remove_item k s r h = ground (arith, lookup-remove k k s.items, str_eq_refl k)
