-- ===== src/Shared/Tests.antt =====
-- The theorems on the small state of frontend/src/shared at concrete values.
use nothingapp.Common.{ℕ, zero, suc, ◌<◌, ◌≡◌, refl, [], ◌∷◌, codes, Bool, true, false, arith}
use nothingapp.Shared.Back.{
  BackStack, empty_stack, enable, disable, press, consumed, start, enabled, disabled, press_newest,
}
use nothingapp.Shared.Emojis.{IsRecent, add_all, add_all-IsRecent}

add_all-IsRecent_example : IsRecent (add_all (codes "a" ∷ codes "b" ∷ codes "a" ∷ []) [])
add_all-IsRecent_example = add_all-IsRecent (codes "a") (codes "b" ∷ codes "a" ∷ []) [] tt

-- The newest dialog was closed, the one under it lets the press through, and the panel takes it.
abbrev handlers : ℕ → ℕ → Bool × ℕ
handlers zero w = (true, suc w)
handlers (suc h) w = (false, w)

others_decline : (h : ℕ) → 0 < h → handlers h 5 ≡ (false, 5)
others_decline zero lt = absurd (omega arith)
others_decline (suc h) lt = refl

abbrev two_dialogs : BackStack
two_dialogs = disable 2 (enable (enable (enable empty_stack)))

press_newest_example : press handlers true two_dialogs.stack 5 ≡ (consumed 0, 6)
press_newest_example =
    press_newest handlers 3 (2 ∷ []) two_dialogs 0 true 5 6
      (disabled 2 (omega arith) (enabled (enabled (enabled start)))) (omega arith) refl
      (λ h newer lt here. others_decline h newer) refl
