-- ===== src/Contacts/Press.antt =====
-- frontend/src/shared/hooks/useLongPress.ts: a long press and a tap told apart. `timer` is whether
-- the timeout is pending, and `row` what the two handlers of an element act on.
use nothingapp.Common.{ℕ, ◌==◌, ◌≡◌, refl, Bool, true, false, if◌then◌else◌}

pub record Press {ℓ} (S : Type ℓ) : Type ℓ where
  pub timer : Bool
  pub fired : Bool
  pub row : S

module _ {ℓ} {S : Type ℓ} (on_long_press on_click : S → S) where
  unfoldable pub start : Press S → Press S
  start s = record s { fired = false; timer = true }

  -- Only the left button starts a press.
  unfoldable pub mouse_down : ℕ → Press S → Press S
  unfolding start
  mouse_down button s = if button == 0 then start s else s

  -- `onMouseUp`, `onMouseLeave`, `onTouchEnd` and `onTouchMove`.
  unfoldable pub cancel : Press S → Press S
  cancel s = record s { timer = false }

  -- The timeout, which runs out only if it is pending.
  unfoldable pub elapse : Press S → Press S
  elapse s =
      if s.timer then record { timer = false; fired = true; row = on_long_press s.row } else s

  unfoldable pub context_menu : Press S → Press S
  context_menu s = record { timer = false; fired = true; row = on_long_press s.row }

  -- The click: `onClickCapture` keeps it from the element after a long press.
  unfoldable pub click : Press S → Press S
  click s = if s.fired then record s { fired = false } else record s { row = on_click s.row }

  -- A press that ends before the timeout is a tap, and one that outlasts it a long press: exactly one
  -- of the two handlers runs, once, whatever the presses before left behind, and the next click is
  -- not swallowed.
  pub press_once :
      (s : Press S)
      → ((click (cancel (start s))).row ≡ on_click s.row)
        × ((click (cancel (elapse (start s)))).row ≡ on_long_press s.row)
        × ((click (click (cancel (elapse (start s))))).row ≡ on_click (on_long_press s.row))
        × ((click (elapse (cancel (start s)))).row ≡ on_click s.row)
  unfolding start cancel elapse click
  press_once s = (refl, refl, refl, refl)

  -- A context menu that opens after the timeout of the same press runs the long press again.
  pub context_menu_twice :
      (s : Press S)
      → (click (cancel (context_menu (elapse (start s))))).row ≡ on_long_press (on_long_press s.row)
  unfolding start cancel elapse context_menu click
  context_menu_twice s = refl
