-- ===== src/Composer/Handlers.antt =====
-- ChatWindow.tsx: the handlers of the composer, of a message's menu and of the confirmation.
-- `on_clear` and `on_delete` are the parent's callbacks, here as what they were called with.
use nothingapp.Common.{ℕ, ◌==◌, suc, zero, Option, none, some, List, [], ◌∷◌, ◌++◌, Str, find_first}
use nothingapp.Crypto.Attachments.{FileInput}
use nothingapp.Composer.{
  Window, ConfirmAction, clear, delete_chat, delete_message, delete_request, truthy,
}

unfoldable pub handle_file_select : List FileInput → Window → Window
handle_file_select files w = record w { files = w.files ++ files }

-- `prev.filter((_, idx) => idx !== index)`.
unfoldable pub without_index {ℓ} : {A : Type ℓ} → ℕ → List A → List A
without_index i [] = []
without_index zero (x ∷ xs) = xs
without_index (suc i) (x ∷ xs) = x ∷ without_index i xs

unfoldable pub handle_remove_file : ℕ → Window → Window
unfolding without_index
handle_remove_file i w = record w { files = without_index i w.files }

unfoldable pub handle_reply : ℕ → Window → Window
handle_reply id w = record w { editing = none; reply_to = some id; text = [] }

unfoldable pub handle_edit : ℕ → Str → Window → Window
handle_edit id text w = record w { reply_to = none; editing = some id; text = text }

unfoldable pub handle_cancel_draft : Window → Window
handle_cancel_draft w = record w { reply_to = none; editing = none; text = [] }

unfoldable pub handle_add_emoji : Str → Window → Window
handle_add_emoji emoji w = record w { text = w.text ++ emoji }

unfoldable pub handle_forward : ℕ → Window → Window
handle_forward id w = elim (find_first (λ m. m.id == id) w.messages) [
  | none ↦ w
  | some m ↦ record w { forwarding_message = some m }
]

-- `handleClearChat`, `handleDeleteChat` and `handleDelete`: they ask first.
unfoldable pub ask_confirm : ConfirmAction → Window → Window
ask_confirm action w = elim (truthy w.chat) [
  | none ↦ w
  | some c ↦ record w { confirm = some action }
]

-- What the confirmation calls: a callback of the parent with the chat's id. A deletion is sent on
-- the socket.
pub data Callback : Type 0 where
  on_clear_chat on_delete_chat : ℕ → Callback

-- `accepted` is what `send` would return; the handler does not look at it.
unfoldable pub handle_confirm_action : Window → Window × Option Callback
handle_confirm_action w = elim (truthy w.chat) [
  | none ↦ (w, none)
  | some c ↦ elim w.confirm [
    | none ↦ (w, none)
    | some clear ↦ (record w { confirm = none }, some (on_clear_chat c))
    | some delete_chat ↦ (record w { confirm = none }, some (on_delete_chat c))
    | some (delete_message id) ↦
        (record w { confirm = none; sent = delete_request c id ∷ w.sent }, none)
  ]
]
