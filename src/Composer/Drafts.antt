-- ===== src/Composer/Drafts.antt =====
-- ChatWindow.tsx: the drafts of the chats in `localStorage`, and the effects that write and read
-- them: on a change of the chat, after 400 ms without a key stroke, and when the page is hidden.
pub mod Kept
use nothingapp.Common.{
  ℕ, ◌==◌, ◌≡◌, refl, ap, sym, ◌∙◌, Bool, true, false, Option, none, some, List, [], ◌∷◌, ◌++◌, Str,
  ◌||◌, codes, show, show_injective, str_eq, str_eq_iff, is_empty, if◌then◌else◌, or_else, arith,
  length, drop-length_append, drop,
}
use nothingapp.Common.Storage.{
  Storage, lookup, insert, get_item, set_item, remove_item, lookup-insert, lookup-remove,
}
use nothingapp.Chats.Thread.{Message}
use nothingapp.Composer.{Window, loading, truthy}

unfoldable pub draft_key : ℕ → Str
draft_key chat = codes "chat_draft_" ++ show chat

unfoldable pub persist_draft : ℕ → Str → Storage → Storage
persist_draft chat text s =
    if is_empty text
    then or_else (remove_item (draft_key chat) s) s
    else or_else (set_item (draft_key chat) text s) s

-- The draft that a chat opens with; a storage that throws has none.
unfoldable pub restored_draft : ℕ → Storage → Str
restored_draft chat s = or_else (or_else (get_item (draft_key chat) s) none) []

-- The props that come with the open chat.
pub record ChatProps : Type 0 where
  pub chat : Option ℕ
  pub is_group : Bool
  pub other_user : Option ℕ
  pub messages : List Message

abbrev pub same_chat : Option ℕ → Option ℕ → Bool
same_chat none none = true
same_chat (some a) (some b) = a == b
same_chat _ _ = false

-- The timer and the flush of the effects, while a chat is open.
unfoldable pub saved_storage : Option ℕ → Str → Storage → Storage
saved_storage none text s = s
saved_storage (some c) text s = if c == 0 then s else persist_draft c text s

unfoldable pub save_draft : Window → Window
save_draft w = record w { storage = saved_storage w.chat w.text w.storage }

unfoldable pub opening_text : Option ℕ → Storage → Str
opening_text none s = []
opening_text (some c) s = if c == 0 then [] else restored_draft c s

-- What an effect of the chat sets when it starts.
unfoldable pub enter_chat : Window → Window
enter_chat w = record w {
  text = opening_text w.chat w.storage;
  reply_to = none;
  editing = none;
  files = [];
  sending = false;
  confirm = none;
  forwarding_message = none;
  forwarding = false;
  status = loading;
  pending_upload = none;
}

-- New props: the effect of the chat ends and starts only when its id changes.
unfoldable pub switch_chat : ChatProps → Window → Window
switch_chat props w =
    let set : Window → Window = λ v. record v {
      chat = props.chat;
      is_group = props.is_group;
      other_user = props.other_user;
      messages = props.messages;
    } in
    if same_chat props.chat w.chat then set w else enter_chat (set (save_draft w))

-- The parent bumped `draftReloadKey`; a throw leaves the text.
unfoldable pub reload_draft : Window → Window
reload_draft w = elim (truthy w.chat) [
  | none ↦ w
  | some c ↦ elim (get_item (draft_key c) w.storage) [
    | none ↦ w
    | some draft ↦ record w { text = or_else draft [] }
  ]
]

unfoldable pub drop_draft : Option ℕ → Storage → Storage
drop_draft none s = s
drop_draft (some c) s = if c == 0 then s else or_else (remove_item (draft_key c) s) s

draft_key_injective : (c d : ℕ) → draft_key c ≡ draft_key d → c ≡ d
unfolding draft_key
draft_key_injective c d h = show_injective c d (
    sym (drop-length_append 11 (codes "chat_draft_") (show c) refl)
    ∙ ap (drop 11) h
    ∙ drop-length_append 11 (codes "chat_draft_") (show d) refl)

pub draft_key_eq : (c d : ℕ) → str_eq (draft_key c) (draft_key d) ≡ (c == d)
draft_key_eq c d = ground (arith, str_eq_iff (draft_key c) (draft_key d), draft_key_injective c d)

-- Whether a write of this text is within the quota.
unfoldable pub draft_fits : ℕ → Str → Storage → Bool
draft_fits chat text s =
    is_empty text || elim (set_item (draft_key chat) text s) [ none ↦ false | some t ↦ true ]

-- A draft that was stored is what the chat opens with, and the other chats' drafts stay.
pub restored_draft-persist_draft :
    (c d : ℕ) (text : Str) (s : Storage)
    → s.available ≡ true
    → draft_fits c text s ≡ true
    → restored_draft d (persist_draft c text s) ≡ (if c == d then text else restored_draft d s)
unfolding restored_draft persist_draft draft_fits get_item set_item remove_item
restored_draft-persist_draft c d [] s up fits =
    ground (arith, draft_key_eq c d, lookup-remove (draft_key c) (draft_key d) s.items)
restored_draft-persist_draft c d (x ∷ xs) s up fits =
    ground (arith, draft_key_eq c d, lookup-insert (draft_key c) (draft_key d) (x ∷ xs) s.items)

pub persist_draft_available :
    (c : ℕ) (text : Str) (s : Storage) → (persist_draft c text s).available ≡ s.available
unfolding persist_draft set_item remove_item
persist_draft_available c text s = ground arith
