-- ===== src/Composer/Drafts/Kept.antt =====
-- What the drafts of ChatWindow.tsx promise: each chat has one text, whether the chat is open or
-- not, and whether the application was closed meanwhile or not. `Texts` is that promise as a state
-- of its own, without a storage, and the theorem that the window keeps it.
use nothingapp.Common.{
  ℕ, ◌==◌, ◌≡◌, refl, Bool, true, false, Option, none, some, List, [], ◌∷◌, ◌&&◌, ◌||◌, Str,
  if◌then◌else◌, arith, Bool-cases, inl, inr,
}
use nothingapp.Common.Storage.{Storage, remove_item}
use nothingapp.Composer.{Window}
use nothingapp.Composer.Drafts.{
  ChatProps, same_chat, restored_draft, draft_fits, save_draft, enter_chat, switch_chat, drop_draft,
  saved_storage, restored_draft-persist_draft, persist_draft_available,
}

-- `closed` is the page that is hidden and then gone, `sent` the part of a successful `handleSubmit`
-- that touches the draft.
pub data Op : Type 0 where
  opened : ChatProps → Op
  typed : Str → Op
  saved closed sent : Op

unfoldable pub step : Op → Window → Window
step (opened props) w = switch_chat props w
step (typed s) w = record w { text = s }
step saved w = save_draft w
step closed w = enter_chat (record (save_draft w) { chat = none })
step sent w = record w { text = []; storage = drop_draft w.chat w.storage }

abbrev pub run : List Op → Window → Window
run [] w = w
run (o ∷ ops) w = run ops (step o w)

-- Every draft that the run writes is within the quota of the storage.
abbrev pub save_fits : Option ℕ → Str → Storage → Bool
save_fits none text s = true
save_fits (some c) text s = c == 0 || draft_fits c text s

abbrev pub run_fits : List Op → Window → Bool
run_fits [] w = true
run_fits (o ∷ ops) w = save_fits w.chat w.text w.storage && run_fits ops (step o w)

pub record Texts : Type 0 where
  pub chat : Option ℕ
  pub text_of : ℕ → Str

abbrev pub spec_step : Op → Texts → Texts
spec_step (opened props) t = record t { chat = props.chat }
spec_step (typed s) t = record t {
  text_of = λ d. if same_chat (some d) t.chat then s else t.text_of d;
}
spec_step saved t = t
spec_step closed t = record t { chat = none }
spec_step sent t = record t { text_of = λ d. if same_chat (some d) t.chat then [] else t.text_of d }

abbrev pub spec_run : List Op → Texts → Texts
spec_run [] t = t
spec_run (o ∷ ops) t = spec_run ops (spec_step o t)

-- The text of a chat: the composer's while it is open, and else its draft.
abbrev pub texts_of : Window → Texts
texts_of w = record {
  chat = w.chat;
  text_of = λ d. if same_chat (some d) w.chat then w.text else restored_draft d w.storage;
}

-- Once the open chat's text is saved, each chat's draft is its text.
pub restored_draft-saved_storage :
    (chat : Option ℕ) (text : Str) (s : Storage) (d : ℕ)
    → (d == 0) ≡ false
    → s.available ≡ true
    → save_fits chat text s ≡ true
    → restored_draft d (saved_storage chat text s)
      ≡ (if same_chat (some d) chat then text else restored_draft d s)
unfolding saved_storage
restored_draft-saved_storage none text s d real up fits = refl
restored_draft-saved_storage (some c) text s d real up fits = elim (Bool-cases (c == 0)) [
  | inl z ↦ ground arith
  | inr z ↦ ground (arith, restored_draft-persist_draft c d text s up (rw z at fits))
]

pub saved_storage_available :
    (chat : Option ℕ) (text : Str) (s : Storage)
    → (saved_storage chat text s).available ≡ s.available
unfolding saved_storage
saved_storage_available none text s = refl
saved_storage_available (some c) text s = ground (arith, persist_draft_available c text s)

pub drop_draft_available :
    (chat : Option ℕ) (s : Storage) → (drop_draft chat s).available ≡ s.available
unfolding drop_draft remove_item
drop_draft_available none s = refl
drop_draft_available (some c) s = ground arith
