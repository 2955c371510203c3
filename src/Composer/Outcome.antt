-- ===== src/Composer/Outcome.antt =====
-- How `handleSubmit` of ChatWindow.tsx can end, and what it does to a chat that is opened meanwhile.
use nothingapp.Common.{◌≡◌, ◌⊎◌, Bool, true, none, some, [], ◌∷◌}
use nothingapp.Crypto.Platform.{Platform, Result, ok}
use nothingapp.Chats.Incoming.{Encrypted}
use nothingapp.Composer.{Window, WsAction, send_message, edit_message, Notice}
use nothingapp.Composer.Submit.{Job, started, check_submit}

-- The action of a job, with this body.
abbrev pub action_of : Job → Encrypted → WsAction
action_of job body = elim job.editing [
  | none ↦ send_message job.chat body job.reply_to
  | some id ↦ edit_message job.chat id body
]

-- One action more has gone out, with the body as its encryption gave it, and the composer is empty;
-- or nothing has gone out, text, draft and edit are as before, and there is one toast more.
abbrev pub Ends : (Job → Result Encrypted) → Bool → Window → Window → Type 0
Ends body accepted w v =
    ((job : Job) × (b : Encrypted) × (accepted ≡ true)
      × (body job ≡ ok b)
      × (check_submit w ≡ started job)
      × (v.sent ≡ action_of job b ∷ w.sent)
      × (v.text ≡ [])
      × (v.notices ≡ w.notices))
    ⊎ ((n : Notice) × (v.sent ≡ w.sent)
        × (v.text ≡ w.text)
        × (v.storage ≡ w.storage)
        × (v.editing ≡ w.editing)
        × (v.reply_to ≡ w.reply_to)
        × (v.files ≡ w.files)
        × (v.notices ≡ n ∷ w.notices))
