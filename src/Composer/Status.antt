-- ===== src/Composer/Status.antt =====
-- ChatWindow.tsx: whether the open chat can be written in, the effect that fetches it and
-- `setStatusIfChanged`. The effect's `cancelled` keeps the answer of a former chat out, so an answer
-- here is one of the open chat.
use nothingapp.Common.{
  ℕ, ◌==◌, Option, none, some, List, [], ◌∷◌, ◌++◌, map, Str, codes, show, is_empty, str_eq,
  find_first, if◌then◌else◌, or_else,
}
use nothingapp.Crypto.Attachments.{GroupKeyStatus}
use nothingapp.Composer.{Window, E2eStatus, loading, ready, not_ready, truthy}

-- `a.join(separator)`.
unfoldable pub join : Str → List Str → Str
join separator [] = []
join separator (s ∷ []) = s
join separator (s ∷ t ∷ rest) = s ++ separator ++ join separator (t ∷ rest)

unfoldable pub set_status_if_changed : E2eStatus → E2eStatus → E2eStatus
set_status_if_changed next loading = next
set_status_if_changed (ready t) (ready s) = ready s
set_status_if_changed next (ready s) = next
set_status_if_changed (not_ready names') (not_ready names) =
    if str_eq (join (codes "|") names) (join (codes "|") names')
    then not_ready names
    else not_ready names'
set_status_if_changed next (not_ready names) = next

pub record NamedMember : Type 0 where
  pub user_id : ℕ
  pub name : Str
  pub username : Str

-- `m?.name || m?.username || id=…`.
unfoldable pub name_of : List NamedMember → ℕ → Str
name_of members uid =
    let unknown = codes "id=" ++ show uid in
    elim (find_first (λ (m : NamedMember). m.user_id == uid) members) [
      | none ↦ unknown
      | some m ↦
          if is_empty m.name then (if is_empty m.username then unknown else m.username) else m.name
    ]

-- The answer of `getGroupKeyStatus`: none is no answer.
unfoldable pub group_status : List NamedMember → Option GroupKeyStatus → E2eStatus
group_status members none = loading
group_status members (some s) =
    if is_empty s.missing_user_ids
    then ready (some s)
    else not_ready (map (name_of members) s.missing_user_ids)

-- The answer of `getPeerPublicKey`.
unfoldable pub peer_status : Option Str → Option Str → E2eStatus
peer_status username key =
    if is_empty (or_else key [])
    then not_ready
        ((if is_empty (or_else username []) then codes "собеседник" else or_else username []) ∷ [])
    else ready none

-- What the effect's promise settles with: `fetched` is the group's answer, `key` the peer's.
unfoldable pub fetched_status :
    List NamedMember → Option Str → Option GroupKeyStatus → Option Str → Window → E2eStatus
unfolding group_status peer_status
fetched_status members username fetched key w =
    if w.is_group
    then group_status members fetched
    else elim (truthy w.other_user) [ none ↦ loading | some u ↦ peer_status username key ]

-- The effect does nothing while no chat is open.
unfoldable pub next_status : Option ℕ → E2eStatus → E2eStatus → E2eStatus
unfolding set_status_if_changed
next_status none next prev = prev
next_status (some c) next prev = if c == 0 then prev else set_status_if_changed next prev

unfoldable pub refresh_status :
    List NamedMember → Option Str → Option GroupKeyStatus → Option Str → Window → Window
unfolding fetched_status next_status
refresh_status members username fetched key w = record w {
  status = next_status w.chat (fetched_status members username fetched key w) w.status;
}
