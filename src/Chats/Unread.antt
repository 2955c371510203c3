-- ===== src/Chats/Unread.antt =====
-- What a new message does to the chat list.
use nothingapp.Common.{
  ℕ, ◌+◌, ◌==◌, ◌≡◌, ◌∙◌, ap, Bool, not, ◌&&◌, Option, none, some, List, [], ◌∷◌, Str,
  if◌then◌else◌, arith, Bool-cases, inl, inr, ==_iff,
}
use nothingapp.Chats.Thread.{ChatItem, NewEvent}
use nothingapp.Chats.ChatOrder.{
  chat_with, Unique, IsSorted, IsOrder, sort_chats-find, sort_chats-IsSorted,
}
use nothingapp.Chats.Page.{Page, is_open, preview, counts_unread, bump, bump_first, update_chats}

module _ (trim : Str → Str) (at_least : Str → Str → Bool) where
  module _ (viewing : Option ℕ) (me : ℕ) (e : NewEvent) (text : Str) where
    bump_first-find :
        (id : ℕ) (cs : List ChatItem)
        → chat_with id (bump_first trim viewing me e text cs) ≡ (
            if id == e.chat_id
            then elim (chat_with id cs) as (λ _. Option ChatItem) [
              | none ↦ none
              | some c ↦ some (bump trim viewing me e text c)
            ]
            else chat_with id cs)
    unfolding bump_first bump
    bump_first-find id [] = ground arith
    bump_first-find id (c ∷ cs) = ground (arith, bump_first-find id cs)

    bump_first-Unique :
        (cs : List ChatItem) → Unique cs → Unique (bump_first trim viewing me e text cs)
    unfolding bump_first bump
    bump_first-Unique [] u = tt
    bump_first-Unique (c ∷ cs) u = ground (arith, bump_first-Unique cs u.1, bump_first-find c.id cs)

  -- A new message in a chat of the list: its chat shows the preview and the time of the message,
  -- and its badge goes up by one exactly when the chat is not open, the message is not the user's
  -- own, is no system message and is no replay. Every other chat stays as it was. (No chat is
  -- listed twice.)
  pub update_chats_lem :
      (viewing : Option ℕ) (me : ℕ) (e : NewEvent) (text : Str) (s : Page) (c : ChatItem) (id : ℕ)
      → Unique s.chats
      → chat_with e.chat_id s.chats ≡ some c
      → chat_with id (update_chats trim at_least viewing me e text s).chats ≡ (
          if id == e.chat_id
          then some (record c {
            last_message = preview trim text;
            updated_at = e.created_at;
            unread_count =
                if not (is_open viewing e.chat_id)
                  && not (e.user_id == me)
                  && not e.is_system
                  && not e.replayed
                then c.unread_count + 1
                else c.unread_count;
          })
          else chat_with id s.chats)
  unfolding update_chats bump counts_unread
  update_chats_lem viewing me e text s c id u found =
      rw (found, update_chats)
        (sort_chats-find at_least id _ (bump_first-Unique viewing me e text s.chats u)
          ∙ bump_first-find viewing me e text id s.chats
          ∙ at_id)
    where
      here : id ≡ e.chat_id → chat_with id s.chats ≡ some c
      here p = ap (λ i. chat_with i s.chats) p ∙ found

      at_id :
          (if id == e.chat_id
            then elim (chat_with id s.chats) as (λ _. Option ChatItem) [
              | none ↦ none
              | some d ↦ some (bump trim viewing me e text d)
            ]
            else chat_with id s.chats)
          ≡ (if id == e.chat_id then some (bump trim viewing me e text c) else chat_with id s.chats)
      at_id = elim (Bool-cases (id == e.chat_id)) [
        | inl same ↦ rw same (rw (here ((==_iff _ _).0 same)))
        | inr other ↦ rw other
      ]

  -- After a new message in a chat of the list the list is sorted, newest first. (The comparison of
  -- timestamps is total and transitive.)
  pub update_chats-IsSorted :
      (o : IsOrder at_least) (viewing : Option ℕ) (me : ℕ) (e : NewEvent) (text : Str) (s : Page)
      (c : ChatItem)
      → chat_with e.chat_id s.chats ≡ some c
      → IsSorted at_least (update_chats trim at_least viewing me e text s).chats
  unfolding update_chats
  update_chats-IsSorted o viewing me e text s c found =
      rw (found, update_chats) (sort_chats-IsSorted at_least o _)
