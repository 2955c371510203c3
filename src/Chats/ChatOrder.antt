-- ===== src/Chats/ChatOrder.antt =====
-- frontend/src/pages/ChatsPage.tsx: the sorting of the chat list by `updated_at`, newest first. The
-- order of timestamps, `localeCompare`, is a parameter; `sort` is stable.
use nothingapp.Common.{
  ℕ, ◌==◌, ◌≡◌, ◌∙◌, refl, Bool, true, false, Option, none, List, [], ◌∷◌, Str, if◌then◌else◌,
  arith, Bool-cases, inl, inr, All, find_first,
}
use nothingapp.Chats.Thread.{ChatItem}

-- `at_least s t`: the first timestamp is not before the second.
pub record IsOrder (at_least : Str → Str → Bool) : Type 0 where
  pub total : (s t : Str) → at_least s t ≡ false → at_least t s ≡ true
  pub trans : (s t u : Str) → at_least s t ≡ true → at_least t u ≡ true → at_least s u ≡ true

module _ (at_least : Str → Str → Bool) where
  unfoldable pub insert_chat : ChatItem → List ChatItem → List ChatItem
  insert_chat c [] = c ∷ []
  insert_chat c (d ∷ ds) =
      let rest = insert_chat c ds in
      if at_least c.updated_at d.updated_at then c ∷ d ∷ ds else d ∷ rest

  unfoldable pub sort_chats : List ChatItem → List ChatItem
  unfolding insert_chat
  sort_chats [] = []
  sort_chats (c ∷ cs) = insert_chat c (sort_chats cs)

  -- Each chat is at least as new as all below it.
  abbrev pub IsSorted : List ChatItem → Type 0
  IsSorted [] = Unit
  IsSorted (c ∷ cs) = All (λ d. at_least c.updated_at d.updated_at ≡ true) cs × IsSorted cs

module _ (at_least : Str → Str → Bool) (o : IsOrder at_least) where
  All-weaken :
      (c d : ChatItem) (cs : List ChatItem)
      → at_least c.updated_at d.updated_at ≡ true
      → All (λ e. at_least d.updated_at e.updated_at ≡ true) cs
      → All (λ e. at_least c.updated_at e.updated_at ≡ true) cs
  All-weaken c d [] h a = tt
  All-weaken c d (e ∷ cs) h a =
      (o.trans c.updated_at d.updated_at e.updated_at h a.0, All-weaken c d cs h a.1)

  All-insert :
      (P : ChatItem → Type 0) (c : ChatItem) (cs : List ChatItem)
      → P c
      → All P cs
      → All P (insert_chat at_least c cs)
  unfolding insert_chat
  All-insert P c [] p a = (p, tt)
  All-insert P c (d ∷ ds) p a = elim (Bool-cases (at_least c.updated_at d.updated_at)) [
    | inl newer ↦ rw newer (p, a)
    | inr older ↦ rw older (a.0, All-insert P c ds p a.1)
  ]

  insert_chat-IsSorted :
      (c : ChatItem) (cs : List ChatItem)
      → IsSorted at_least cs
      → IsSorted at_least (insert_chat at_least c cs)
  unfolding insert_chat
  insert_chat-IsSorted c [] s = (tt, tt)
  insert_chat-IsSorted c (d ∷ ds) s = elim (Bool-cases (at_least c.updated_at d.updated_at)) [
    | inl newer ↦ rw newer ((newer, All-weaken c d ds newer s.0), s)
    | inr older ↦ rw older (
      All-insert (λ e. at_least d.updated_at e.updated_at ≡ true) c ds
          (o.total c.updated_at d.updated_at older) s.0,
      insert_chat-IsSorted c ds s.1,
    )
  ]

  pub sort_chats-IsSorted : (cs : List ChatItem) → IsSorted at_least (sort_chats at_least cs)
  unfolding sort_chats
  sort_chats-IsSorted [] = tt
  sort_chats-IsSorted (c ∷ cs) =
      insert_chat-IsSorted c (sort_chats at_least cs) (sort_chats-IsSorted cs)

-- The chat with an id, in a list where ids are unique.
abbrev pub chat_with : ℕ → List ChatItem → Option ChatItem
chat_with id = find_first (λ c. c.id == id)

abbrev pub Unique : List ChatItem → Type 0
Unique [] = Unit
Unique (c ∷ cs) = (chat_with c.id cs ≡ none) × Unique cs

module _ (at_least : Str → Str → Bool) where
  insert_chat-find :
      (id : ℕ) (c : ChatItem) (cs : List ChatItem)
      → chat_with c.id cs ≡ none
      → chat_with id (insert_chat at_least c cs) ≡ chat_with id (c ∷ cs)
  unfolding insert_chat
  insert_chat-find id c [] f = refl
  insert_chat-find id c (d ∷ ds) f = ground (arith, insert_chat-find id c ds)

  -- Sorting keeps every chat.
  pub sort_chats-find :
      (id : ℕ) (cs : List ChatItem)
      → Unique cs
      → chat_with id (sort_chats at_least cs) ≡ chat_with id cs
  unfolding sort_chats
  sort_chats-find id [] u = refl
  sort_chats-find id (c ∷ cs) u =
      insert_chat-find id c (sort_chats at_least cs) (sort_chats-find c.id cs u.1 ∙ u.0)
      ∙ ground (arith, sort_chats-find id cs u.1)
