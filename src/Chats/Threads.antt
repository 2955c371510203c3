-- ===== src/Chats/Threads.antt =====
-- What it is for the open thread and the cached threads of the page to be their chats' own.
use mathlib.Core.Path.{subst, subst₂}
use nothingapp.Common.{
  ℕ, zero, suc, ◌==◌, ◌≡◌, refl, ap, true, false, ◌||◌, Option, none, some, List, [], ◌∷◌, ◌++◌,
  All, map, drop, if◌then◌else◌, arith, Bool-cases, inl, inr, ltb, is_some, Option-cases, length,
  ◌-◌, ==_iff,
}
use nothingapp.Common.IdMap.{IdMap, get, put, delete, get-put, get-delete}
use nothingapp.Chats.Thread.{Message, has_message, cached_tail}
use nothingapp.Chats.Page.{Page, set_thread, is_open, cached_thread, first_thread, show_cached}

abbrev pub UniqueIds : List Message → Type 0
UniqueIds [] = Unit
UniqueIds (m ∷ ms) = (has_message m.id ms ≡ false) × UniqueIds ms

-- A thread of this chat: its messages are of the chat, and no id comes twice.
pub record IsThread (chat : ℕ) (ms : List Message) : Type 0 where
  pub own : All (λ m. m.chat_id ≡ chat) ms
  pub unique : UniqueIds ms

module _ (id : ℕ) (f : Message → Message)
    (keeps : (m : Message) → ((f m).id ≡ m.id) × ((f m).chat_id ≡ m.chat_id)) where
  abbrev updated : List Message → List Message
  updated = map (λ m. if m.id == id then f m else m)

  has_message-updated : (k : ℕ) (ms : List Message) → has_message k (updated ms) ≡ has_message k ms
  unfolding has_message
  has_message-updated k [] = refl
  has_message-updated k (m ∷ ms) = ground (arith, has_message-updated k ms, keeps m)

  pub updated-IsThread :
      (chat : ℕ) (ms : List Message) → IsThread chat ms → IsThread chat (updated ms)
  updated-IsThread chat [] t = record { own = tt; unique = tt }
  updated-IsThread chat (m ∷ ms) t =
      let rest = updated-IsThread chat ms (record { own = t.own.1; unique = t.unique.1 }) in
      record {
        own = (ground (arith, keeps m, t.own.0), rest.own);
        unique = (ground (arith, keeps m, t.unique.0, has_message-updated m.id ms), rest.unique);
      }

has_message-append :
    (k : ℕ) (m : Message) (ms : List Message)
    → has_message k (ms ++ m ∷ []) ≡ has_message k ms || (m.id == k)
unfolding has_message
has_message-append k m [] = ground arith
has_message-append k m (n ∷ ms) = ground (arith, has_message-append k m ms)

pub append-IsThread :
    (chat : ℕ) (m : Message) (ms : List Message)
    → m.chat_id ≡ chat
    → has_message m.id ms ≡ false
    → IsThread chat ms
    → IsThread chat (ms ++ m ∷ [])
unfolding has_message
append-IsThread chat m [] own new t = record { own = (own, tt); unique = (refl, tt) }
append-IsThread chat m (n ∷ ms) own new t =
    let rest =
      append-IsThread chat m ms own (ground arith)
        (record { own = t.own.1; unique = t.unique.1 }) in
    record {
      own = (t.own.0, rest.own);
      unique = (ground (arith, has_message-append n.id m ms, t.unique.0), rest.unique);
    }

drop-IsThread : (chat k : ℕ) (ms : List Message) → IsThread chat ms → IsThread chat (drop k ms)
drop-IsThread chat zero ms t = t
drop-IsThread chat (suc k) [] t = t
drop-IsThread chat (suc k) (m ∷ ms) t =
    drop-IsThread chat k ms (record { own = t.own.1; unique = t.unique.1 })

pub cached_tail-IsThread :
    (chat : ℕ) (ms : List Message) → IsThread chat ms → IsThread chat (cached_tail ms)
unfolding cached_tail
cached_tail-IsThread chat ms t = elim (Bool-cases (ltb 50 (length ms))) [
  | inl long ↦ rw long (drop-IsThread chat (length ms - 50) ms t)
  | inr short ↦ rw short t
]

-- The thread on the screen is of the chat that it is shown for, and each cached thread, in memory and
-- stored, is its chat's.
pub record IsValid (s : Page) (shown : Option ℕ) : Type 0 where
  pub thread : (chat : ℕ) → shown ≡ some chat → IsThread chat s.messages
  pub cached : (chat : ℕ) (ms : List Message) → get chat s.cache ≡ some ms → IsThread chat ms
  pub stored : (chat : ℕ) (ms : List Message) → get chat s.stored ≡ some ms → IsThread chat ms

pub put-IsThread :
    (chat : ℕ) (ms : List Message) (m : IdMap (List Message))
    → IsThread chat ms
    → ((k : ℕ) (old : List Message) → get k m ≡ some old → IsThread k old)
    → (k : ℕ) (new : List Message) → get k (put chat ms m) ≡ some new
    → IsThread k new
put-IsThread chat ms m t h k new e = elim (Bool-cases (chat == k)) [
  | inl same ↦
      let p : chat ≡ k = (==_iff _ _).0 same in
      let q : ms ≡ new = ground (arith, get-put chat k ms m) in subst₂ IsThread p q t
  | inr other ↦ h k new (ground (arith, get-put chat k ms m))
]

pub delete-IsThread :
    (chat : ℕ) (m : IdMap (List Message))
    → ((k : ℕ) (old : List Message) → get k m ≡ some old → IsThread k old)
    → (k : ℕ) (new : List Message) → get k (delete chat m) ≡ some new
    → IsThread k new
delete-IsThread chat m h k new e = h k new (ground (arith, get-delete chat k m))

pub set_thread-IsValid :
    (chat : ℕ) (ms : List Message) (s : Page) (shown before : Option ℕ)
    → shown ≡ some chat
    → IsThread chat ms
    → IsValid s before
    → IsValid (set_thread chat ms s) shown
set_thread-IsValid chat ms s shown before here t v = record {
  thread = λ k e. let p : chat ≡ k = cc in subst (λ c. IsThread c ms) p t;
  cached = put-IsThread chat ms s.cache t v.cached;
  stored = put-IsThread chat (cached_tail ms) s.stored (cached_tail-IsThread chat ms t) v.stored;
}

-- A thread that a chat has in a cache.
pub found-IsThread :
    (chat : ℕ) (ms : List Message) (s : Page) (shown : Option ℕ)
    → cached_thread chat s ≡ some ms
    → IsValid s shown
    → IsThread chat ms
unfolding cached_thread
found-IsThread chat ms s shown e v =
    of_caches (get chat s.cache) (get chat s.stored) (v.cached chat) (v.stored chat) e
  where
    of_caches :
        (o p : Option (List Message))
        → ((old : List Message) → o ≡ some old → IsThread chat old)
        → ((old : List Message) → p ≡ some old → IsThread chat old)
        → first_thread o p ≡ some ms
        → IsThread chat ms
    of_caches (some old) p ho hp e = ho ms e
    of_caches none none ho hp e = cc
    of_caches none (some []) ho hp e = cc
    of_caches none (some (x ∷ old)) ho hp e = hp ms e

-- `loadMessages` up to its request.
pub show_cached-IsValid :
    (chat : ℕ) (s : Page) (shown : Option ℕ)
    → IsValid s shown
    → IsValid (show_cached chat s) (if is_some (cached_thread chat s) then some chat else shown)
unfolding show_cached
show_cached-IsValid chat s shown v = elim (Option-cases (cached_thread chat s)) [
  | inl missing ↦ rw missing (record { thread = v.thread; cached = v.cached; stored = v.stored })
  | inr (ms, found) ↦
      let t = found-IsThread chat ms s shown found v in
      rw found (record {
        thread = λ k e. let p : chat ≡ k = cc in subst (λ c. IsThread c ms) p t;
        cached = put-IsThread chat ms s.cache t v.cached;
        stored = v.stored;
      })
]

pub is_open-eq : (o : Option ℕ) (chat : ℕ) → is_open o chat ≡ true → o ≡ some chat
is_open-eq none chat h = cc
is_open-eq (some a) chat h = ap some ((==_iff a chat).0 h)
