-- ===== src/Shared/Pending.antt =====
-- frontend/src/shared/pendingCall.ts, pendingChat.ts and pendingShare.ts: one value that waits, and
-- the listeners. A listener is a number; `delivered` are its calls, newest first. The microtask of a
-- subscription is taken as run at once.
use nothingapp.Common.{
  ℕ, ◌==◌, ◌≡◌, refl, not, Option, none, some, List, [], ◌∷◌, ◌++◌, any_of, keep, if◌then◌else◌,
}

pub record Channel {ℓ} (A : Type ℓ) : Type ℓ where
  pub pending : Option A
  pub listeners : List ℕ
  pub delivered : List (ℕ × A)

abbrev add_listener : ℕ → List ℕ → List ℕ
add_listener l ls = if any_of (λ x. x == l) ls then ls else ls ++ l ∷ []

module _ {ℓ} {A : Type ℓ} where
  abbrev pub silent : Channel A
  silent = record { pending = none; listeners = []; delivered = [] }

  -- The loop over the listeners, in the order in which they subscribed.
  unfoldable pub deliver_all : A → List ℕ → List (ℕ × A) → List (ℕ × A)
  deliver_all a [] done = done
  deliver_all a (l ∷ ls) done = deliver_all a ls ((l, a) ∷ done)

  -- `setPendingCall`, `setPendingChat` and `setPendingShare`.
  unfoldable pub set_pending : A → Channel A → Channel A
  unfolding deliver_all
  set_pending a s = record s { pending = some a; delivered = deliver_all a s.listeners s.delivered }

  abbrev replay : ℕ → Option A → List (ℕ × A) → List (ℕ × A)
  replay l none done = done
  replay l (some a) done = (l, a) ∷ done

  -- `subscribePendingCall` and the two like it.
  unfoldable pub subscribe : ℕ → Channel A → Channel A
  subscribe l s = record {
    pending = none;
    listeners = add_listener l s.listeners;
    delivered = replay l s.pending s.delivered;
  }

  unfoldable pub unsubscribe : ℕ → Channel A → Channel A
  unsubscribe l s = record s { listeners = keep (λ x. not (x == l)) s.listeners }

  -- A value that is set while nobody listens reaches the first subscriber, once: whoever subscribes
  -- after that is not called for it.
  pub subscribe_once :
      (a : A) (l k : ℕ) (s : Channel A)
      → s.listeners ≡ []
      → let t = subscribe l (set_pending a s) in
        (t.delivered ≡ (l, a) ∷ s.delivered) × ((subscribe k t).delivered ≡ t.delivered)
  unfolding set_pending subscribe
  subscribe_once a l k s nobody = (rw nobody refl, refl)

  -- A value that is set while a listener is there reaches that listener at once, and once more every
  -- one who subscribes next, also the same one: the waiting value is not cleared by the delivery.
  pub set_pending_again :
      (a : A) (l k : ℕ) (s : Channel A)
      → s.listeners ≡ l ∷ []
      → let t = subscribe k (unsubscribe l (set_pending a s)) in
        t.delivered ≡ (k, a) ∷ (l, a) ∷ s.delivered
  unfolding set_pending subscribe unsubscribe deliver_all
  set_pending_again a l k s one = rw one refl
