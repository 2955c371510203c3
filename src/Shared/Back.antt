-- ===== src/Shared/Back.antt =====
-- frontend/src/shared/hooks/useAndroidBack.tsx: the stack of handlers of the hardware back button.
-- A wrapped handler is a number, counted in the order in which the effects make them; `stack` is
-- `stackRef.current` from its end, so that the handler pushed last comes first.
use nothingapp.Common.{
  ℕ, zero, suc, ◌<◌, ◌≤◌, ◌==◌, ◌≡◌, refl, ap, Bool, true, false, List, [], ◌∷◌, any_of, arith,
  Bool-cases, inl, inr, if◌then◌else◌,
}

pub record BackStack : Type 0 where
  pub stack : List ℕ
  pub made : ℕ

abbrev pub empty_stack : BackStack
empty_stack = record { stack = []; made = 0 }

-- The effect of an enabled hook: it wraps its handler and pushes it.
unfoldable pub enable : BackStack → BackStack
enable s = record { stack = s.made ∷ s.stack; made = suc s.made }

-- The loop of `remove`, from the end of the stack: the first one that is the handler goes.
unfoldable pub remove : ℕ → List ℕ → List ℕ
remove h [] = []
remove h (x ∷ xs) = let rest = remove h xs in if x == h then xs else x ∷ rest

-- The cleanup of the effect.
unfoldable pub disable : ℕ → BackStack → BackStack
unfolding remove
disable h s = record s { stack = remove h s.stack }

pub data Pressed : Type 0 where
  consumed : ℕ → Pressed
  went_back exited : Pressed

module _ {ℓ} {S : Type ℓ} (call : ℕ → S → Bool × S) where
  -- The listener of `backButton`; `call` runs a handler on the state of the app.
  unfoldable pub press : Bool → List ℕ → S → Pressed × S
  press can_go_back [] w = (if can_go_back then went_back else exited, w)
  press can_go_back (h ∷ hs) w =
      let used = call h w in
      let rest = press can_go_back hs used.1 in if used.0 then (consumed h, used.1) else rest

-- The runs of effects and cleanups: how many handlers were made, and which were taken out. A cleanup
-- belongs to an effect that ran.
pub data Reaches : ℕ → List ℕ → BackStack → Type 0 where
  start : Reaches 0 [] empty_stack
  enabled :
      {n : ℕ} {gone : List ℕ} {s : BackStack} → Reaches n gone s → Reaches (suc n) gone (enable s)
  disabled :
      {n : ℕ} {gone : List ℕ} {s : BackStack} (h : ℕ)
      → h < n
      → Reaches n gone s
      → Reaches n (h ∷ gone) (disable h s)

-- The handlers in use, the newest first.
unfoldable pub live : ℕ → List ℕ → List ℕ
live zero gone = []
live (suc n) gone = let rest = live n gone in if any_of (λ g. g == n) gone then rest else n ∷ rest

live_older : (n h : ℕ) (gone : List ℕ) → n ≤ h → live n (h ∷ gone) ≡ live n gone
unfolding live
live_older zero h gone le = refl
live_older (suc n) h gone le =
    let older = live_older n h gone (omega arith) in
    let other : (h == n) ≡ false = ground arith in rw other (rw older refl)

remove-live : (n h : ℕ) (gone : List ℕ) → remove h (live n gone) ≡ live n (h ∷ gone)
unfolding live remove
remove-live zero h gone = refl
remove-live (suc n) h gone = elim (Bool-cases (h == n)) [
  | inl own ↦
      let older : live n (h ∷ gone) ≡ live n gone = live_older n h gone (ground arith) in
      elim (Bool-cases (any_of (λ g. g == n) gone)) [
        | inl out ↦ rw out (rw own (remove-live n h gone))
        | inr here ↦
            rw here (rw own (let same : (n == h) ≡ true = ground arith in rw same (rw older refl)))
      ]
  | inr other ↦ elim (Bool-cases (any_of (λ g. g == n) gone)) [
    | inl out ↦ rw out (rw other (remove-live n h gone))
    | inr here ↦ rw here (
        rw other (
          let differ : (n == h) ≡ false = ground arith in
          rw differ (ap (λ t. n ∷ t) (remove-live n h gone))))
  ]
]

-- The handlers that were taken out are older than the next one.
gone_made :
    {n : ℕ} {gone : List ℕ} {s : BackStack}
    → Reaches n gone s
    → (m : ℕ) → n ≤ m
    → any_of (λ g. g == m) gone ≡ false
gone_made start m le = refl
gone_made (enabled r) m le = gone_made r m (omega arith)
gone_made (disabled h lt r) m le =
    let other : (h == m) ≡ false = ground arith in rw other (gone_made r m le)

-- After any run the stack holds the handlers of the hooks that are enabled, the newest first.
pub Reaches-live :
    (n : ℕ) (gone : List ℕ) (s : BackStack)
    → Reaches n gone s
    → (s.made ≡ n) × (s.stack ≡ live n gone)
unfolding enable disable live
Reaches-live n gone s start = (refl, refl)
Reaches-live n gone s (enabled {n = n'} {s = t} r) =
    let (made, stack) = Reaches-live n' gone t r in
    (ap suc made, rw (gone_made r n' (omega arith)) (rw made (rw stack refl)))
Reaches-live n gone s (disabled {gone = older} {s = t} h lt r) =
    let (made, stack) = Reaches-live n older t r in (made, rw stack (remove-live n h older))

module _ {ℓ} {S : Type ℓ} (call : ℕ → S → Bool × S) where
  press-live :
      (n : ℕ) (gone : List ℕ) (h : ℕ) (can_go_back : Bool) (w after : S)
      → h < n
      → any_of (λ g. g == h) gone ≡ false
      → ((k : ℕ) → h < k → k < n → any_of (λ g. g == k) gone ≡ false → call k w ≡ (false, w))
      → call h w ≡ (true, after)
      → press call can_go_back (live n gone) w ≡ (consumed h, after)
  unfolding press live
  press-live zero gone h can_go_back w after lt here declines takes = absurd (omega arith)
  press-live (suc n) gone h can_go_back w after lt here declines takes =
      elim (Bool-cases (h == n)) [
        | inl own ↦
            let same : n ≡ h = ground arith in
            let top : any_of (λ g. g == n) gone ≡ false = rw same here in
            let first : call n w ≡ (true, after) = rw same takes in rw top (rw first (rw same refl))
        | inr other ↦
            let below =
              press-live n gone h can_go_back w after (ground arith) here
                (λ k newer lt. declines k newer (omega arith)) takes in
            elim (Bool-cases (any_of (λ g. g == n) gone)) [
              | inl out ↦ rw out below
              | inr top ↦ rw top (rw (declines n (ground arith) (omega arith) top) below)
            ]
      ]

  -- A press of the back button, after any run of effects and cleanups, is consumed by the handler
  -- that takes it, if every enabled handler that was pushed after it declines: none below it is
  -- called, and the app does not leave its page. (A handler that declines changes nothing.)
  pub press_newest :
      (n : ℕ) (gone : List ℕ) (s : BackStack) (h : ℕ) (can_go_back : Bool) (w after : S)
      → Reaches n gone s
      → h < n
      → any_of (λ g. g == h) gone ≡ false
      → ((k : ℕ) → h < k → k < n → any_of (λ g. g == k) gone ≡ false → call k w ≡ (false, w))
      → call h w ≡ (true, after)
      → press call can_go_back s.stack w ≡ (consumed h, after)
  press_newest n gone s h can_go_back w after r lt here declines takes =
      let (made, stack) = Reaches-live n gone s r in
      rw stack (press-live n gone h can_go_back w after lt here declines takes)
