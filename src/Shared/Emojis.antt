-- ===== src/Shared/Emojis.antt =====
-- frontend/src/features/chats/useRecentEmojis.ts: the emojis used last, newest first.
use nothingapp.Common.{
  ℕ, zero, suc, ◌≤◌, ◌≡◌, refl, Bool, false, not, List, [], ◌∷◌, Str, str_eq, any_of, keep, take,
  length, length-take, arith,
}

abbrev pub max_recent : ℕ
max_recent = 32

-- `addRecentEmoji`: the state of the picker, which is also what is stored.
unfoldable pub add_recent_emoji : Str → List Str → List Str
add_recent_emoji emoji prev = take max_recent (emoji ∷ keep (λ e. not (str_eq e emoji)) prev)

abbrev pub has_emoji : Str → List Str → Bool
has_emoji e = any_of (λ x. str_eq x e)

-- No emoji stands twice.
abbrev pub IsUnique : List Str → Type 0
IsUnique [] = Unit
IsUnique (e ∷ es) = (has_emoji e es ≡ false) × IsUnique es

has_emoji-keep :
    (e f : Str) (es : List Str)
    → has_emoji e es ≡ false
    → has_emoji e (keep (λ x. not (str_eq x f)) es) ≡ false
has_emoji-keep e f [] h = refl
has_emoji-keep e f (x ∷ es) h = ground (arith, has_emoji-keep e f es)

keep-IsUnique : (f : Str) (es : List Str) → IsUnique es → IsUnique (keep (λ x. not (str_eq x f)) es)
keep-IsUnique f [] h = tt
keep-IsUnique f (x ∷ es) (fresh, h) =
    ground (arith, has_emoji-keep x f es fresh, keep-IsUnique f es h)

keep_removes : (f : Str) (es : List Str) → has_emoji f (keep (λ x. not (str_eq x f)) es) ≡ false
keep_removes f [] = refl
keep_removes f (x ∷ es) = ground (arith, keep_removes f es)

has_emoji-take :
    (n : ℕ) (e : Str) (es : List Str) → has_emoji e es ≡ false → has_emoji e (take n es) ≡ false
has_emoji-take zero e es h = refl
has_emoji-take (suc n) e [] h = refl
has_emoji-take (suc n) e (x ∷ es) h = ground (arith, has_emoji-take n e es)

take-IsUnique : (n : ℕ) (es : List Str) → IsUnique es → IsUnique (take n es)
take-IsUnique zero es h = tt
take-IsUnique (suc n) [] h = tt
take-IsUnique (suc n) (x ∷ es) (fresh, h) = (has_emoji-take n x es fresh, take-IsUnique n es h)

abbrev pub add_all : List Str → List Str → List Str
add_all [] recent = recent
add_all (e ∷ es) recent = add_all es (add_recent_emoji e recent)

abbrev pub IsRecent : List Str → Type 0
IsRecent es = IsUnique es × (length es ≤ max_recent)

add_recent_emoji-IsRecent :
    (e : Str) (es : List Str) → IsUnique es → IsRecent (add_recent_emoji e es)
unfolding add_recent_emoji
add_recent_emoji-IsRecent e es h =
    let rest = keep (λ x. not (str_eq x e)) es in
    (
      (has_emoji-take 31 e rest (keep_removes e es), take-IsUnique 31 rest (keep-IsUnique e es h)),
      omega (arith, length-take 31 rest),
    )

-- However emojis are picked, at least one, from a list without duplicates, the list has at most 32
-- of them then, and none twice.
pub add_all-IsRecent :
    (e : Str) (es recent : List Str) → IsUnique recent → IsRecent (add_all (e ∷ es) recent)
add_all-IsRecent e [] recent h = add_recent_emoji-IsRecent e recent h
add_all-IsRecent e (f ∷ es) recent h =
    add_all-IsRecent f es (add_recent_emoji e recent) (add_recent_emoji-IsRecent e recent h).0
