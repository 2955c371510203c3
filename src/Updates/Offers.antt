-- ===== src/Updates/Offers.antt =====
-- What the updater may offer, and that a check offers nothing else.
use nothingapp.Common.{
  ℕ, ◌≡◌, ◌<◌, ◌&&◌, not, refl, Bool, true, false, Option, none, some, codes, arith, leb,
  Bool-cases, inl, inr,
}
use nothingapp.Common.IdMap.{get}
use nothingapp.Updates.Updater.{
  AppRelease, UpdateState, loading, up_to_date, available, downloading, ready_to_install, failed,
  Download, Updater, states_equal, set_state_if_different, Latest, throws, latest, is_mandatory,
  judge, check_release, check_with, mounted, same_version,
}

-- A release is newer than the installed version, which is this one, and mandatory if the installed
-- version is no longer supported.
abbrev pub IsOffer : Option ℕ → AppRelease → ℕ → Bool → Type 0
IsOffer version r code m =
    (code < r.version_code) × (m ≡ is_mandatory code r) × (version ≡ some code)

abbrev pub IsSound : Option ℕ → UpdateState → Type 0
IsSound version (available r code m) = IsOffer version r code m
IsSound version (downloading r code m l t) = IsOffer version r code m
IsSound version (ready_to_install r p code m) = IsOffer version r code m
IsSound version (failed e (some code) m (some r)) = IsOffer version r code m
IsSound version (failed e none m (some r)) = ◌≡◌ {A = Bool} true false
IsSound version _ = Unit

pub record IsValid (s : Updater) : Type 0 where
  pub sound : IsSound s.current_version s.state
  pub jobs :
      (n : ℕ) (d : Download)
      → get n s.downloads ≡ some d
      → IsOffer s.current_version d.release d.code d.mandatory

pub mounted-IsValid : (native : Bool) (stored : Option ℕ) → IsValid (mounted native stored)
unfolding get
mounted-IsValid native stored = record { sound = tt; jobs = λ n d h. cc }

pub put_state-IsValid :
    (st : UpdateState) (s : Updater)
    → IsSound s.current_version st
    → IsValid s
    → IsValid (record s { state = st })
put_state-IsValid st s good v = record { sound = good; jobs = v.jobs }

set_state-IsValid :
    (st : UpdateState) (s : Updater)
    → IsSound s.current_version st
    → IsValid s
    → IsValid (set_state_if_different st s)
unfolding set_state_if_different
set_state-IsValid st s good v = elim (Bool-cases (states_equal s.state st)) [
  | inl same ↦ rw same v
  | inr new ↦ rw new (put_state-IsValid st s good v)
]

judge-IsSound :
    (code : ℕ) (old : Option ℕ) (r : Option AppRelease) → IsSound (some code) (judge code old r)
unfolding judge
judge-IsSound code old none = tt
judge-IsSound code old (some r) = elim (Bool-cases (leb r.version_code code)) [
  | inl older ↦ rw older tt
  | inr newer ↦ elim (Bool-cases (not (is_mandatory code r) && same_version old r.version_code)) [
    | inl hidden ↦ rw (newer, hidden) tt
    | inr shown ↦ rw (newer, shown) (ground arith, refl, refl)
  ]
]

check_release-IsValid :
    (code : ℕ) (a : Latest) (now : ℕ) (s : Updater)
    → s.current_version ≡ some code
    → IsValid s
    → IsValid (check_release code a now s)
unfolding check_release
check_release-IsValid code (throws e) now s known v =
    set_state-IsValid (failed e (some code) false none) s tt v
check_release-IsValid code (latest r) now s known v =
    set_state-IsValid (judge code s.dismissed_version r) (record s { last_check = some now })
      (rw known (judge-IsSound code s.dismissed_version r))
      (record { sound = v.sound; jobs = v.jobs })

learn-IsSound : (code : ℕ) (st : UpdateState) → IsSound none st → IsSound (some code) st
learn-IsSound code loading h = tt
learn-IsSound code (up_to_date c) h = tt
learn-IsSound code (available r c m) h = let p = h.2 in cc
learn-IsSound code (downloading r c m l t) h = let p = h.2 in cc
learn-IsSound code (ready_to_install r p c m) h = let p' = h.2 in cc
learn-IsSound code (failed e (some c) m (some r)) h = let p = h.2 in cc
learn-IsSound code (failed e none m (some r)) h = h
learn-IsSound code (failed e (some c) m none) h = tt
learn-IsSound code (failed e none m none) h = tt

pub check_with-IsValid :
    (native : Bool) (known version : Option ℕ) (a : Latest) (now : ℕ) (s : Updater)
    → s.current_version ≡ known
    → IsValid s
    → IsValid (check_with native known version a now s)
unfolding check_with
check_with-IsValid false known version a now s e v = set_state-IsValid (up_to_date 0) s tt v
check_with-IsValid true (some code) version a now s e v = check_release-IsValid code a now s e v
check_with-IsValid true none none a now s e v =
    set_state-IsValid (failed (codes "cannot read installed version") none false none) s tt v
check_with-IsValid true none (some code) a now s e v =
    check_release-IsValid code a now (record s { current_version = some code }) refl
      (record {
        sound = learn-IsSound code s.state (let h = v.sound in rw (← e) h);
        jobs = λ n d h. let p = (v.jobs n d h).2 in cc;
      })
