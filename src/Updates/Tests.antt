-- ===== src/Updates/Tests.antt =====
-- The theorems on the updater at concrete runs.
use nothingapp.Common.{ℕ, true, none, some, List, [], ◌∷◌}
use nothingapp.Updates.Updater.{
  AppRelease, Event, checked, started, downloaded, latest, mounted, run, Updater,
}
use nothingapp.Updates.Offers.{IsValid}
use nothingapp.Updates.Runs.{run-IsValid_updater}

abbrev release : ℕ → AppRelease
release v = record { version_code = v; min_supported_version_code = 3; size_bytes = 1000 }

abbrev updating : List Event
updating = checked (some 4) (latest (some (release 5))) 100 ∷ started ∷ downloaded 0 (47 ∷ []) ∷ []

run-IsValid_updater_example : IsValid (run updating (mounted true none))
run-IsValid_updater_example = run-IsValid_updater updating true none

abbrev offered : Updater
offered = run (checked (some 4) (latest (some (release 5))) 100 ∷ []) (mounted true none)
