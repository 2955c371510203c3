-- ===== src/Updates/Runs.antt =====
-- What the updater offers in every run.
use nothingapp.Common.{
  ℕ, ◌≡◌, ◌==◌, not, refl, Bool, true, false, Option, none, some, List, [], ◌∷◌, Str, arith,
  Bool-cases, Option-cases, inl, inr,
}
use nothingapp.Common.IdMap.{get, delete, get-delete}
use nothingapp.Updates.Updater.{
  AppRelease, UpdateState, loading, up_to_date, available, downloading, ready_to_install, failed,
  Updater, perform_check, mounted, check_now, dismiss, run_download, progress_in, download_progress,
  download_done, download_failed, start_in, install_in, retry_in, install, retry, start_download,
  Event, checked, asked, dismissed, started, retried, progressed, downloaded, broken, installed,
  step, run, dismiss_in,
}
use nothingapp.Updates.Offers.{
  IsOffer, IsSound, IsValid, mounted-IsValid, put_state-IsValid, check_with-IsValid,
}

run_download-IsValid :
    (r : AppRelease) (code : ℕ) (m : Bool) (s : Updater)
    → IsOffer s.current_version r code m
    → IsValid s
    → IsValid (run_download r code m s)
unfolding run_download get
run_download-IsValid r code m s good v = elim (Bool-cases (not s.native)) [
  | inl web ↦ rw web v
  | inr native ↦ rw native (record {
    sound = good;
    jobs = λ n d h. elim (Bool-cases (s.next == n)) [
      | inl here ↦
          let p : record { release = r; code = code; mandatory = m } ≡ d = ground arith in
          rw (← p) good
      | inr other ↦ v.jobs n d (ground arith)
    ];
  })
]

forget-IsValid :
    (n : ℕ) (st : UpdateState) (s : Updater)
    → IsSound s.current_version st
    → IsValid s
    → IsValid (record s { state = st; downloads = delete n s.downloads })
forget-IsValid n st s good v = record {
  sound = good;
  jobs = λ i d h. v.jobs i d (ground (arith, get-delete n i s.downloads));
}

download_done-IsValid : (n : ℕ) (p : Str) (s : Updater) → IsValid s → IsValid (download_done n p s)
unfolding download_done
download_done-IsValid n p s v = elim (Option-cases (get n s.downloads)) [
  | inl gone ↦ rw (gone, download_done) v
  | inr (d, here) ↦
      rw (here, download_done)
        (forget-IsValid n (ready_to_install d.release p d.code d.mandatory) s (v.jobs n d here) v)
]

download_failed-IsValid :
    (n : ℕ) (e : Str) (s : Updater) → IsValid s → IsValid (download_failed n e s)
unfolding download_failed
download_failed-IsValid n e s v = elim (Option-cases (get n s.downloads)) [
  | inl gone ↦ rw (gone, download_failed) v
  | inr (d, here) ↦
      rw (here, download_failed)
        (forget-IsValid n (failed e (some d.code) d.mandatory (some d.release)) s (v.jobs n d here)
          v)
]

-- The operations that depend on the state, by cases on it.
module _ (s : Updater) (v : IsValid s) where
  dismiss_in-IsValid : (st : UpdateState) → IsValid (dismiss_in st s)
  dismiss_in-IsValid (available r code false) = record { sound = tt; jobs = v.jobs }
  dismiss_in-IsValid (available r code true) = v
  dismiss_in-IsValid (failed e code m r) = record { sound = tt; jobs = v.jobs }
  dismiss_in-IsValid loading = v
  dismiss_in-IsValid (up_to_date c) = v
  dismiss_in-IsValid (downloading r c m l t) = v
  dismiss_in-IsValid (ready_to_install r p c m) = v

  start_in-IsValid : (st : UpdateState) → IsSound s.current_version st → IsValid (start_in st s)
  start_in-IsValid (available r code m) h = run_download-IsValid r code m s h v
  start_in-IsValid loading h = v
  start_in-IsValid (up_to_date c) h = v
  start_in-IsValid (downloading r c m l t) h = v
  start_in-IsValid (ready_to_install r p c m) h = v
  start_in-IsValid (failed e c m r) h = v

  check_now-IsValid : IsValid (check_now s)
  unfolding check_now
  check_now-IsValid = record { sound = tt; jobs = v.jobs }

  retry_in-IsValid : (st : UpdateState) → IsSound s.current_version st → IsValid (retry_in st s)
  retry_in-IsValid (failed e (some c) m (some r)) h = run_download-IsValid r c m s h v
  retry_in-IsValid (failed e none m (some r)) h = cc
  retry_in-IsValid (failed e c m none) h = check_now-IsValid
  retry_in-IsValid (available r code m) h = check_now-IsValid
  retry_in-IsValid loading h = check_now-IsValid
  retry_in-IsValid (up_to_date c) h = check_now-IsValid
  retry_in-IsValid (downloading r c m l t) h = check_now-IsValid
  retry_in-IsValid (ready_to_install r p c m) h = check_now-IsValid

  install_in-IsValid :
      (st : UpdateState) (o : Option Str)
      → IsSound s.current_version st
      → IsValid (install_in st o s)
  install_in-IsValid (ready_to_install r p c m) (some e) h = elim (Bool-cases s.native) [
    | inl native ↦ rw native (record { sound = h; jobs = v.jobs })
    | inr web ↦ rw web (record { sound = v.sound; jobs = v.jobs })
  ]
  install_in-IsValid (ready_to_install r p c m) none h = v
  install_in-IsValid (available r code m) o h = v
  install_in-IsValid loading o h = v
  install_in-IsValid (up_to_date c) o h = v
  install_in-IsValid (downloading r c m l t) o h = v
  install_in-IsValid (failed e c m r) o h = v

progress_in-IsSound :
    (version : Option ℕ) (l t : ℕ) (st : UpdateState)
    → IsSound version st
    → IsSound version (progress_in l t st)
progress_in-IsSound version l t (downloading r c m k u) h = h
progress_in-IsSound version l t (available r code m) h = h
progress_in-IsSound version l t loading h = h
progress_in-IsSound version l t (up_to_date c) h = h
progress_in-IsSound version l t (ready_to_install r p c m) h = h
progress_in-IsSound version l t (failed e (some c) m (some r)) h = h
progress_in-IsSound version l t (failed e none m (some r)) h = h
progress_in-IsSound version l t (failed e (some c) m none) h = h
progress_in-IsSound version l t (failed e none m none) h = h

step-IsValid : (e : Event) (s : Updater) → IsValid s → IsValid (step e s)
unfolding step
step-IsValid (checked version a now) s v =
    unfold perform_check in check_with-IsValid s.native s.current_version version a now s refl v
step-IsValid asked s v = check_now-IsValid s v
step-IsValid dismissed s v = unfold dismiss in dismiss_in-IsValid s v s.state
step-IsValid started s v = unfold start_download in start_in-IsValid s v s.state v.sound
step-IsValid retried s v = unfold retry in retry_in-IsValid s v s.state v.sound
step-IsValid (progressed l t) s v =
    unfold download_progress in
    put_state-IsValid (progress_in l t s.state) s
      (progress_in-IsSound s.current_version l t s.state v.sound) v
step-IsValid (downloaded n p) s v = download_done-IsValid n p s v
step-IsValid (broken n e) s v = download_failed-IsValid n e s v
step-IsValid (installed o) s v = unfold install in install_in-IsValid s v s.state o v.sound

run-IsValid_from : (es : List Event) (s : Updater) → IsValid s → IsValid (run es s)
unfolding run
run-IsValid_from [] s v = v
run-IsValid_from (e ∷ es) s v = run-IsValid_from es (step e s) (step-IsValid e s v)

-- In every run of the updater: a release that it offers, downloads, has ready, or keeps for a retry
-- is newer than the installed version; the version it is compared with is the installed one; and it
-- is mandatory exactly when the installed version is below the oldest supported one.
pub run-IsValid_updater :
    (es : List Event) (native : Bool) (stored : Option ℕ) → IsValid (run es (mounted native stored))
run-IsValid_updater es native stored =
    run-IsValid_from es (mounted native stored) (mounted-IsValid native stored)
