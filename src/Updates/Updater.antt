-- ===== src/Updates/Updater.antt =====
-- frontend/src/features/updates/UpdateProvider.tsx: the state of the updater and its operations. A
-- check and a download end with an event of their own; the writes of the preferences are
-- instantaneous.
use nothingapp.Common.{
  ℕ, ◌+◌, leb, ltb, ◌==◌, Bool, true, false, not, ◌&&◌, Option, none, some, List, [], ◌∷◌, Str,
  codes, str_eq, or_else, if◌then◌else◌,
}
use nothingapp.Common.IdMap.{IdMap, get, delete}

-- Of a release, what the provider reads and does not only pass on.
pub record AppRelease : Type 0 where
  pub version_code : ℕ
  pub min_supported_version_code : ℕ
  pub size_bytes : ℕ

-- With the version code that is installed, and whether the update is mandatory.
pub data UpdateState : Type 0 where
  loading : UpdateState
  up_to_date : ℕ → UpdateState
  available : AppRelease → ℕ → Bool → UpdateState
  downloading : AppRelease → ℕ → Bool → ℕ → ℕ → UpdateState
  ready_to_install : AppRelease → Str → ℕ → Bool → UpdateState
  failed : Str → Option ℕ → Bool → Option AppRelease → UpdateState

pub record Download : Type 0 where
  pub release : AppRelease
  pub code : ℕ
  pub mandatory : Bool

pub record Updater : Type 0 where
  pub native : Bool
  pub state : UpdateState
  pub current_version : Option ℕ
  pub dismissed_version : Option ℕ
  pub stored_dismissed : Option ℕ
  pub last_check : Option ℕ
  pub downloads : IdMap Download
  pub next : ℕ

unfoldable pub states_equal : UpdateState → UpdateState → Bool
states_equal loading loading = true
states_equal (up_to_date c) (up_to_date d) = c == d
states_equal (available r c m) (available q d n) =
    r.version_code == q.version_code && (if m then n else not n)
states_equal (downloading r c m l t) (downloading q d n k u) =
    r.version_code == q.version_code && l == k
states_equal (ready_to_install r p c m) (ready_to_install q o d n) = str_eq p o
states_equal (failed e c m r) (failed f d n q) = str_eq e f
states_equal _ _ = false

unfoldable pub set_state_if_different : UpdateState → Updater → Updater
set_state_if_different next s = if states_equal s.state next then s else record s { state = next }

abbrev pub same_version : Option ℕ → ℕ → Bool
same_version none v = false
same_version (some w) v = w == v

-- What `fetchLatestRelease` gives: it throws, or there may be a release.
pub data Latest : Type 0 where
  throws : Str → Latest
  latest : Option AppRelease → Latest

abbrev pub is_mandatory : ℕ → AppRelease → Bool
is_mandatory code r = ltb code r.min_supported_version_code

-- The state that a release leads to.
unfoldable pub judge : ℕ → Option ℕ → Option AppRelease → UpdateState
judge code dismissed none = up_to_date code
judge code dismissed (some r) =
    if leb r.version_code code
    then up_to_date code
    else if not (is_mandatory code r) && same_version dismissed r.version_code
    then up_to_date code
    else available r code (is_mandatory code r)

-- `performCheck` once the installed version is known.
unfoldable pub check_release : ℕ → Latest → ℕ → Updater → Updater
unfolding set_state_if_different judge
check_release code (throws e) now s = set_state_if_different (failed e (some code) false none) s
check_release code (latest r) now s =
    set_state_if_different (judge code s.dismissed_version r) (record s { last_check = some now })

abbrev cannot_read : Str
cannot_read = codes "cannot read installed version"

-- `performCheck`, given whether the app is native and which version is known to be installed;
-- `installed` is what `getCurrentVersion` gives, none when it throws.
unfoldable pub check_with : Bool → Option ℕ → Option ℕ → Latest → ℕ → Updater → Updater
unfolding set_state_if_different check_release
check_with false known installed answer now s = set_state_if_different (up_to_date 0) s
check_with true (some code) installed answer now s = check_release code answer now s
check_with true none none answer now s =
    set_state_if_different (failed cannot_read none false none) s
check_with true none (some code) answer now s =
    check_release code answer now (record s { current_version = some code })

unfoldable pub perform_check : Option ℕ → Latest → ℕ → Updater → Updater
unfolding check_with
perform_check installed answer now s = check_with s.native s.current_version installed answer now s

-- The start of the provider, before its check: `stored` is the hydrated preference.
abbrev pub mounted : Bool → Option ℕ → Updater
mounted native stored = record {
  native = native;
  state = loading;
  current_version = none;
  dismissed_version = if native then stored else none;
  stored_dismissed = stored;
  last_check = none;
  downloads = [];
  next = 0;
}

-- `checkNow` up to its check.
unfoldable pub check_now : Updater → Updater
check_now s = record s { state = loading }

abbrev pub dismiss_in : UpdateState → Updater → Updater
dismiss_in (available r code false) s = record s {
  state = up_to_date code;
  dismissed_version = some r.version_code;
  stored_dismissed = some r.version_code;
}
dismiss_in (failed e code m r) s = record s { state = up_to_date (or_else code 0) }
dismiss_in _ s = s

unfoldable pub dismiss : Updater → Updater
dismiss s = dismiss_in s.state s

abbrev pub make_download : Download → Updater → Updater
make_download d s = record s {
  state = downloading d.release d.code d.mandatory 0 d.release.size_bytes;
  downloads = (s.next, d) ∷ s.downloads;
  next = s.next + 1;
}

unfoldable pub run_download : AppRelease → ℕ → Bool → Updater → Updater
run_download r code m s =
    if not s.native then s else make_download (record { release = r; code = code; mandatory = m }) s

abbrev pub progress_in : ℕ → ℕ → UpdateState → UpdateState
progress_in loaded total (downloading r code m l t) = downloading r code m loaded total
progress_in loaded total st = st

unfoldable pub download_progress : ℕ → ℕ → Updater → Updater
download_progress loaded total s = record s { state = progress_in loaded total s.state }

-- The end of a download: its path, or its error.
unfoldable pub download_done : ℕ → Str → Updater → Updater
download_done n path s = elim (get n s.downloads) [
  | none ↦ s
  | some d ↦ record s {
    state = ready_to_install d.release path d.code d.mandatory;
    downloads = delete n s.downloads;
  }
]

unfoldable pub download_failed : ℕ → Str → Updater → Updater
download_failed n e s = elim (get n s.downloads) [
  | none ↦ s
  | some d ↦ record s {
    state = failed e (some d.code) d.mandatory (some d.release);
    downloads = delete n s.downloads;
  }
]

abbrev pub start_in : UpdateState → Updater → Updater
start_in (available r code m) s = run_download r code m s
start_in _ s = s

unfoldable pub start_download : Updater → Updater
unfolding run_download
start_download s = start_in s.state s

-- `install`: none if the native call succeeds, and else its error.
abbrev pub install_in : UpdateState → Option Str → Updater → Updater
install_in (ready_to_install r path code m) (some e) s =
    if s.native then record s { state = failed e (some code) m (some r) } else s
install_in _ _ s = s

unfoldable pub install : Option Str → Updater → Updater
install outcome s = install_in s.state outcome s

abbrev pub retry_in : UpdateState → Updater → Updater
retry_in (failed e code m (some r)) s = run_download r (or_else code 0) m s
retry_in _ s = check_now s

unfoldable pub retry : Updater → Updater
unfolding run_download check_now
retry s = retry_in s.state s

pub data Event : Type 0 where
  checked : Option ℕ → Latest → ℕ → Event
  asked dismissed started retried : Event
  progressed : ℕ → ℕ → Event
  downloaded broken : ℕ → Str → Event
  installed : Option Str → Event

unfoldable pub step : Event → Updater → Updater
unfolding perform_check check_now dismiss start_download retry download_progress download_done
    download_failed install
step (checked version answer now) s = perform_check version answer now s
step asked s = check_now s
step dismissed s = dismiss s
step started s = start_download s
step retried s = retry s
step (progressed loaded total) s = download_progress loaded total s
step (downloaded n path) s = download_done n path s
step (broken n e) s = download_failed n e s
step (installed outcome) s = install outcome s

unfoldable pub run : List Event → Updater → Updater
run [] s = s
run (e ∷ es) s = run es (step e s)
