-- ===== src/Socket/Tests.antt =====
-- The theorems on the socket at concrete runs.
use nothingapp.Common.{◌≡◌, refl, ◌++◌, true, false, some, List, [], ◌∷◌}
use nothingapp.Common.IdMap.{get, put}
use nothingapp.Socket.Hook.{
  Event, init_fires, opened, server_closes, visibility, run, step, mounted, on_close, can_send,
  connect, on_open, init_timeout, visibility_change,
}
use nothingapp.Socket.Live.{IsValid}
use nothingapp.Socket.Runs.{run-IsValid_socket}
use nothingapp.Socket.Retries.{fails, outage, run-outage_ends, on_close-can_send}

-- The server starts to close the first socket; the page comes back into view and opens a second.
abbrev resumed : List Event
resumed = init_fires ∷ opened 0 ∷ server_closes 0 ∷ visibility false ∷ opened 1 ∷ []

run-IsValid_socket_example : IsValid (run resumed mounted)
run-IsValid_socket_example = run-IsValid_socket resumed

run-outage_ends_example :
    let t = run (init_fires ∷ fails 0 true ++ outage 1 (false ∷ true ∷ [])) mounted in
    (t.attempts ≡ 3)
    × (t.next ≡ 3)
    × (t.reconnect_timer ≡ some 4000)
    × (t.is_connected ≡ false)
    × (can_send t ≡ false)
run-outage_ends_example = run-outage_ends true (false ∷ true ∷ [])

on_close-can_send_example :
    let t = on_close 0 (run resumed mounted) in
    (t.is_connected ≡ false) × (t.ws ≡ some 1) × (can_send t ≡ true)
unfolding run step get connect on_open init_timeout visibility_change put
on_close-can_send_example = on_close-can_send 0 1 (run resumed mounted) refl refl refl
