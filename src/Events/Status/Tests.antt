-- ===== src/Events/Status/Tests.antt =====
-- Runs of the connection's status, and its theorems at concrete inputs.
use qtoggleserver.Base.{ℕ, ◌≡◌, refl, true, false, Option, none, some, List, [], ◌∷◌, String}
use qtoggleserver.Events.Status.{
  Sync, status_error, update_status_icon, on_listens, on_main_device_disconnect,
  on_main_device_reconnect, show_progress, hide_progress, reload_cache,
}
use qtoggleserver.Events.Status.Burst.{
  Action, begins, ends, run, Burst, outcome, last_error, overlapping_status,
}
use qtoggleserver.Events.Status.Connection.{connection, follow, told_of_connection}

abbrev quiet : Option String → Sync String
quiet e = record {
  sync_count = 0;
  sync_error = e;
  sync_listen_error = none;
  shows_progress = false;
}

-- Three requests that overlap, of which the second fails.
abbrev overlapping : List (Action String)
overlapping = begins ∷ ends none ∷ begins ∷ ends (some "timeout") ∷ ends none ∷ []

overlapping_status_example :
    update_status_icon (run (begins ∷ overlapping) (quiet (some "old")))
    ≡ (status_error, some "timeout")
unfolding Burst outcome last_error
overlapping_status_example = overlapping_status overlapping (quiet (some "old")) refl refl refl

-- Two requests for events fail, the second time with a delay, and two succeed.
abbrev outcomes : List (Option (String × ℕ))
outcomes = some ("lost", 1) ∷ some ("lost", 5) ∷ none ∷ none ∷ []

outcomes-told :
    (on_listens (true ∷ []) outcomes (quiet none)).0
    ≡ on_main_device_disconnect true "lost"
      ∷ show_progress
      ∷ hide_progress
      ∷ reload_cache
      ∷ on_main_device_reconnect true
      ∷ []
unfolding on_listens
outcomes-told = refl

told_of_connection_example :
    let (calls, t) = on_listens (true ∷ false ∷ []) outcomes (quiet none) in
    follow (λ s. s) calls (true, false) ≡ some (connection t)
unfolding connection
told_of_connection_example =
    told_of_connection (λ s. s) (true ∷ false ∷ []) true refl outcomes (quiet none)
