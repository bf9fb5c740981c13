-- ===== src/Events/Status.antt =====
-- The status of the connection in qtoggleserver/frontend/js/events.js: the functions that `init` has
-- called when a request begins and ends and after each request for events, and `updateStatusIcon`.
-- `E` stands for errors, `S` for sections. The calls of sections are made by `asap`, and so
-- after the other calls. `endCallback` follows a `beginCallback`, so that the
-- number of requests is not 0 then.
pub mod Burst
pub mod Connection
mod Tests
use qtoggleserver.Base.{
  ℕ, suc, ◌-◌, Bool, true, false, Option, none, some, List, [], ◌∷◌, ◌++◌, map, ltb, ◌==◌,
  if◌then◌else◌,
}

-- `syncCount`, `syncError`, `syncListenError`, and whether `listenErrorProgressMessage` is shown.
pub record Sync (E : Type 0) : Type 0 where
  pub sync_count : ℕ
  pub sync_error : Option E
  pub sync_listen_error : Option E
  pub shows_progress : Bool

pub data Icon : Type 0 where
  status_ok status_sync status_error : Icon

pub data Call (E S : Type 0) : Type 0 where
  on_main_device_disconnect : S → E → Call E S
  on_main_device_reconnect : S → Call E S
  show_progress hide_progress reload_cache : Call E S

module _ {E : Type 0} where
  -- `updateStatusIcon`: the icon, with the error whose message it has.
  unfoldable pub update_status_icon : Sync E → Icon × Option E
  update_status_icon s = elim s.sync_listen_error [
    | some e ↦ (status_sync, some e)
    | none ↦ elim s.sync_error [
      | some e ↦ (status_error, some e)
      | none ↦ if ltb 0 s.sync_count then (status_sync, none) else (status_ok, none)
    ]
  ]

  -- `beginCallback`
  unfoldable pub on_begin : Sync E → Sync E
  on_begin s = record s {
    sync_error = if s.sync_count == 0 then none else s.sync_error;
    sync_count = suc s.sync_count;
  }

  -- `endCallback`
  unfoldable pub on_end : Option E → Sync E → Sync E
  on_end error s = record s {
    sync_count = s.sync_count - 1;
    sync_error = elim error [ none ↦ s.sync_error | some e ↦ some e ];
  }

module _ {E S : Type 0} (sections : List S) where
  -- The function that is called after a request for events, with an error and the seconds until the
  -- next one, or with none.
  unfoldable pub on_listen : Option (E × ℕ) → Sync E → List (Call E S) × Sync E
  on_listen none s = elim s.sync_listen_error [
    | none ↦ ([], s)
    | some e ↦ (
      (if s.shows_progress then hide_progress ∷ [] else [])
          ++ reload_cache ∷ map (λ c. on_main_device_reconnect c) sections,
      record s { sync_listen_error = none; shows_progress = false },
    )
  ]
  on_listen (some (error, seconds)) s =
      let told : List (Call E S) = elim s.sync_listen_error [
        | none ↦ map (λ c. on_main_device_disconnect c error) sections
        | some e ↦ []
      ] in
      if ltb 1 seconds
      then (
        (if s.shows_progress then [] else show_progress ∷ []) ++ told,
        record s { sync_listen_error = some error; shows_progress = true },
      )
      else (told, record s { sync_listen_error = some error })

  unfoldable pub on_listens : List (Option (E × ℕ)) → Sync E → List (Call E S) × Sync E
  unfolding on_listen
  on_listens [] s = ([], s)
  on_listens (o ∷ rest) s =
      let (first, t) = on_listen o s in let (later, u) = on_listens rest t in (first ++ later, u)
