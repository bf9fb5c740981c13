-- ===== src/Device/Backup.antt =====
-- `BackupForm` of qtoggleserver/frontend/js/common/backup-form.js. The promises of the endpoints are
-- settled one after the other; the names of the fields are those of the endpoints. Left out: what is
-- enabled or disabled while the form applies its data, and the date in the name of the file.
pub mod Again
mod Tests
use qtoggleserver.Base.{
  Bool, true, false, not, Option, none, some, List, [], ◌∷◌, ◌++◌, map, filter, if◌then◌else◌,
  String,
}
use text.Mathlib.Text.{◌==◌ as str_eq}
use qtoggleserver.Auth.{Auth}
use qtoggleserver.Api.Calls.{Api, Request, api_call, set_slave_name}
use qtoggleserver.Cache.{set_device}
use qtoggleserver.Device.Provisioning.{EndpointData, Endpoint, get_name, prepare_backup_data}
use qtoggleserver.Device.Operation.{
  Status, in_progress, applied, failed, Turn, Answer, answers, fails, set_status, skip_rest,
}

pub record Form (E : Type 0) : Type 0 where
  pub device_name : String
  pub backup_endpoints : List Endpoint
  pub running : Bool
  pub status : String → Status E

-- `backupData`
abbrev pub BackupData : (A : Type 0) → Type 0
BackupData A = List (String × EndpointData A)

pub data Act (A : Type 0) : Type 0 where
  send : Request (EndpointData A) → Act A
  download : String → BackupData A → Act A

module _ {E : Type 0} where
  -- `cancelBackup`
  unfoldable pub cancel_backup : Form E → Form E
  cancel_backup f = record f { running = false }

  -- The endpoints that `applyData` backs up.
  unfoldable pub selected : (String → Bool) → Form E → List Endpoint
  unfolding get_name
  selected is_checked f = filter (λ e. is_checked (get_name e)) f.backup_endpoints

module _ {A E : Type 0}
    (filter_object : (String → A → Bool) → List (String × A) → List (String × A)) where
  -- What follows the answer, and whether the promise is fulfilled; the data are kept under the name of
  -- the endpoint.
  unfoldable pub settled :
      Endpoint → Answer A E → Form E × BackupData A → Bool × (Form E × BackupData A)
  unfolding get_name set_status prepare_backup_data set_device
  settled e (fails x) (f, b) =
      (false, (record f { status = set_status (get_name e) (failed x) f.status }, b))
  settled e (answers d) (f, b) = (
    true,
    (
      record f { status = set_status (get_name e) applied f.status },
      set_device (get_name e) (prepare_backup_data filter_object e d) b,
    ),
  )

  module _ (auth : Auth) (turn : Endpoint → Turn A E) where
    -- The request of `performBackupOnEndpoint`.
    unfoldable pub backup_request : Endpoint → Form E × Api → Request (EndpointData A) × Api
    unfolding set_slave_name api_call
    backup_request e (f, s) =
        let main = (turn e).main_name in
        let slave = not (str_eq f.device_name main) in
        let s1 = if slave then set_slave_name main (some f.device_name) s else s in
        api_call auth
          (record {
            method = e.backup_method;
            path = e.path;
            query = [];
            body = none;
            timeout = some 120000;
          })
          s1

    -- The chain of promises, and whether it is fulfilled.
    unfoldable pub backup_all :
        List Endpoint
        → (Form E × BackupData A) × Api
        → List (Request (EndpointData A)) × (Bool × ((Form E × BackupData A) × Api))
    unfolding backup_request settled cancel_backup get_name set_status
    backup_all [] t = ([], (true, t))
    backup_all (e ∷ es) ((f, b), s) =
        let f1 = if (turn e).is_closed then cancel_backup f else f in
        let f2 = record f1 { status = set_status (get_name e) in_progress f1.status } in
        let (request, s1) = backup_request e (f2, s) in
        let (done, t) = settled e (turn e).answer (f2, b) in
        let (requests, rest) = backup_all es (t, s1) in
        let idle = backup_all es ((f1, b), s) in
        if f1.running
        then (if done then (request ∷ requests, rest) else (request ∷ [], (false, (t, s1))))
        else idle

    -- `applyData`
    unfoldable pub apply_data : (String → Bool) → Form E × Api → List (Act A) × (Form E × Api)
    unfolding selected backup_all skip_rest
    apply_data is_checked (f, s) =
        let (requests, (done, ((g, b), s1))) =
          backup_all (selected is_checked f) ((record f { running = true }, []), s) in
        if done
        then (
          map send requests ++ download g.device_name b ∷ [],
          (record g { running = false }, s1),
        )
        else (
          map send requests,
          (
            record g { running = false; status = skip_rest is_checked g.backup_endpoints g.status },
            s1,
          ),
        )
