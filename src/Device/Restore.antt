-- ===== src/Device/Restore.antt =====
-- `RestoreForm` of qtoggleserver/frontend/js/common/restore-form.js. `text_of` is the text of a
-- value. The promises of the endpoints are settled one after the other; the names of the fields are
-- those of the endpoints. Left out: the text that is added to the message of an error that names a
-- port or a device (no element of an array is null there, and `URL` takes any value), and what is
-- enabled or disabled while the form applies its data.
pub mod Fate
pub mod Every
pub mod Closed
mod Tests
use qtoggleserver.Base.{
  ℕ, Bool, true, false, not, ◌&&◌, ◌||◌, Option, none, some, List, [], ◌∷◌, ◌++◌, map, filter,
  if◌then◌else◌, String, get_value,
}
use text.Mathlib.Text.{◌==◌ as str_eq}
use qtoggleserver.Auth.{Auth}
use qtoggleserver.Api.Calls.{Api, Request, api_call, set_slave_name}
use qtoggleserver.Device.Provisioning.{
  EndpointData, fields, items, leaf, Endpoint, get_name, prepare_restore_data,
}
use qtoggleserver.Device.Operation.{
  Status, blank, in_progress, applied, failed, Turn, Answer, answers, fails, set_status, skip_rest,
}

pub record Form (A E : Type 0) : Type 0 where
  pub device_name : String
  pub new_device_name : Option String
  pub backup_endpoints : List Endpoint
  pub running : Bool
  pub content : Option (List (String × EndpointData A))
  pub supplied_names : List String
  pub has_error : Bool
  pub can_restore : Bool
  pub status : String → Status E

-- Whether the parameters of an error have `index` or `id`, and whether a value is null.
pub record ErrorParams (A E : Type 0) : Type 0 where
  pub names_device : E → Bool
  pub names_port : E → Bool
  pub is_null_value : A → Bool

pub data Act (A : Type 0) : Type 0 where
  send : Request (EndpointData A) → Act A
  show_restored : Act A
  do_reboot : String → Act A

module _ {A : Type 0} where
  -- What follows an endpoint, with what would follow if its promise were fulfilled.
  unfoldable pub chain :
      {T : Type 0}
      → Request (EndpointData A) × (Bool × T)
      → List (Act A) × (Bool × T)
      → List (Act A) × (Bool × T)
  chain (request, (done, t)) (acts, rest) =
      if done then (send request ∷ acts, rest) else (send request ∷ [], (false, t))

module _ {A E : Type 0} where
  -- `handleFileSelected`, first at once, then when the text was read: the object in it, or `none` if
  -- it cannot be parsed.
  unfoldable pub file_selected : Form A E → Form A E
  file_selected f = record f {
    content = none;
    supplied_names = [];
    has_error = false;
    can_restore = false;
    status = λ n. blank;
  }

  unfoldable pub file_read : Option (List (String × EndpointData A)) → Form A E → Form A E
  unfolding get_name
  file_read none f = record f { has_error = true }
  file_read (some content) f =
      let names =
        filter (λ n. is_some (get_value str_eq n content)) (map get_name f.backup_endpoints) in
      elim names [
        | [] ↦ record f { has_error = true }
        | n ∷ ns ↦ record f { can_restore = true; content = some content; supplied_names = n ∷ ns }
      ]
    where
      is_some : Option (EndpointData A) → Bool
      is_some none = false
      is_some (some d) = true

  unfoldable pub add_backup_endpoint : Endpoint → Form A E → Form A E
  add_backup_endpoint e f = record f { backup_endpoints = f.backup_endpoints ++ e ∷ [] }

  -- `getDeviceName`
  unfoldable pub get_device_name : Form A E → String
  get_device_name f = elim f.new_device_name [
    | none ↦ f.device_name
    | some n ↦ if str_eq n "" then f.device_name else n
  ]

  -- `deviceIsSlave`, `main` being the name of the main device.
  unfoldable pub device_is_slave : String → Form A E → Bool
  device_is_slave main f =
      not (str_eq f.device_name main)
      && not (elim f.new_device_name [ none ↦ false | some n ↦ str_eq n main ])

  -- `cancelRestore`
  unfoldable pub cancel_restore : Form A E → Form A E
  cancel_restore f = record f { running = false }

  -- The endpoints that `applyData` restores.
  unfoldable pub selected : (String → Bool) → Form A E → List Endpoint
  unfolding get_name
  selected is_checked f =
      filter (λ e. is_checked (get_name e))
        (filter (λ e. includes (get_name e) f.supplied_names) f.backup_endpoints)
    where
      includes : String → List String → Bool
      includes k [] = false
      includes k (l ∷ ls) = str_eq l k || includes k ls

  -- What the function that catches an error does with data that it does not expect: it looks for a
  -- device by its position, and for a port by its id in an array.
  unfoldable pub catch_throws : ErrorParams A E → E → Option (EndpointData A) → Bool
  catch_throws p x none = p.names_device x || p.names_port x
  catch_throws p x (some (fields o)) = p.names_port x
  catch_throws p x (some (items xs)) = false
  catch_throws p x (some (leaf a)) = (p.names_device x && p.is_null_value a) || p.names_port x

  module _ (text_of : A → String) where
    -- The form after a request that succeeded, or `none` for an exception: the device may have a new
    -- name, if the endpoint is that of the device.
    unfoldable pub renamed : Bool → Option (EndpointData A) → Form A E → Option (Form A E)
    renamed false sent f = some f
    renamed true none f = none
    renamed true (some (fields o)) f = elim (get_value str_eq "name" o) [
      | none ↦ some f
      | some v ↦ some (record f { new_device_name = some (text_of v) })
    ]
    renamed true (some (items xs)) f = some f
    renamed true (some (leaf a)) f = none

    -- What follows the answer, and whether the promise is fulfilled. Where the function that catches
    -- an error throws, no error reaches the field.
    unfoldable pub settled :
        ErrorParams A E
        → Endpoint
        → Option (EndpointData A)
        → Answer A E
        → Form A E
        → Bool × Form A E
    unfolding renamed get_name set_status catch_throws
    settled errors e sent (fails x) f =
        if catch_throws errors x sent
        then (false, f)
        else (false, record f { status = set_status (get_name e) (failed x) f.status })
    settled errors e sent (answers d) f = elim (renamed e.is_device sent f) [
      | none ↦ (false, f)
      | some g ↦ (true, record g { status = set_status (get_name e) applied g.status })
    ]

  module _ (filter_object : (String → A → Bool) → List (String × A) → List (String × A))
      (text_of : A → String) (errors : ErrorParams A E) (auth : Auth)
      (turn : Endpoint → Turn A E) where
    -- `performRestoreOnEndpoint`: the request, and whether the promise is fulfilled.
    unfoldable pub perform_restore_on_endpoint :
        Endpoint
        → List (String × EndpointData A)
        → Form A E × Api
        → Request (EndpointData A) × (Bool × (Form A E × Api))
    unfolding get_name prepare_restore_data device_is_slave get_device_name set_slave_name api_call
        set_status settled
    perform_restore_on_endpoint e content (f, s) =
        let name = get_name e in
        let sent = prepare_restore_data filter_object e content in
        let main = (turn e).main_name in
        let f1 = record f { status = set_status name in_progress f.status } in
        let s1 =
          if device_is_slave main f1
          then set_slave_name main (some (get_device_name f1)) s
          else s in
        let (request, s2) =
          api_call auth
            (record {
              method = e.restore_method;
              path = e.path;
              query = [];
              body = sent;
              timeout = some 300000;
            })
            s1 in
        let (done, f2) = settled text_of errors e sent (turn e).answer f1 in
        (request, (done, (f2, s2)))

    -- The chain of promises, and whether it is fulfilled.
    unfoldable pub restore_all :
        List Endpoint
        → List (String × EndpointData A)
        → Form A E × Api
        → List (Act A) × (Bool × (Form A E × Api))
    unfolding perform_restore_on_endpoint cancel_restore chain
    restore_all [] content (f, s) = ([], (true, (f, s)))
    restore_all (e ∷ es) content (f, s) =
        let f1 = if (turn e).is_closed then cancel_restore f else f in
        let one = perform_restore_on_endpoint e content (f1, s) in
        let rest = restore_all es content one.1.1 in
        let idle = restore_all es content (f1, s) in if f1.running then chain one rest else idle

    -- `applyData`, with the content of the file that was read.
    unfoldable pub apply_data :
        (String → Bool)
        → Bool
        → List (String × EndpointData A)
        → Form A E × Api
        → List (Act A) × (Form A E × Api)
    unfolding selected restore_all skip_rest get_device_name
    apply_data is_checked reboot_after content (f, s) =
        let (acts, (done, (f1, s1))) =
          restore_all (selected is_checked f) content (record f { running = true }, s) in
        if done
        then (
          acts
              ++ show_restored ∷ (if reboot_after then do_reboot (get_device_name f1) ∷ [] else []),
          (record f1 { running = false }, s1),
        )
        else (
          acts,
          (
            record f1 {
              running = false;
              status = skip_rest is_checked f1.backup_endpoints f1.status;
            },
            s1,
          ),
        )
