-- ===== src/Device/Backup/Again.antt =====
-- A backup has what a restore takes.
use qtoggleserver.Base.{
  ◌≡◌, refl, sym, ◌∙◌, ap, Bool, true, false, not, Option, none, some, List, [], ◌∷◌, ◌++◌, map,
  All, All-map, filter, if◌then◌else◌, String, get_value, when_true, Bool-cases, inl, inr,
}
use mathlib.Core.Path.{ap₂}
use text.Mathlib.Text.{◌==◌ as str_eq}
use qtoggleserver.Notifications.Expected.Settle.{Filters}
use qtoggleserver.Cache.{set_device}
use qtoggleserver.Cache.Lookup.{apart_sym, get-set_device, text_refl}
use qtoggleserver.Auth.{Auth}
use qtoggleserver.Api.Calls.{Api, Request}
use qtoggleserver.Device.Provisioning.{
  EndpointData, fields, items, leaf, Endpoint, get_name, filter_endpoint_data, prepare_backup_data,
  prepare_restore_data,
}
use qtoggleserver.Device.Operation.{Turn, Answer, answers, set_status, in_progress}
use qtoggleserver.Device.Operation.Skip.{Named}
use qtoggleserver.Device.Backup.{
  Form, BackupData, Act, send, download, selected, settled, backup_request, backup_all, apply_data,
  cancel_backup,
}

module _ {A : Type 0} where
  -- The data of the file that is downloaded.
  unfoldable pub downloaded : List (Act A) → Option (BackupData A)
  downloaded [] = none
  downloaded (send r ∷ rest) = downloaded rest
  downloaded (download n b ∷ rest) = some b

  downloaded-append :
      (requests : List (Request (EndpointData A))) (rest : List (Act A))
      → downloaded (map send requests ++ rest) ≡ downloaded rest
  unfolding downloaded
  downloaded-append [] rest = refl
  downloaded-append (r ∷ requests) rest = downloaded-append requests rest

  -- What a restore takes for an endpoint from the file.
  unfoldable pub restored :
      ((String → A → Bool) → List (String × A) → List (String × A))
      → Endpoint
      → Option (BackupData A)
      → Option (EndpointData A)
  restored filter_object e none = none
  restored filter_object e (some b) = prepare_restore_data filter_object e b

  -- What was sent, without the fields that the endpoint excludes.
  unfoldable pub less_excluded : Endpoint → EndpointData A → EndpointData A
  less_excluded e (fields o) = fields (filter (λ x. not (e.is_excluded x.0)) o)
  less_excluded e (items xs) = items xs
  less_excluded e (leaf a) = leaf a

  module _ (filter_object : (String → A → Bool) → List (String × A) → List (String × A))
      (filters : Filters filter_object) (data_of : Endpoint → EndpointData A) where
    filter_again :
        (p : String × A → Bool) (o : List (String × A)) → filter p (filter p o) ≡ filter p o
    filter_again p [] = refl
    filter_again p (x ∷ o) = elim (Bool-cases (p x)) [
      | inl h ↦ rw h rw h (ap (λ l. x ∷ l) (filter_again p o))
      | inr h ↦ rw h (filter_again p o)
    ]

    again :
        (e : Endpoint) (d : EndpointData A)
        → filter_endpoint_data filter_object e (filter_endpoint_data filter_object e d)
          ≡ filter_endpoint_data filter_object e d
    unfolding filter_endpoint_data
    again e (fields o) =
        let keep = λ (k : String) (v : A). not (e.is_excluded k) in
        ap fields (
          filters.kept keep (filter_object keep o)
          ∙ ap (filter (λ x. keep x.0 x.1)) (filters.kept keep o)
          ∙ filter_again (λ x. keep x.0 x.1) o
          ∙ sym (filters.kept keep o))
    again e (items xs) = refl
    again e (leaf a) = refl

    prepared :
        (e : Endpoint) (d : EndpointData A)
        → prepare_backup_data filter_object e d ≡ less_excluded e d
    unfolding prepare_backup_data filter_endpoint_data less_excluded
    prepared e (fields o) = ap fields (filters.kept (λ k v. not (e.is_excluded k)) o)
    prepared e (items xs) = refl
    prepared e (leaf a) = refl

    all-prepared :
        (es : List Endpoint)
        → map (λ e. some (prepare_backup_data filter_object e (data_of e))) es
          ≡ map (λ e. some (less_excluded e (data_of e))) es
    all-prepared [] = refl
    all-prepared (e ∷ es) = ap₂ (λ y ys. some y ∷ ys) (prepared e (data_of e)) (all-prepared es)

    -- The data of a backup of some endpoints.
    collect : List Endpoint → BackupData A → BackupData A
    collect [] b = b
    collect (e ∷ es) b =
        collect es (set_device (get_name e) (prepare_backup_data filter_object e (data_of e)) b)

    get-collect_other :
        (n : String) (es : List Endpoint) (b : BackupData A)
        → All (λ x. str_eq (get_name x) n ≡ false) es
        → get_value str_eq n (collect es b) ≡ get_value str_eq n b
    unfolding collect
    get-collect_other n [] b o = refl
    get-collect_other n (e ∷ es) b o =
        let d = prepare_backup_data filter_object e (data_of e) in
        get-collect_other n es (set_device (get_name e) d b) o.1
        ∙ get-set_device n (get_name e) d b
        ∙ ap (λ c. if c then some d else get_value str_eq n b) o.0

    taken :
        (e : Endpoint) (backup : BackupData A)
        → get_value str_eq (get_name e) backup
          ≡ some (prepare_backup_data filter_object e (data_of e))
        → prepare_restore_data filter_object e backup
          ≡ some (prepare_backup_data filter_object e (data_of e))
    unfolding prepare_restore_data prepare_backup_data
    taken e backup h = rw (h, prepare_restore_data) (ap some (again e (data_of e)))

    collected :
        (es : List Endpoint) (b : BackupData A)
        → Named es
        → map (λ e. prepare_restore_data filter_object e (collect es b)) es
          ≡ map (λ e. some (prepare_backup_data filter_object e (data_of e))) es
    unfolding Named collect
    collected [] b named = refl
    collected (e ∷ es) b named =
        let n = get_name e in
        let d = prepare_backup_data filter_object e (data_of e) in
        ap₂ (λ y ys. y ∷ ys)
          (taken e (collect es (set_device n d b)) (
            get-collect_other n es (set_device n d b)
              (All-map es (λ x o. apart_sym n (get_name x) o) named.0)
            ∙ get-set_device n n d b
            ∙ ap (λ c. if c then some d else get_value str_eq n b) (text_refl n)))
          (collected es (set_device n d b) named.1)

    module _ {E : Type 0} (auth : Auth) (turn : Endpoint → Turn A E)
        (stays : (e : Endpoint) → (turn e).is_closed ≡ false)
        (answered : (e : Endpoint) → (turn e).answer ≡ answers (data_of e)) where
      step :
          (e : Endpoint) (es : List Endpoint) (f : Form E) (b : BackupData A) (s : Api)
          → f.running ≡ true
          → let n = get_name e in
            let g : Form E = record f { status = set_status n in_progress f.status } in
            (backup_all filter_object auth turn (e ∷ es) ((f, b), s)).1
            ≡ (backup_all filter_object auth turn es (
              (settled filter_object e (answers (data_of e)) (g, b)).1,
              (backup_request filter_object auth turn e (g, s)).1,
            )).1
      unfolding backup_all
      step e es f b s run =
          let n = get_name e in
          let closed = λ (c : Bool). if c then cancel_backup f else f in
          let marked = λ (g : Form E). record g { status = set_status n in_progress g.status } in
          let one = λ (g : Form E). backup_request filter_object auth turn e (marked g, s) in
          let after = λ (g : Form E) (a : Answer A E). settled filter_object e a (marked g, b) in
          let rest = λ (g : Form E) (a : Answer A E).
            backup_all filter_object auth turn es ((after g a).1, (one g).1) in
          let taken = λ (g : Form E) (a : Answer A E).
            if g.running
            then (if (after g a).0
                then ((one g).0 ∷ (rest g a).0, (rest g a).1)
                else ((one g).0 ∷ [], (false, ((after g a).1, (one g).1))))
            else backup_all filter_object auth turn es ((g, b), s) in
          ap₂ (λ c a. (taken (closed c) a).1) (stays e) (answered e)
          ∙ ap (λ x. x.1)
              (when_true f.running _ (backup_all filter_object auth turn es ((f, b), s)) run)
          ∙ (unfold settled in refl)

      backed_up :
          (es : List Endpoint) (f : Form E) (b : BackupData A) (s : Api)
          → f.running ≡ true
          → let (done, ((g, c), u)) = (backup_all filter_object auth turn es ((f, b), s)).1 in
            (done ≡ true) × (c ≡ collect es b)
      unfolding backup_all collect
      backed_up [] f b s run = (refl, refl)
      backed_up (e ∷ es) f b s run =
          let n = get_name e in
          let g : Form E = record f { status = set_status n in_progress f.status } in
          let one = backup_request filter_object auth turn e (g, s) in
          let t = (settled filter_object e (answers (data_of e)) (g, b)).1 in
          let stepped = step e es f b s run in
          let (done, data_) = backed_up es t.0 t.1 one.1 (unfold settled in run) in
          (
            ap (λ x. x.0) stepped ∙ done,
            ap (λ x. x.1.0.1) stepped ∙ data_ ∙ ap (collect es) (unfold settled in refl),
          )

      -- When the form stays open and all requests of a backup succeed, no two of the endpoints
      -- that are backed up having one name, then a file is downloaded from which a restore takes,
      -- for each of these endpoints, what the device sent, less the fields that are excluded.
      pub backup_restore :
          (is_checked : String → Bool) (f : Form E) (s : Api)
          → Named (selected is_checked f)
          → let file = downloaded ((apply_data filter_object auth turn is_checked (f, s)).0) in
            map (λ e. restored filter_object e file) (selected is_checked f)
            ≡ map (λ e. some (less_excluded e (data_of e))) (selected is_checked f)
      unfolding apply_data restored downloaded
      backup_restore is_checked f s named =
          let es = selected is_checked f in
          let r = backup_all filter_object auth turn es ((record f { running = true }, []), s) in
          let (done, data_) = backed_up es (record f { running = true }) [] s refl in
          ap (λ (x : Option (BackupData A)). map (λ e. restored filter_object e x) es)
            (ap (λ (x : List (Act A) × (Form E × Api)). downloaded x.0) (when_true r.1.0 _ _ done)
              ∙ downloaded-append r.0 _
              ∙ ap some data_)
          ∙ collected es [] named
          ∙ all-prepared es
