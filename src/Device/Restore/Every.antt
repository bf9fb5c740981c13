-- ===== src/Device/Restore/Every.antt =====
-- Where every endpoint stands when a backup was restored.
use qtoggleserver.Base.{
  ◌≡◌, refl, sym, ◌∙◌, ap, Bool, true, false, List, [], ◌∷◌, map, All, All-map, All-map₂,
  if◌then◌else◌, String, inl, inr, Bool-cases, if_either, filter,
}
use mathlib.Core.Path.{ap₂}
use text.Mathlib.Text.{◌==◌ as str_eq}
use qtoggleserver.Cache.Lookup.{apart_sym, text_refl}
use qtoggleserver.Auth.{Auth}
use qtoggleserver.Api.Calls.{Api}
use qtoggleserver.Device.Provisioning.{EndpointData, Endpoint, get_name, prepare_restore_data}
use qtoggleserver.Device.Operation.{Status, applied, skipped, Turn, is_open, skip_rest}
use qtoggleserver.Device.Operation.Skip.{has, Named, skip_rest-closed, skip_rest-skipped}
use qtoggleserver.Device.Restore.{
  ErrorParams, Form, restore_all, apply_data, selected, perform_restore_on_endpoint,
}
use qtoggleserver.Device.Restore.Fate.{Ends, Follows, fate_cases, fate, performed, step, verdict}

All-always : {A : Type 0} {P : A → Type 0} (xs : List A) → ((x : A) → P x) → All P xs
All-always [] p = tt
All-always (x ∷ xs) p = (p x, All-always xs p)

map_all :
    {A B : Type 0} (g : A → B) (b : B) (xs : List A)
    → All (λ x. g x ≡ b) xs
    → map g xs ≡ map (λ x. b) xs
map_all g b [] h = refl
map_all g b (x ∷ xs) h = ap₂ (λ y ys. y ∷ ys) h.0 (map_all g b xs h.1)

applied-closed : (E : Type 0) → is_open {E = E} applied ≡ false
unfolding is_open
applied-closed E = refl

module _ {X : Type 0} where
  All-filter : (p : X → Bool) (xs : List X) → All (λ x. p x ≡ true) (filter p xs)
  All-filter p [] = tt
  All-filter p (x ∷ xs) = elim (Bool-cases (p x)) [
    | inl h ↦ rw h (h, All-filter p xs)
    | inr h ↦ rw h (All-filter p xs)
  ]

  All-kept : (P : X → Type 0) (p : X → Bool) (xs : List X) → All P xs → All P (filter p xs)
  All-kept P p [] h = tt
  All-kept P p (x ∷ xs) h =
      if_either (All P) (p x) _ _ (h.0, All-kept P p xs h.1) (All-kept P p xs h.1)

module _ {A E : Type 0}
    (filter_object : (String → A → Bool) → List (String × A) → List (String × A))
    (text_of : A → String) (errors : ErrorParams A E) (auth : Auth) (turn : Endpoint → Turn A E)
    (content : List (String × EndpointData A))
    (stays : (e : Endpoint) → (turn e).is_closed ≡ false) where
  untouched :
      (n : String) (es : List Endpoint) (f : Form A E) (s : Api)
      → f.running ≡ true
      → All (λ x. str_eq (get_name x) n ≡ false) es
      → (restore_all filter_object text_of errors auth turn es content (f, s)).1.1.0.status n
        ≡ f.status n
  unfolding restore_all
  untouched n [] f s r o = refl
  untouched n (e ∷ es) f s r o =
      let one =
        perform_restore_on_endpoint filter_object text_of errors auth turn e content (f, s) in
      let (done, (same, status)) = performed filter_object text_of errors auth turn content e f s in
      ap (λ x. x.1.0.status n)
        (step filter_object text_of errors auth turn content e es f s (stays e) r)
      ∙ if_either (λ (x : Bool × (Form A E × Api)). x.1.0.status n ≡ f.status n) one.1.0 _ _
          (untouched n es one.1.1.0 one.1.1.1 (same.runs ∙ r) o.1 ∙ same.others n o.0)
          (same.others n o.0)

  applied_after :
      (e : Endpoint) (es : List Endpoint) (t : Form A E × Api) {x : Status E}
      → t.0.status (get_name e) ≡ x
      → x ≡ applied
      → t.0.running ≡ true
      → All (λ y. str_eq (get_name e) (get_name y) ≡ false) es
      → (restore_all filter_object text_of errors auth turn es content t).1.1.0.status (get_name e)
        ≡ applied
  applied_after e es t v w run o =
      untouched (get_name e) es t.0 t.1 run
        (All-map es (λ y d. apart_sym (get_name e) (get_name y) d) o)
      ∙ v
      ∙ w

  module _ (is_checked : String → Bool) where
    -- The fields when `applyData` is done.
    abbrev finish : Bool × (Form A E × Api) → String → Status E
    finish (done, (g, s)) =
        if done then g.status else skip_rest is_checked g.backup_endpoints g.status

    finish-closed :
        (r : Bool × (Form A E × Api)) (n : String)
        → is_open (r.1.0.status n) ≡ false
        → finish r n ≡ r.1.0.status n
    finish-closed (true, t) n h = refl
    finish-closed (false, t) n h = skip_rest-closed is_checked n t.0.backup_endpoints t.0.status h

    -- An endpoint whose turn is to come.
    record Ready (f : Form A E) (e : Endpoint) : Type 0 where
      waits : is_open (f.status (get_name e)) ≡ true
      checked : is_checked (get_name e) ≡ true
      listed : has (get_name e) f.backup_endpoints ≡ true

    finish-Ends :
        (e : Endpoint) (t : Form A E × Api) (x h : Status E)
        → Ends x h
        → t.0.status (get_name e) ≡ x
        → is_checked (get_name e) ≡ true
        → has (get_name e) t.0.backup_endpoints ≡ true
        → finish (false, t) (get_name e) ≡ h
    finish-Ends e t x h z v c l = elim (z.ends) [
      | inl (o, p) ↦ finish-closed (false, t) (get_name e) (ap is_open v ∙ o) ∙ v ∙ p
      | inr (o, p) ↦
          skip_rest-skipped is_checked (get_name e) t.0.backup_endpoints t.0.status c
            (ap is_open v ∙ o) l
          ∙ sym p
    ]

    still-Ready :
        (e : Endpoint) (es : List Endpoint) (f g : Form A E)
        → Follows e f g
        → All (λ x. str_eq (get_name e) (get_name x) ≡ false) es
        → All (Ready f) es
        → All (Ready g) es
    still-Ready e es f g same o ready =
        All-map₂ es
          (λ x d r. record {
            waits = ap is_open (same.others (get_name x) d) ∙ r.waits;
            checked = r.checked;
            listed = ap (has (get_name x)) same.endpoints ∙ r.listed;
          })
          o ready

    statuses :
        (es : List Endpoint) (f : Form A E) (s : Api)
        → f.running ≡ true
        → Named es
        → All (Ready f) es
        → map
            (λ x.
              finish
                ((restore_all filter_object text_of errors auth turn es content (f, s)).1)
                (get_name x))
            es
          ≡ fate filter_object text_of errors auth turn content es
    unfolding Named fate
    statuses [] f s run named ready = refl
    statuses (e ∷ es) f s run named ready =
        let sent = prepare_restore_data filter_object e content in
        let one =
          perform_restore_on_endpoint filter_object text_of errors auth turn e content (f, s) in
        let t = one.1.1 in
        let rest = restore_all filter_object text_of errors auth turn es content t in
        let (done, (same, v)) = performed filter_object text_of errors auth turn content e f s in
        let later = fate filter_object text_of errors auth turn content es in
        let stepped = step filter_object text_of errors auth turn content e es f s (stays e) run in
        let kept = still-Ready e es f t.0 same named.0 ready.1 in
        let fields = λ (r : Bool × (Form A E × Api)). map (λ x. finish r (get_name x)) (e ∷ es) in
        elim (fate_cases errors e sent (turn e).answer es later) [
          | inl (g, (w, m)) ↦
              let ends_applied = applied_after e es t v w (same.runs ∙ run) named.0 in
              ap fields (stepped ∙ ap (λ b. if b then rest.1 else (false, t)) (done ∙ g))
              ∙ ap₂ (λ y ys. y ∷ ys)
                  (finish-closed rest.1 (get_name e) (ap is_open ends_applied ∙ applied-closed E)
                    ∙ ends_applied)
                  (statuses es t.0 t.1 (same.runs ∙ run) named.1 kept)
              ∙ sym m
          | inr (g, (h, (z, m))) ↦
              ap fields (stepped ∙ ap (λ b. if b then rest.1 else (false, t)) (done ∙ g))
              ∙ ap₂ (λ y ys. y ∷ ys)
                  (finish-Ends e t (verdict errors e sent (turn e).answer) h z v ready.0.checked
                    (ap (has (get_name e)) same.endpoints ∙ ready.0.listed))
                  (map_all (λ x. finish (false, t) (get_name x)) skipped es
                    (All-map es
                      (λ x r.
                        skip_rest-skipped is_checked (get_name x) t.0.backup_endpoints t.0.status
                          r.checked r.waits r.listed)
                      kept))
              ∙ sym m
        ]

    listed_among : (es : List Endpoint) → All (λ e. has (get_name e) es ≡ true) es
    unfolding has
    listed_among [] = tt
    listed_among (e ∷ es) = (
      rw (text_refl (get_name e)) refl,
      All-map es
          (λ x h.
            if_either (λ b. b ≡ true) (str_eq (get_name e) (get_name x)) true (has (get_name x) es)
              refl h)
          (listed_among es),
    )

    all-Ready :
        (f : Form A E)
        → ((n : String) → is_open (f.status n) ≡ true)
        → All (Ready (record f { running = true })) (selected is_checked f)
    unfolding selected
    all-Ready f waits =
        let listed =
          All-kept _ (λ e. is_checked (get_name e)) _
            (All-kept (λ e. has (get_name e) f.backup_endpoints ≡ true) _ f.backup_endpoints
              (listed_among f.backup_endpoints)) in
        All-map₂ (selected is_checked f)
          (λ e c l. record { waits = waits (get_name e); checked = c; listed = l })
          (All-filter (λ e. is_checked (get_name e)) _) listed

    status-if :
        {X : Type 0} (b : Bool) (x y : X × (Form A E × Api))
        → (if b then x else y).1.0.status ≡ (if b then x.1.0.status else y.1.0.status)
    status-if true x y = refl
    status-if false x y = refl

    -- When a backup is restored while the form stays open, no two of the endpoints that are restored
    -- having one name and no field being marked before: if all requests succeed, all fields are
    -- marked as applied. If one fails, the fields before it are marked as applied, its field has the
    -- error, and those after it are marked as skipped. If the data of the endpoint are not what the
    -- code expects there, so that it throws (for a device that was restored no object, for an error
    -- that names a port no array, for one that names a device none), its field and those after it
    -- are marked as skipped.
    pub restore_fates :
        (f : Form A E) (s : Api) (reboot_after : Bool)
        → ((n : String) → is_open (f.status n) ≡ true)
        → Named (selected is_checked f)
        → let (acts, (g, u)) =
            apply_data filter_object text_of errors auth turn is_checked reboot_after content
              (f, s) in
          map (λ e. g.status (get_name e)) (selected is_checked f)
          ≡ fate filter_object text_of errors auth turn content (selected is_checked f)
    unfolding apply_data
    restore_fates f s reboot_after waits named =
        let es = selected is_checked f in
        let r =
          restore_all filter_object text_of errors auth turn es content
            (record f { running = true }, s) in
        ap (λ (h : String → Status E). map (λ e. h (get_name e)) es) (status-if r.1.0 _ _)
        ∙ statuses es (record f { running = true }) s refl named (all-Ready f waits)
