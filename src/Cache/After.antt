-- ===== src/Cache/After.antt =====
-- What a sequence of events about slave devices makes of the device of a given name.

use qtoggleserver.Base.{
  ◌≡◌, refl, ◌∙◌, Bool, true, false, Option, none, some, List, if◌then◌else◌, String, get_value,
  inl, inr, Bool-cases, Option-cases,
}
use text.Mathlib.Text.{◌==◌ as str_eq}
use qtoggleserver.Cache.{
  DeviceEvent, slave_device_update, slave_device_add, slave_device_remove, is_in, update_devices,
}
use qtoggleserver.Cache.Runs.{at_same}
use qtoggleserver.Cache.Lookup.{get-set_device, get-delete_device}

module _ {D : Type 0} where
  is_in-absent :
      (k : String) (o : List (String × D)) → get_value str_eq k o ≡ none → is_in k o ≡ false
  unfolding is_in
  is_in-absent k o e = rw (e, is_in) refl

  is_in-present :
      (k : String) (d : D) (o : List (String × D))
      → get_value str_eq k o ≡ some d
      → is_in k o ≡ true
  unfolding is_in
  is_in-present k d o e = rw (e, is_in) refl

  abbrev pub is_some : Option D → Bool
  is_some none = false
  is_some (some d) = true

  pub is_in-some : (k : String) (o : List (String × D)) → is_in k o ≡ is_some (get_value str_eq k o)
  unfolding is_in
  is_in-some k o = elim (Option-cases (get_value str_eq k o)) [
    | inl (v, e) ↦ rw (e, is_in) refl
    | inr e ↦ rw (e, is_in) refl
  ]

  module _ (name : D → String) where
    -- What an event makes of the device called `k`.
    unfoldable pub after : String → DeviceEvent D → Option D → Option D
    after k (slave_device_update d) v =
        if str_eq (name d) k then elim v [ none ↦ none | some o ↦ some d ] else v
    after k (slave_device_add d) v = if str_eq (name d) k then some d else v
    after k (slave_device_remove n) v = if str_eq n k then none else v

    pub get-update_devices :
        (k : String) (e : DeviceEvent D) (o : List (String × D))
        → get_value str_eq k (update_devices name e o) ≡ after k e (get_value str_eq k o)
    unfolding update_devices after
    get-update_devices k (slave_device_update d) o =
        elim (Option-cases (get_value str_eq (name d) o)) [
          | inl (v, e) ↦
              let i = is_in-present (name d) v o e in
              elim (Bool-cases (str_eq (name d) k)) [
                | inl h ↦
                    rw (i, update_devices)
                      (get-set_device k (name d) d o
                        ∙ rw (h, at_same (name d) k (some v) o h e) refl)
                | inr h ↦ rw (i, update_devices) (get-set_device k (name d) d o ∙ rw h refl)
              ]
          | inr e ↦
              let i = is_in-absent (name d) o e in
              elim (Bool-cases (str_eq (name d) k)) [
                | inl h ↦ rw (i, update_devices) rw h rw (at_same (name d) k none o h e) refl
                | inr h ↦ rw (i, update_devices) rw h refl
              ]
        ]
    get-update_devices k (slave_device_add d) o = get-set_device k (name d) d o
    get-update_devices k (slave_device_remove n) o = elim (Option-cases (get_value str_eq n o)) [
      | inl (v, e) ↦ rw (is_in-present n v o e, update_devices) (get-delete_device k n o)
      | inr e ↦
          let i = is_in-absent n o e in
          elim (Bool-cases (str_eq n k)) [
            | inl h ↦ rw (i, update_devices) rw h (at_same n k none o h e)
            | inr h ↦ rw (i, update_devices) rw h refl
          ]
    ]
