-- ===== src/Cache/Prefs.antt =====
-- The user's preferences in qtoggleserver/frontend/js/cache.js: `getPrefs` and `setPrefs`. A path is
-- the list of keys that `path.split('.')` gives, and no path is the empty list. Other values than
-- objects and null have no properties here. `is_object` is `ObjectUtils.isObject` of the qui
-- package. That the preferences are saved is left out.
pub mod Paths
mod Tests
use qtoggleserver.Base.{
  ◌≡◌, refl, Bool, true, false, Option, none, some, List, [], ◌∷◌, if◌then◌else◌, String,
}
use text.Mathlib.Text.{◌==◌ as str_eq}

mutual
  pub data Value (A : Type 0) : Type 0 where
    null : Value A
    leaf : A → Value A
    object : Fields A → Value A

  pub data Fields (A : Type 0) : Type 0 where
    end : Fields A
    field : String → Value A → Fields A → Fields A

-- `value`, the default (the property is undefined), or a TypeError.
pub data Result (A : Type 0) : Type 0 where
  found : Value A → Result A
  default : Result A
  type_error : Result A

module _ {A : Type 0} where
  unfoldable pub get_field : String → Fields A → Option (Value A)
  get_field k end = none
  get_field k (field l v fs) = let later = get_field k fs in if str_eq l k then some v else later

  unfoldable pub set_field : String → Value A → Fields A → Fields A
  set_field k v end = field k v end
  set_field k v (field l w fs) =
      let later = set_field k v fs in if str_eq l k then field l v fs else field l w later

  -- `getPrefs`, with the loop `getPrefsRec`.
  unfoldable pub get_prefs : List String → Value A → Result A
  get_prefs [] prefs = found prefs
  get_prefs (k ∷ path) null = type_error
  get_prefs (k ∷ path) (leaf a) = default
  get_prefs (k ∷ path) (object fs) = elim (get_field k fs) [
    | none ↦ default
    | some next ↦ get_prefs path next
  ]

  abbrev pub fields_of : Value A → Fields A
  fields_of (object fs) = fs
  fields_of _ = end

  module _ (is_object : Value A → Bool) where
    -- `next`, which is `{}` when there is no object under the key.
    unfoldable pub next_object : String → Fields A → Fields A
    next_object k fs = elim (get_field k fs) [
      | none ↦ end
      | some v ↦ if is_object v then fields_of v else end
    ]

    -- `setPrefsRec`, for the first key and the others.
    unfoldable pub set_prefs_rec : String → List String → Value A → Fields A → Fields A
    set_prefs_rec k [] value fs = set_field k value fs
    set_prefs_rec k (l ∷ path) value fs =
        set_field k (object (set_prefs_rec l path value (next_object k fs))) fs

    -- `setPrefs`; `none` is a TypeError, when the preferences are no object.
    unfoldable pub set_prefs : List String → Value A → Value A → Option (Value A)
    unfolding set_prefs_rec
    set_prefs [] value prefs = some value
    set_prefs (k ∷ path) value (object fs) = some (object (set_prefs_rec k path value fs))
    set_prefs (k ∷ path) value null = none
    set_prefs (k ∷ path) value (leaf a) = none
