-- ===== src/Device/Provisioning.antt =====
-- qtoggleserver/frontend/js/api/provisioning.js without the requests for configurations: endpoints
-- for backups. `A` stands for JSON values below the first level. The functions `filter_object` and
-- `sort_key` are `ObjectUtils.filter` and `ArrayUtils.sortKey` of the qui package.
use qtoggleserver.Base.{
  ℕ, Bool, true, false, not, ◌||◌, Option, none, some, List, [], ◌∷◌, ◌++◌, map, if◌then◌else◌,
  String, get_value, ◌==◌,
}
use Prim.Native.Char.{Char, char, code}
use Prim.Native.String.{[] as empty, ◌∷◌ as ◌then◌}
use text.Mathlib.Text.{◌==◌ as str_eq, starts_with}
use qtoggleserver.Api.Calls.{Api, Call, set_slave_name}
use qtoggleserver.Utils.Names.{is_plain}

-- What an endpoint sends and takes: an object, an array, or another value.
pub data EndpointData (A : Type 0) : Type 0 where
  fields : List (String × A) → EndpointData A
  items : List A → EndpointData A
  leaf : A → EndpointData A

-- `BackupEndpoint`; `is_device` tells that it is one of the two constants for the device, and
-- `is_excluded` is `excludeFields` as a function.
pub record Endpoint : Type 0 where
  pub path : String
  pub display_name : String
  pub order : ℕ
  pub backup_method : String
  pub restore_method : String
  pub is_excluded : String → Bool
  pub is_device : Bool

abbrev underscore : Char
underscore = char b'_' tt

abbrev is_underscore : Char → Bool
is_underscore c = code c == b'_'

-- The three calls of `replace` in `getName`.
unfoldable pub replace_signs : String → String
unfolding is_plain
replace_signs empty = empty
replace_signs (c then s) = (if is_plain (code c) then c else underscore) then replace_signs s

unfoldable pub without_first : String → String
without_first empty = empty
without_first (c then s) = if is_underscore c then s else c then s

unfoldable pub without_last : String → String
without_last empty = empty
without_last (c then empty) = if is_underscore c then empty else c then empty
without_last (c then d then s) = c then without_last (d then s)

unfoldable pub get_name : Endpoint → String
unfolding replace_signs without_first without_last
get_name e = without_last (without_first (replace_signs e.path))

abbrev includes : String → List String → Bool
includes k [] = false
includes k (l ∷ ls) = str_eq l k || includes k ls

abbrev nothing : String → Bool
nothing k = false

abbrev pub device_backup_endpoint : Endpoint
device_backup_endpoint = record {
  path = "/device";
  display_name = "Device";
  order = 10;
  backup_method = "GET";
  restore_method = "PUT";
  is_excluded = λ f. starts_with f "wifi_" || starts_with f "ip_";
  is_device = true;
}

abbrev pub device_patch_backup_endpoint : Endpoint
device_patch_backup_endpoint = record {
  path = "/device";
  display_name = "Device";
  order = 10;
  backup_method = "GET";
  restore_method = "PATCH";
  is_excluded = nothing;
  is_device = true;
}

-- An endpoint with the defaults of the constructor.
abbrev endpoint : String → String → ℕ → Endpoint
endpoint path display_name order = record {
  path = path;
  display_name = display_name;
  order = order;
  backup_method = "GET";
  restore_method = "PUT";
  is_excluded = nothing;
  is_device = false;
}

abbrev pub ports_backup_endpoint : Endpoint
ports_backup_endpoint = endpoint "/ports" "Ports" 20

abbrev pub webhooks_backup_endpoint : Endpoint
webhooks_backup_endpoint = endpoint "/webhooks" "Webhooks" 30

abbrev pub reverse_backup_endpoint : Endpoint
reverse_backup_endpoint = endpoint "/reverse" "Reverse API Calls" 40

abbrev pub slaves_backup_endpoint : Endpoint
slaves_backup_endpoint = endpoint "/devices" "Slave Devices" 15

-- An endpoint that the server tells of.
pub record Extra : Type 0 where
  pub path : String
  pub display_name : String
  pub order : ℕ
  pub restore_method : Option String

abbrev pub extra_endpoint : Extra → Endpoint
extra_endpoint x = record (endpoint x.path x.display_name x.order) {
  restore_method = elim x.restore_method [ none ↦ "PUT" | some m ↦ m ];
}

abbrev with_flag : String → Endpoint → List String → List Endpoint
with_flag flag e flags = if includes flag flags then e ∷ [] else []

-- `getBackupEndpoints`: the call of the server, if there is one, the slave device of the next call,
-- and the endpoints, for what the server answers.
unfoldable pub get_backup_endpoints :
    {D : Type 0}
    → (List Endpoint → List Endpoint)
    → String
    → List String
    → Api
    → Option (Call D) × (Api × (List Extra → List Endpoint))
unfolding set_slave_name
get_backup_endpoints sort_key main flags s =
    if not (includes "backup" flags)
    then (
      none,
      (
        set_slave_name main none s,
        λ answer. sort_key (
            device_patch_backup_endpoint
            ∷ (with_flag "webhooks" webhooks_backup_endpoint flags
                ++ with_flag "reverse" reverse_backup_endpoint flags)),
      ),
    )
    else (
      some (record {
        method = "GET";
        path = "/backup/endpoints";
        query = [];
        body = none;
        timeout = none;
      }),
      (
        s,
        λ answer. sort_key (
            device_backup_endpoint
            ∷ ports_backup_endpoint
            ∷ (with_flag "webhooks" webhooks_backup_endpoint flags
                ++ (with_flag "reverse" reverse_backup_endpoint flags
                    ++ (with_flag "master" slaves_backup_endpoint flags
                        ++ map extra_endpoint answer)))),
      ),
    )

module _ {A : Type 0}
    (filter_object : (String → A → Bool) → List (String × A) → List (String × A)) where
  -- `_filterEndpointData`
  unfoldable pub filter_endpoint_data : Endpoint → EndpointData A → EndpointData A
  filter_endpoint_data e (fields o) = fields (filter_object (λ k v. not (e.is_excluded k)) o)
  filter_endpoint_data e (items xs) = items xs
  filter_endpoint_data e (leaf a) = leaf a

  unfoldable pub prepare_backup_data : Endpoint → EndpointData A → EndpointData A
  unfolding filter_endpoint_data
  prepare_backup_data e d = filter_endpoint_data e d

  -- The data of an endpoint in a backup, if there are some.
  unfoldable pub prepare_restore_data :
      Endpoint → List (String × EndpointData A) → Option (EndpointData A)
  unfolding filter_endpoint_data get_name
  prepare_restore_data e backup = elim (get_value str_eq (get_name e) backup) [
    | none ↦ none
    | some d ↦ some (filter_endpoint_data e d)
  ]
