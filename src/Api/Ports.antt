-- ===== src/Api/Ports.antt =====
-- The functions of qtoggleserver/frontend/js/api/ports.js that change ports: each makes the client
-- expect an event and builds one call, with the handle of what is expected. `V` stands for values,
-- `A` for the attributes of ports in the cache. `string_value` makes a value of a text, and `rounded`
-- is `Math.round` with `ROUND_VALUE_TEMPLATE`. The functions that only read build one call, and are
-- left out with those for sequences and history.
pub mod Expects
mod Tests
use qtoggleserver.Base.{
  ℕ, ◌+◌, max, Bool, true, false, Option, none, some, List, [], ◌∷◌, ◌++◌, if◌then◌else◌, String,
}
use Prim.Native.String.{◌++◌ as glue}
use text.Mathlib.Text.{◌==◌ as str_eq}
use qtoggleserver.Notifications.Listen.{default_server_timeout}
use qtoggleserver.Notifications.Expected.{Expected, expect_event}
use qtoggleserver.Cache.Ports.{Port}
use qtoggleserver.Api.Calls.{Api, Call}

-- The data of a call.
pub data Body (V : Type 0) : Type 0 where
  object : List (String × V) → Body V
  single : V → Body V

-- A call with `expectedHandle`.
pub record PortCall (V : Type 0) : Type 0 where
  pub call : Call (Body V)
  pub expected_handle : Option ℕ

abbrev pub long_server_timeout : ℕ
long_server_timeout = 60

-- The id of a port on the main device.
unfoldable pub full_id : Api → String → String
full_id s id = elim s.slave_name [
  | none ↦ id
  | some n ↦ if str_eq n "" then id else glue n (glue "." id)
]

module _ {V A : Type 0} where
  -- The value that is sent to a port.
  unfoldable pub sent_value : (A → Bool) → (V → V) → Option (Port A V) → V → V
  sent_value is_number rounded none v = v
  sent_value is_number rounded (some p) v = if is_number p.attrs then rounded v else v

  -- Whether the cache has this value for the port.
  unfoldable pub is_known : (V → V → Bool) → Option (Port A V) → V → Bool
  is_known same none v = false
  is_known same (some p) v = elim p.value [ none ↦ false | some w ↦ same w v ]

module _ {V : Type 0} where
  abbrev pub given : String → Option V → List (String × V)
  given key none = []
  given key (some v) = (key, v) ∷ []

  module _ (string_value : String → V) (s : Api) (now : ℕ) where
    -- `patchPort`
    unfoldable pub patch_port :
        String → List (String × V) → Option ℕ → Expected V → PortCall V × Expected V
    unfolding full_id expect_event
    patch_port id attrs timeout q =
        let (handle, r) =
          expect_event (some "port-update") (some (("id", string_value (full_id s id)) ∷ []))
            timeout now q in
        (
          record {
            call = record {
              method = "PATCH";
              path = glue "/ports/" id;
              query = [];
              body = some (object attrs);
              timeout = some long_server_timeout;
            };
            expected_handle = some handle;
          },
          r,
        )

    -- `postPorts`, with what may be left out as options.
    unfoldable pub post_ports :
        String
        → V
        → Option V
        → Option V
        → Option V
        → Option V
        → Option V
        → Option ℕ
        → Expected V
        → PortCall V × Expected V
    unfolding full_id expect_event
    post_ports id type lowest highest integer step choices timeout q =
        let (handle, r) =
          expect_event (some "port-add") (some (("id", string_value (full_id s id)) ∷ [])) timeout
            now q in
        (
          record {
            call = record {
              method = "POST";
              path = "/ports";
              query = [];
              body = some (
                  object (
                    ("id", string_value id)
                    ∷ ("type", type)
                    ∷ (given "min" lowest
                        ++ (given "max" highest
                            ++ (given "integer" integer
                                ++ (given "step" step ++ given "choices" choices))))));
              timeout = none;
            };
            expected_handle = some handle;
          },
          r,
        )

    -- `deletePort`
    unfoldable pub delete_port : String → Option ℕ → Expected V → PortCall V × Expected V
    unfolding full_id expect_event
    delete_port id timeout q =
        let (handle, r) =
          expect_event (some "port-remove") (some (("id", string_value (full_id s id)) ∷ []))
            timeout now q in
        (
          record {
            call = record {
              method = "DELETE";
              path = glue "/ports/" id;
              query = [];
              body = none;
              timeout = none;
            };
            expected_handle = some handle;
          },
          r,
        )

    module _ {A : Type 0} (same : V → V → Bool) (is_number : A → Bool) (rounded : V → V) where
      -- `patchPortValue`, for the port that the cache has under the id.
      unfoldable pub patch_port_value :
          Option (Port A V)
          → String
          → V
          → Option ℕ
          → Option ℕ
          → Expected V
          → PortCall V × Expected V
      unfolding full_id expect_event sent_value is_known
      patch_port_value port id v confirm timeout q =
          let value = sent_value is_number rounded port v in
          let call : Call (Body V) = record {
            method = "PATCH";
            path = glue "/ports/" (glue id "/value");
            query = elim confirm [ none ↦ [] | some t ↦ ("timeout", t) ∷ [] ];
            body = some (single value);
            timeout = some (elim confirm [
              | none ↦ long_server_timeout
              | some t ↦ max long_server_timeout (t + default_server_timeout)
            ]);
          } in
          let (handle, r) =
            expect_event (some "value-change")
              (some (("id", string_value (full_id s id)) ∷ ("value", value) ∷ [])) timeout now q in
          if is_known same port value
          then (record { call = call; expected_handle = none }, q)
          else (record { call = call; expected_handle = some handle }, r)
