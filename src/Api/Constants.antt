-- ===== src/Api/Constants.antt =====
-- The known API errors of qtoggleserver/frontend/js/api/constants.js, in their order. `gettext` and
-- `format_percent`, which is `StringUtils.formatPercent` without values, are of the qui package.
use qtoggleserver.Base.{ℕ, Option, none, some, List, [], ◌∷◌, ◌++◌, String}

-- An error without `fields` has none that must be there.
pub record KnownError : Type 0 where
  pub status : Option ℕ
  pub code : String
  pub fields : List String
  pub pretty : String

abbrev known : Option ℕ → String → List String → String → KnownError
known status code fields pretty = record {
  status = status;
  code = code;
  fields = fields;
  pretty = pretty;
}

module _ (gettext : String → String) (format_percent : String → String) where
  abbrev errors_400 : List KnownError
  errors_400 =
      known (some 400) "malformed-request" [] (gettext "Communication error (%(error)s).")
      ∷ known (some 400) "malformed-body" [] (gettext "Communication error (%(error)s).")
      ∷ known (some 400) "invalid-request" ("details" ∷ [])
          (gettext "Invalid request: %(details)s.")
      ∷ known (some 400) "invalid-request" [] (gettext "Invalid request.")
      ∷ known (some 400) "missing-field" [] (gettext "Missing field: %(field)s.")
      ∷ known (some 400) "missing-header" [] (gettext "Missing header: %(header)s.")
      ∷ known (some 400) "attribute-not-modifiable" []
          (gettext "Attribute \"%(attribute)s\" is not modifiable.")
      ∷ known (some 400) "no-such-attribute" [] (gettext "No such attribute \"%(attribute)s\".")
      ∷ known (some 400) "invalid-field" [] (gettext "Invalid value for \"%(field)s\".")
      ∷ known (some 400) "invalid-header" [] (gettext "Invalid value for \"%(header)s\".")
      ∷ known (some 400) "invalid-value" [] (gettext "Invalid port value.")
      ∷ known (some 400) "duplicate-port" [] (gettext "The port already exists.")
      ∷ known (some 400) "too-many-ports" []
          (gettext "The maximum number of ports has been reached.")
      ∷ known (some 400) "port-not-removable" []
          (gettext "Ports that are not virtual cannot be removed.")
      ∷ known (some 400) "port-disabled" []
          (gettext "Requested operation needs the port to be enabled.")
      ∷ known (some 400) "read-only-port" []
          (gettext "Requested operation needs the port to be writable.")
      ∷ known (some 400) "duplicate-peripheral" []
          (gettext "An identical peripheral already exists.")
      ∷ known (some 400) "forbidden" [] (gettext "The supplied credentials are incorrect.")
      ∷ known (some 400) "duplicate-device" []
          (gettext "The device has already been added to master.")
      ∷ known (some 400) "no-listen-support" [] (gettext "The device does not support listening.")
      ∷ known (some 400) "listening-and-polling" []
          (gettext "Listening and polling cannot be both enabled.")
      ∷ []

  abbrev other_errors : List KnownError
  other_errors =
      known (some 401) "authentication-required" [] (gettext "Credentials are required.")
      ∷ known (some 403) "forbidden" [] (gettext "The supplied credentials are incorrect.")
      ∷ known (some 404) "no-such-port" [] (gettext "Requested port does not exist.")
      ∷ known (some 404) "no-such-function" []
          (gettext "Device doesn't expose the qToggle API at given URL.")
      ∷ known (some 404) "no-such-version" [] (gettext "Firmware version not available.")
      ∷ known (some 404) "no-such-device" [] (gettext "Requested device does not exist.")
      ∷ known (some 404) "no-such-driver" [] (gettext "Requested driver does not exist.")
      ∷ known (some 404) "device-disabled" [] (gettext "Requested device is disabled.")
      ∷ known (some 502) "port-error" [] (gettext "Port communication error: %(message)s.")
      ∷ known (some 502) "invalid-device" [] (gettext "The device is not a qToggle device.")
      ∷ known (some 502) "connection-refused" [] (gettext "Device refuses the connection.")
      ∷ known (some 502) "unreachable" [] (gettext "Device is unreachable.")
      ∷ known (some 503) "busy" [] (gettext "Device is busy.")
      ∷ known (some 503) "device-offline" [] (gettext "Device is offline.")
      ∷ known (some 504) "port-timeout" [] (gettext "Timeout while communicating with the port.")
      ∷ known (some 504) "device-timeout" []
          (gettext "Timeout waiting for a response from the device.")
      ∷ known (some 504) "value-timeout" [] (gettext "Timeout waiting for value to take effect.")
      ∷ known none "timeout" [] (gettext "Timeout waiting for a response from the device.")
      ∷ known none "other-error" []
          (format_percent (gettext "Error communicating with device (%(message)s)."))
      ∷ known none "unexpected-error" [] (format_percent (gettext "Unexpected error: %(message)s."))
      ∷ []

  -- `KNOWN_ERRORS`
  abbrev pub known_errors : List KnownError
  known_errors = errors_400 ++ other_errors
