-- ===== src/Api/Calls/Forward.antt =====
-- Which device a call is made to.
use Prim.Native.String.{◌++◌ as glue}
use qtoggleserver.Base.{◌≡◌, refl, ap, false, none, some, List, [], ◌∷◌, map, String}
use text.Mathlib.Text.{◌==◌ as str_eq}
use qtoggleserver.Auth.{Auth}
use qtoggleserver.Api.Calls.{Api, Call, set_slave_name, target_path, api_call, api_calls}

module _ {D : Type 0} (auth : Auth) where
  -- Without a slave device that is set, all calls go to the main device.
  to_main :
      (cs : List (Call D)) (s : Api)
      → s.slave_name ≡ none
      → map (λ r. r.path) ((api_calls auth cs s).0) ≡ map (λ c. glue s.api_url_prefix c.path) cs
  unfolding api_calls api_call target_path
  to_main [] s e = refl
  to_main (c ∷ cs) s e = rw e (
      ap (λ ps. glue s.api_url_prefix c.path ∷ ps)
        (to_main cs (record s { slave_name = none }) refl))

  -- After the name of a slave device is set, the next call is forwarded to that device, and all
  -- calls after it go to the main device.
  pub forwards_once :
      (main name : String) (c : Call D) (cs : List (Call D)) (s : Api)
      → str_eq name main ≡ false
      → str_eq name "" ≡ false
      → map (λ r. r.path) ((api_calls auth (c ∷ cs) (set_slave_name main (some name) s)).0)
        ≡ glue s.api_url_prefix (glue "/devices/" (glue name (glue "/forward" c.path)))
          ∷ map (λ d. glue s.api_url_prefix d.path) cs
  unfolding api_calls api_call target_path set_slave_name
  forwards_once main name c cs s m n =
      rw (m, n)
        (ap
          (λ ps. glue s.api_url_prefix (glue "/devices/" (glue name (glue "/forward" c.path))) ∷ ps)
          (to_main cs (record s { slave_name = none }) refl))
