-- ===== src/Provisioning/Takeover.antt =====
-- What a start of the provisioning service takes over from the running configuration.
use aetus.Base.{
  ℕ, ◌+◌, ◌≤◌, ◌≡◌, refl, false, none, some, List, [], ◌∷◌, arith, ◌==◌, length, length-replicate,
  set, replicate,
}
use aetus.Types.{Config, bearer}
use aetus.Esp.{ok, OptionAll}
use aetus.CString.{CStr, IsText, c_str, copy_string, string_fits}
use aetus.CString.Copy.{copy_string-whole}
use aetus.Config.Accepted.{IsAcceptable, IsRequired, IsOptional}
use aetus.Provisioning.{zero_pending, pending_config, sync_pending_from_runtime}

-- A string that may be missing, and one that fits.
abbrev pub text_of : CStr → List ℕ
text_of none = []
text_of (some s) = s

abbrev pub FitsIn : CStr → ℕ → Type 0
FitsIn s n = OptionAll (λ t. IsText t × (length t ≤ n)) s

cleared_text : (array : List ℕ) → c_str (set array 0 0) ≡ []
unfolding c_str
cleared_text [] = refl
cleared_text (c ∷ cs) = refl

copied :
    (n : ℕ) (s : CStr)
    → FitsIn s n
    → c_str (copy_string (replicate (n + 1) 0) (n + 1) s) ≡ text_of s
unfolding copy_string string_fits
copied n none fits =
    let nonzero : (n + 1 == 0) ≡ false = ground arith in
    rw nonzero (cleared_text (replicate (n + 1) 0))
copied n (some s) fits =
    copy_string-whole (replicate (n + 1) 0) (n + 1) s (length-replicate (n + 1) 0) fits.0
      (ground (arith, fits.1))

-- The strings of a configuration, as the arrays can hold them; a C string has no zero byte.
pub record HasTexts (config : Config) : Type 0 where
  pub ssid : FitsIn config.wifi_ssid 32
  pub password : FitsIn config.wifi_password 64
  pub identity : FitsIn config.wifi_identity 127
  pub ingest : FitsIn config.ingest_url 159
  pub time : FitsIn config.time_url 159
  pub device : FitsIn config.device_id 63
  pub token : FitsIn config.device_token 127

-- What is pending after a start: each string is there, and the authorization is by token.
abbrev pub taken_over : Config → Config
taken_over config = record config {
  wifi_ssid = some (text_of config.wifi_ssid);
  wifi_password = some (text_of config.wifi_password);
  wifi_identity = some (text_of config.wifi_identity);
  ingest_url = some (text_of config.ingest_url);
  time_url = some (text_of config.time_url);
  device_id = some (text_of config.device_id);
  device_token = some (text_of config.device_token);
  auth_mode = bearer;
}

pub sync-taken_over :
    (config : Config)
    → HasTexts config
    → pending_config (sync_pending_from_runtime (ok config) zero_pending) ≡ taken_over config
unfolding pending_config sync_pending_from_runtime
sync-taken_over config h =
    rw
      (
        copied 32 config.wifi_ssid h.ssid,
        copied 64 config.wifi_password h.password,
        copied 127 config.wifi_identity h.identity,
        copied 159 config.ingest_url h.ingest,
        copied 159 config.time_url h.time,
        copied 63 config.device_id h.device,
        copied 127 config.device_token h.token,
      )
      refl

required : (s : CStr) (n : ℕ) → IsRequired s n → IsRequired (some (text_of s)) n
required none n h = absurd h
required (some s) n h = h

optional : (s : CStr) (n : ℕ) → IsOptional s n → IsOptional (some (text_of s)) n
optional none n h = omega arith
optional (some s) n h = h

pub taken_over-IsAcceptable :
    (config : Config) → IsAcceptable config → IsAcceptable (taken_over config)
taken_over-IsAcceptable config a = record {
  ssid = required config.wifi_ssid _ a.ssid;
  password = required config.wifi_password _ a.password;
  auth = a.auth;
  mode = refl;
  identity = λ e. required config.wifi_identity _ (a.identity e);
  ingest = required config.ingest_url _ a.ingest;
  time = optional config.time_url _ a.time;
  device = required config.device_id _ a.device;
  token = required config.device_token _ a.token;
}
