-- ===== src/Provisioning.antt =====
-- The fields of firmware/esp32-aetus/components/aetus/aetus_provisioning.c: the pending
-- configuration, and the reads and writes of its fields over Bluetooth LE. `s_prov` keeps each string
-- in an array of its own, to which the pointers of its `config` lead.
pub mod Access
pub mod Applied
pub mod Begin
pub mod Begun
pub mod Buffers
pub mod Fields
pub mod Link
pub mod Numbers
pub mod Readback
pub mod Served
pub mod Takeover
use aetus.Base.{
  ℕ, ◌-◌, Bool, true, false, not, ◌||◌, Option, none, some, List, [], ◌∷◌, ◌++◌, leb, ◌==◌,
  if◌then◌else◌, length, drop, set, replicate, bytes_eq, codes,
}
use aetus.Types.{Config, WifiAuth, psk, peap, AuthMode, bearer, u32_mod}
use aetus.Esp.{Result, ok, err}
use aetus.CString.{CStr, c_str, copy_string}
use aetus.Decimal.{Reading, strto, print}

pub data Field : Type 0 where
  wifi_ssid wifi_auth wifi_id wifi_password ingest_url time_url device_id device_token : Field
  firmware_version upload_interval_ms queue_depth led_enabled led_gpio apply : Field
  unknown : ℕ → Field

-- The codes of the attribute protocol: 0, and `BLE_ATT_ERR_*`.
pub data AttCode : Type 0 where
  success invalid_value_len unlikely insufficient_res : AttCode
  read_not_permitted write_not_permitted : AttCode

-- `s_prov` without the state of the connection; numbers are 32 bits, the pin as its bits.
pub record Pending : Type 0 where
  pub wifi_ssid : List ℕ
  pub wifi_password : List ℕ
  pub wifi_identity : List ℕ
  pub ingest_url : List ℕ
  pub time_url : List ℕ
  pub device_id : List ℕ
  pub device_token : List ℕ
  pub wifi_auth : WifiAuth
  pub auth_mode : AuthMode
  pub firmware_version : ℕ
  pub upload_interval_ms : ℕ
  pub queue_depth : ℕ
  pub led_enabled : Bool
  pub led_gpio : ℕ

-- What `memset(&s_prov, 0, ...)` makes of it.
abbrev pub zero_pending : Pending
zero_pending = record {
  wifi_ssid = replicate 33 0;
  wifi_password = replicate 65 0;
  wifi_identity = replicate 128 0;
  ingest_url = replicate 160 0;
  time_url = replicate 160 0;
  device_id = replicate 64 0;
  device_token = replicate 128 0;
  wifi_auth = psk;
  auth_mode = bearer;
  firmware_version = 0;
  upload_interval_ms = 0;
  queue_depth = 0;
  led_enabled = false;
  led_gpio = 0;
}

-- `s_prov.config` after `bind_pending_config`: what its pointers lead to.
unfoldable pub pending_config : Pending → Config
pending_config p = record {
  wifi_ssid = some (c_str p.wifi_ssid);
  wifi_password = some (c_str p.wifi_password);
  wifi_auth = p.wifi_auth;
  wifi_identity = some (c_str p.wifi_identity);
  ingest_url = some (c_str p.ingest_url);
  time_url = some (c_str p.time_url);
  device_id = some (c_str p.device_id);
  device_token = some (c_str p.device_token);
  auth_mode = p.auth_mode;
  firmware_version = p.firmware_version;
  upload_interval_ms = p.upload_interval_ms;
  queue_depth = p.queue_depth;
  connected_led_enabled = p.led_enabled;
  connected_led_gpio = p.led_gpio;
}

-- `copy_string_value` is `copy_string` again.
abbrev pub copy_string_value : List ℕ → ℕ → CStr → List ℕ
copy_string_value = copy_string

unfoldable pub sync_pending_from_runtime : Result Config → Pending → Pending
sync_pending_from_runtime (err e) p = p
sync_pending_from_runtime (ok current) p = record p {
  wifi_ssid = copy_string_value p.wifi_ssid 33 current.wifi_ssid;
  wifi_password = copy_string_value p.wifi_password 65 current.wifi_password;
  wifi_identity = copy_string_value p.wifi_identity 128 current.wifi_identity;
  ingest_url = copy_string_value p.ingest_url 160 current.ingest_url;
  time_url = copy_string_value p.time_url 160 current.time_url;
  device_id = copy_string_value p.device_id 64 current.device_id;
  device_token = copy_string_value p.device_token 128 current.device_token;
  wifi_auth = current.wifi_auth;
  firmware_version = current.firmware_version;
  upload_interval_ms = current.upload_interval_ms;
  queue_depth = current.queue_depth;
  led_enabled = current.connected_led_enabled;
  led_gpio = current.connected_led_gpio;
}

-- NimBLE's packet buffers: a copy out of at most some bytes, which fails if there are more, and an
-- append, which fails if there is no room.
pub record Mbufs : Type 0 where
  pub to_flat : List ℕ → ℕ → Option (List ℕ)
  pub append : List ℕ → List ℕ → Option (List ℕ)

-- A trailing `\n` or `\r`.
abbrev pub is_eol : ℕ → Bool
is_eol c = c == 10 || c == 13

abbrev pub keep_unless_empty : ℕ → List ℕ → List ℕ
keep_unless_empty c [] = if is_eol c then [] else c ∷ []
keep_unless_empty c (d ∷ ds) = c ∷ d ∷ ds

-- The bytes without the line ends at their end.
unfoldable pub strip : List ℕ → List ℕ
strip [] = []
strip (c ∷ cs) = keep_unless_empty c (strip cs)

-- A value that is read, or the code of the refusal.
pub data Parsed (A : Type 0) : Type 0 where
  parsed : A → Parsed A
  refused : AttCode → Parsed A

abbrev pub and_parse : {A B : Type 0} → Parsed A → (A → Parsed B) → Parsed B
and_parse (parsed a) f = f a
and_parse (refused code) f = refused code

module _ (mbufs : Mbufs) where
  -- `ble_hs_mbuf_to_flat` and the terminator behind the stripped text; the rest of the array stays.
  abbrev pub write_flat : List ℕ → Option (List ℕ) → AttCode × List ℕ
  write_flat target none = (unlikely, target)
  write_flat target (some bs) = (success, set (bs ++ drop (length bs) target) (length (strip bs)) 0)

  unfoldable pub write_text : List ℕ → List ℕ → ℕ → AttCode × List ℕ
  unfolding strip
  write_text om target target_size =
      if target_size == 0 || leb target_size (length om)
      then (invalid_value_len, target)
      else write_flat target (mbufs.to_flat om (target_size - 1))

  -- The text of a write of at most `size - 1` bytes, in a buffer that was cleared.
  abbrev text_in : AttCode × List ℕ → Parsed (List ℕ)
  text_in (success, buffer) = parsed (c_str buffer)
  text_in (code, buffer) = refused code

  abbrev pub buffer_text : List ℕ → ℕ → Parsed (List ℕ)
  buffer_text om size = text_in (write_text om (replicate size 0) size)

  abbrev is_nil : List ℕ → Bool
  is_nil [] = true
  is_nil (_ ∷ _) = false

  abbrev pub whole_number : Option Reading → Parsed ℕ
  whole_number none = refused invalid_value_len
  whole_number (some r) =
      if r.out_of_range || not (is_nil r.rest) then refused invalid_value_len else parsed r.value

  unfoldable pub read_u32_from_mbuf : List ℕ → Parsed ℕ
  read_u32_from_mbuf om = and_parse (buffer_text om 16) λ text. whole_number (strto u32_mod text)

  unfoldable pub read_bool_from_mbuf : List ℕ → Parsed Bool
  read_bool_from_mbuf om = and_parse (buffer_text om 8) λ text.
      if bytes_eq text (codes "1") || bytes_eq text (codes "true") || bytes_eq text (codes "on")
      then parsed true
      else if bytes_eq text (codes "0")
          || bytes_eq text (codes "false")
          || bytes_eq text (codes "off")
      then parsed false
      else refused invalid_value_len

  unfoldable pub read_auth_from_mbuf : List ℕ → Parsed WifiAuth
  read_auth_from_mbuf om = and_parse (buffer_text om 8) λ text.
      if bytes_eq text (codes "psk") || bytes_eq text (codes "0")
      then parsed psk
      else if bytes_eq text (codes "peap") || bytes_eq text (codes "1")
      then parsed peap
      else refused invalid_value_len

  -- The reply with the text appended.
  abbrev append_result : List ℕ → Option (List ℕ) → AttCode × List ℕ
  append_result om none = (insufficient_res, om)
  append_result om (some om') = (success, om')

  unfoldable pub append_text : List ℕ → List ℕ → AttCode × List ℕ
  append_text om text = append_result om (mbufs.append om text)

  unfoldable pub append_u32 : List ℕ → ℕ → AttCode × List ℕ
  unfolding append_text
  append_u32 om value = append_text om (print value)

  unfoldable pub append_bool : List ℕ → Bool → AttCode × List ℕ
  unfolding append_text
  append_bool om value = append_text om (if value then codes "1" else codes "0")

  abbrev pub auth_text : WifiAuth → List ℕ
  auth_text peap = codes "peap"
  auth_text _ = codes "psk"

  unfoldable pub provisioning_read : Pending → Field → List ℕ → AttCode × List ℕ
  unfolding append_text append_u32 append_bool
  provisioning_read p wifi_ssid om = append_text om (c_str p.wifi_ssid)
  provisioning_read p wifi_auth om = append_text om (auth_text p.wifi_auth)
  provisioning_read p wifi_id om = append_text om (c_str p.wifi_identity)
  provisioning_read p ingest_url om = append_text om (c_str p.ingest_url)
  provisioning_read p time_url om = append_text om (c_str p.time_url)
  provisioning_read p device_id om = append_text om (c_str p.device_id)
  provisioning_read p firmware_version om = append_u32 om p.firmware_version
  provisioning_read p upload_interval_ms om = append_u32 om p.upload_interval_ms
  provisioning_read p queue_depth om = append_u32 om p.queue_depth
  provisioning_read p led_enabled om = append_bool om p.led_enabled
  provisioning_read p led_gpio om = append_u32 om p.led_gpio
  provisioning_read p _ om = (read_not_permitted, om)

  abbrev code_of : {A : Type 0} → Parsed A → AttCode
  code_of (parsed a) = success
  code_of (refused code) = code

  -- `number`, which is 0 before `read_u32_from_mbuf`.
  abbrev number_of : Parsed ℕ → ℕ
  number_of (parsed n) = n
  number_of (refused code) = 0

  -- A value that a refused write leaves.
  abbrev parsed_or : {A : Type 0} → A → Parsed A → A
  parsed_or old (parsed a) = a
  parsed_or old (refused code) = old

  -- The write of any field but `apply`.
  unfoldable pub write_field : Pending → Field → List ℕ → AttCode × Pending
  write_field p wifi_ssid om =
      let w = write_text om p.wifi_ssid 33 in (w.0, record p { wifi_ssid = w.1 })
  write_field p wifi_auth om =
      let r = read_auth_from_mbuf om in
      (code_of r, record p { wifi_auth = parsed_or p.wifi_auth r })
  write_field p wifi_id om =
      let w = write_text om p.wifi_identity 128 in (w.0, record p { wifi_identity = w.1 })
  write_field p wifi_password om =
      let w = write_text om p.wifi_password 65 in (w.0, record p { wifi_password = w.1 })
  write_field p ingest_url om =
      let w = write_text om p.ingest_url 160 in (w.0, record p { ingest_url = w.1 })
  write_field p time_url om =
      let w = write_text om p.time_url 160 in (w.0, record p { time_url = w.1 })
  write_field p device_id om =
      let w = write_text om p.device_id 64 in (w.0, record p { device_id = w.1 })
  write_field p device_token om =
      let w = write_text om p.device_token 128 in (w.0, record p { device_token = w.1 })
  write_field p firmware_version om =
      let r = read_u32_from_mbuf om in (code_of r, record p { firmware_version = number_of r })
  write_field p upload_interval_ms om =
      let r = read_u32_from_mbuf om in (code_of r, record p { upload_interval_ms = number_of r })
  write_field p queue_depth om =
      let r = read_u32_from_mbuf om in (code_of r, record p { queue_depth = number_of r })
  write_field p led_enabled om =
      let r = read_bool_from_mbuf om in
      (code_of r, record p { led_enabled = parsed_or p.led_enabled r })
  write_field p led_gpio om =
      let r = read_u32_from_mbuf om in (code_of r, record p { led_gpio = number_of r })
  write_field p _ om = (write_not_permitted, p)
