-- ===== src/Wifi/Settings.antt =====
-- What the driver of the Wi-Fi is configured with.
use aetus.Base.{ℕ, ◌-◌, List, [], take}
use aetus.Types.{WifiAuth, psk, peap}
use aetus.Wifi.{AuthThreshold, open_network, wpa2_psk, wpa2_enterprise}

-- What the password is cut to, and the threshold, by the kind of the network.
abbrev pub told_password : WifiAuth → ℕ → List ℕ → List ℕ
told_password psk size password = take (size - 1) password
told_password _ size password = []

abbrev pub told_threshold : WifiAuth → AuthThreshold
told_threshold psk = wpa2_psk
told_threshold peap = wpa2_enterprise
told_threshold (WifiAuth.unknown n) = open_network
