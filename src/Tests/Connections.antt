-- ===== src/Tests/Connections.antt =====
-- A station whose first attempt to connect is refused, and a name of the network of 32 bytes.
use aetus.Base.{true, false, some, [], replicate}
use aetus.Types.{Config}
use aetus.Wifi.{Station, StaSizes}
use aetus.Wifi.Runs.{World, connecting}
use aetus.Tests.Toys.{home_config}

abbrev dark_station : Station
dark_station = record {
  connected = false;
  reconfiguring = false;
  led_enabled = true;
  led_level = false;
}

-- A first attempt that is refused, a second that an update makes, and an LED that is turned on.
abbrev second_try : World
second_try = record {
  station = dark_station;
  driver = connecting;
  pending = [];
  refused = false;
  led_ready = true;
}

abbrev idf_sizes : StaSizes
idf_sizes = record { ssid_size = 32; password_size = 64 }

abbrev long_name : Config
long_name = record home_config { wifi_ssid = some (replicate 32 b'a') }
