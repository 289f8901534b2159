-- ===== src/Tests/Toys.antt =====
-- Small instances of what the model takes as parameters, and data to run it on.
use aetus.Base.{
  ℕ, zero, suc, ◌+◌, ◌%◌, ◌≡◌, ◌≢◌, refl, true, false, none, some, List, [], ◌∷◌, ◌++◌, ◌==◌,
  if◌then◌else◌, length, replicate, codes, arith,
}
use aetus.Types.{Ptr, Config, psk, bearer, zero_status, zero_stats, QueueItem, status}
use aetus.Config.{Ctx}
use aetus.Esp.{is_null}
use aetus.Heap.{Heap, Allocator, block, bytes, done}
use aetus.Rtos.{RtosQueue}
use aetus.Rtos.Bounded
use aetus.Hmac.{Mbedtls}
use aetus.Event.Callbacks.{Nanopb}
use aetus.Event.Encode.{Encoder}

-- The first free address of `k` from `p` on.
abbrev pub first_free : ℕ → Ptr → Heap → Ptr
first_free zero p h = 0
first_free (suc k) p h = let rest = first_free k (p + 1) h in if is_null (h p) then p else rest

pub first_free-free :
    (k : ℕ) (p : Ptr) (h : Heap) → first_free k p h ≢ 0 → h (first_free k p h) ≡ none
first_free-free zero p h ne = absurd (ne refl)
first_free-free (suc k) p h ne = ground (arith, first_free-free k (p + 1) h)

abbrev pub low_memory : Allocator
low_memory = record { pick = λ h n. first_free 8 1 h; pick_free = λ h n. first_free-free 8 1 h }

abbrev pub no_memory : Allocator
no_memory = record { pick = λ h n. 0; pick_free = λ h n ne. absurd (ne refl) }

abbrev pub empty_heap : Heap
empty_heap p = none

-- The text "hi" with its terminator at address 1.
abbrev pub text_heap : Heap
text_heap p = if p == 1 then block 3 (bytes (104 ∷ 105 ∷ 0 ∷ [])) else none

abbrev pub list_queue : RtosQueue
list_queue = record {
  Queue = Bounded.Bounded;
  depth = λ q. q.depth;
  items = λ q. q.items;
  create = Bounded.create;
  send = Bounded.send;
  send_to_front = Bounded.send_to_front;
  receive = Bounded.receive;
  create_empty = Bounded.create_empty;
  send_items = Bounded.send_items;
  front_items = Bounded.front_items;
  send_full = Bounded.send_full;
  front_full = Bounded.front_full;
  receive_empty = Bounded.receive_empty;
  receive_items = Bounded.receive_items;
}

-- A digest of 32 bytes that counts what it was given.
abbrev pub count_hash : List ℕ → List ℕ
count_hash bs = replicate 32 (length bs % 256)

abbrev pub count_md : Mbedtls
count_md = record {
  Context = List ℕ;
  info = true;
  init = [];
  setup = λ c. (0, c);
  starts = λ c. (0, []);
  update = λ c p. (0, c ++ p);
  finish = λ c. (0, count_hash c);
}

abbrev pub plain_pb : Nanopb
plain_pb = record {
  Stream = List ℕ;
  Field = Unit {0};
  encode_tag = λ s f. some s;
  encode_string = λ s bs. some (s ++ bs);
  encode_channel = λ s c. some (s ++ c.key);
}

-- The sequence number alone.
abbrev pub number_encoder : Encoder plain_pb
number_encoder = record {
  from_buffer = λ n. [];
  encode = λ s e h. done (some (e.header.sequence ∷ s)) h;
  written = λ s. s;
}

abbrev pub home_config : Config
home_config = record {
  wifi_ssid = some (codes "home");
  wifi_password = some (codes "secret");
  wifi_auth = psk;
  wifi_identity = none;
  ingest_url = some (codes "http://host/v1/ingest");
  time_url = none;
  device_id = some (codes "dev-1");
  device_token = some (codes "token");
  auth_mode = bearer;
  firmware_version = 3;
  upload_interval_ms = 1000;
  queue_depth = 4;
  connected_led_enabled = false;
  connected_led_gpio = 0;
}

-- A status that its heap size tells apart.
abbrev pub status_of : ℕ → QueueItem
status_of n = status (record zero_status { free_heap = n })

abbrev pub home_ctx : Ctx list_queue
home_ctx = record {
  config = home_config;
  queue = some (record { depth = 4; items = [] });
  events = true;
  upload_timer = some 1000;
  sequence = 0;
  boot_id = replicate 32 0;
  wifi_started = false;
  wifi_connected = false;
  stats = zero_stats;
}
