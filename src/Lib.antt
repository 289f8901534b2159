-- ===== src/Lib.antt =====
-- A model of the AETUS device component, firmware/esp32-aetus/components/aetus: what a firmware
-- calls to build telemetry, status and signal frames, the queue between its tasks and the uploader,
-- and the uploader that encodes, signs and posts one event after the other.
--
-- The parts and the files that model them (paths from firmware/esp32-aetus/components/aetus):
--   Types       the structures and limits of include/aetus.h and include/aetus_internal.h
--   CString     the string helpers of aetus.c (`copy_string`, `string_fits`, `ends_with`, ...)
--   Decimal     `strtoul` and `%lu` of the C library, as the files below use them
--   Hex, Hmac   `bytes_to_hex` and the signature (`hmac_sha256_digest`, `hmac_signature_header`)
--   Heap        memory behind the pointers, with `pvPortMalloc` and `vPortFree`
--   SignalPool  aetus_signal_sample_pool.c: sample blocks and their counters
--   Frame       signal frames of aetus.c: the builders and `validate_signal_frame`
--   Telemetry   `aetus_telemetry_*` of aetus.c: up to 32 metrics, four of them inline
--   QueueItem   aetus_queue_item.c: the deep copy of a telemetry that the queue owns
--   Event       the protobuf events of aetus.c, `fill_*`, `map_*` and `encode_*`
--   Post        `post_payload` of aetus.c: the request and what its answer means
--   Uploader    `release_queue_item` and `drain_queue` of aetus.c; Uploader.Flush has the bits of
--               `uploader_task`, `upload_timer_callback` and `aetus_flush`; Uploader.Enqueued joins
--               the producer of a frame to the loop
--   Enqueue     `aetus_enqueue_*` of aetus.c, the two for interrupts included; Enqueue.Held is about
--               the memory that the queue's items own
--   Config      `aetus_start`, `aetus_update_config` and `aetus_get_config` of aetus.c
--   Clock       the time of the server, `aetus_sync_rtc`, the RTC and the timestamps of aetus.c
--   Provisioning  aetus_provisioning.c: the pending configuration (Provisioning, Access), the
--               connection (Link) and `aetus_start_provisioning` (Begin)
--   Wifi        the events, the settings and the start of the Wi-Fi in aetus.c
--   Base, Esp   shared names and lemmas, and the error codes of ESP-IDF
--   Rtos        the FreeRTOS queue, by its documented behaviour, with a list as an instance
--   Tests       runs on concrete inputs
-- A producer's function validates or copies its argument into blocks of its own (Frame, QueueItem,
-- SignalPool) and sends the item (Enqueue, Rtos). The uploader takes the item, encodes it (Event),
-- posts it (Post, Hmac), releases it, or puts it back to the front (Uploader).
--
-- State and operations: a function of the source is the definition of its name without the prefix
-- `aetus_`, `aetus_internal_`, `aetus_signal_sample_pool_` or `signal_sample_pool_`. One that touches
-- memory is a step of `Heap.M`, whose `fault` is an access through a bad pointer. Pointers to
-- structures are options where the source tests them for `NULL`. Numbers are natural numbers; a
-- sum or a product of the source that may wrap has its `% 2^32` or `% 2^64`. A float or a double is
-- its bit pattern. An error code is a value of `Esp.EspErr`, a checked chain one of `Esp.Result`.
--
-- Parameters: mbedtls (`Hmac.Mbedtls`), nanopb (`Event.Callbacks.Nanopb`, `Event.Encode.Encoder`), the
-- FreeRTOS queue (`Rtos.RtosQueue`), the allocator's choice of addresses (`Heap.Allocator`), the
-- packet buffers of NimBLE (`Provisioning.Mbufs`), the HTTP client (`Clock.Fetch.TimeClient`), the
-- conversion of milliseconds to ticks (`to_ticks` of `Config.Boot` and `Config.Drivers`), and what the
-- drivers of ESP-IDF return, or that they abort (`Wifi.Startup`). The laws that theorems assume of
-- them are `Hmac.Digest.IsSha256`, the fields of `RtosQueue`, `pick_free`,
-- `Provisioning.Buffers.CopiesWhole` and `Uploader.Encodes.ReadsOnly`, each documented behaviour.
-- Where tasks, events and the stacks below interleave, a relation `Step` has the things that can
-- happen as constructors, and a theorem holds over any run of steps: the events of the connection
-- (Provisioning.Served), those of the Wi-Fi with calls that are refused and updates (Wifi.Runs), the
-- operations of the pool (SignalPool.Runs), and the bits between the uploader task, its timer and two
-- tasks that flush (Uploader.Waits).
--
-- Loops over arrays are recursion on the number of rounds. `drain_queue` depends on what goes on
-- around it, so that its loop is recursion on a list of rounds, each with the answer of the server and
-- with the items that arrive meanwhile; a run with more rounds than queued and arriving items does not
-- run out of them, and does not fault where the items own their blocks (Uploader.Owned). Producers
-- write to memory only at blocks of their own, and what they do to memory while the loop runs is left
-- out.
--
-- The number of a `%lu` has at most 20 digits, which is the fuel of `Decimal.print`.
--
-- Not modelled: the table of attributes of NimBLE and its task, the stub for builds without Bluetooth
-- LE, which returns an error code, the log, the hooks and counters of the test build, nanopb and the
-- code that it generates, and the C++ wrapper, whose functions forward their arguments.
pub mod Base
pub mod Esp
pub mod CString
pub mod Hex
pub mod Hmac
pub mod Types
pub mod Heap
pub mod SignalPool
pub mod Frame
pub mod Telemetry
pub mod QueueItem
pub mod Rtos
pub mod Event
pub mod Post
pub mod Uploader
pub mod Enqueue
pub mod Config
pub mod Clock
pub mod Decimal
pub mod Provisioning
pub mod Wifi
pub mod Tests
