-- ===== src/Uploader/Enqueued.antt =====
-- A frame on its way through firmware/esp32-aetus/components/aetus/aetus.c: `aetus_enqueue_signal_frame`
-- and then the loop of `drain_queue` on the queue that it leaves.
use aetus.Base.{List}
use aetus.Heap.{Heap}
