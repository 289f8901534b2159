-- ===== src/Provisioning/Fields.antt =====
-- Writes and reads of the fields of the pending configuration.
use aetus.Base.{ℕ, ◌<◌, List, arith}
use aetus.Provisioning.{Field, AttCode, Pending, Mbufs, write_text, write_field}
use aetus.Provisioning.Buffers.{
  CopiesWhole, IsBuffer, IsWritten, too_long, wrote, write_text-IsWritten,
}

-- The arrays of the pending configuration have their sizes and hold terminated strings.
abbrev pub IsPending : Pending → Type 0
IsPending p =
    IsBuffer 33 p.wifi_ssid
    × IsBuffer 65 p.wifi_password
    × IsBuffer 128 p.wifi_identity
    × IsBuffer 160 p.ingest_url
    × IsBuffer 160 p.time_url
    × IsBuffer 64 p.device_id
    × IsBuffer 128 p.device_token

written-IsBuffer :
    {om target : List ℕ} {size : ℕ} {r : AttCode × List ℕ}
    → IsWritten om target size r
    → IsBuffer size target
    → IsBuffer size r.1
written-IsBuffer (too_long long) b = b
written-IsBuffer (wrote lt b text) old = b

text-IsBuffer :
    (mbufs : Mbufs) (om target : List ℕ) {size : ℕ}
    → CopiesWhole mbufs
    → 0 < size
    → IsBuffer size target
    → IsBuffer size (write_text mbufs om target size).1
text-IsBuffer mbufs om target {size} copies pos b =
    written-IsBuffer (write_text-IsWritten mbufs om target size copies pos b.0) b

-- Every write of every field, refused or not, keeps the arrays terminated and of their sizes.
pub write_field-IsPending :
    (mbufs : Mbufs) (p : Pending) (field : Field) (om : List ℕ)
    → CopiesWhole mbufs
    → IsPending p
    → IsPending (write_field mbufs p field om).1
unfolding write_field
write_field-IsPending mbufs p Field.wifi_ssid om copies (a, b, c, d, e, f, g) =
    (text-IsBuffer mbufs om p.wifi_ssid copies (omega arith) a, b, c, d, e, f, g)
write_field-IsPending mbufs p Field.wifi_password om copies (a, b, c, d, e, f, g) =
    (a, text-IsBuffer mbufs om p.wifi_password copies (omega arith) b, c, d, e, f, g)
write_field-IsPending mbufs p Field.wifi_id om copies (a, b, c, d, e, f, g) =
    (a, b, text-IsBuffer mbufs om p.wifi_identity copies (omega arith) c, d, e, f, g)
write_field-IsPending mbufs p Field.ingest_url om copies (a, b, c, d, e, f, g) =
    (a, b, c, text-IsBuffer mbufs om p.ingest_url copies (omega arith) d, e, f, g)
write_field-IsPending mbufs p Field.time_url om copies (a, b, c, d, e, f, g) =
    (a, b, c, d, text-IsBuffer mbufs om p.time_url copies (omega arith) e, f, g)
write_field-IsPending mbufs p Field.device_id om copies (a, b, c, d, e, f, g) =
    (a, b, c, d, e, text-IsBuffer mbufs om p.device_id copies (omega arith) f, g)
write_field-IsPending mbufs p Field.device_token om copies (a, b, c, d, e, f, g) =
    (a, b, c, d, e, f, text-IsBuffer mbufs om p.device_token copies (omega arith) g)
write_field-IsPending mbufs p field om copies i = i
