-- ===== src/Provisioning/Readback.antt =====
-- What a write stores in a field, and what a read of it replies.
use aetus.Base.{
  ℕ, ◌≤◌, ◌<◌, ◌≡◌, ◌⊎◌, refl, ap, ◌∙◌, Bool-cases, inl, inr, List, [], ◌∷◌, arith, leb, length,
}
use aetus.CString.{IsText, c_str}
use aetus.CString.Copy.{c_str-IsText}
use aetus.Provisioning.{
  Field, AttCode, success, invalid_value_len, Pending, Mbufs, write_text, write_field,
  provisioning_read, strip, keep_unless_empty, is_eol, append_text,
}
use aetus.Provisioning.Buffers.{
  CopiesWhole, IsBuffer, IsWritten, too_long, wrote, write_text-IsWritten, write_text-too_long,
}
use aetus.Provisioning.Fields.{IsPending}

-- A text field, with its array.
pub data TextField : Field → (Pending → List ℕ) → ℕ → Type 0 where
  at_wifi_ssid : TextField Field.wifi_ssid (λ p. p.wifi_ssid) 33
  at_wifi_password : TextField Field.wifi_password (λ p. p.wifi_password) 65
  at_wifi_id : TextField Field.wifi_id (λ p. p.wifi_identity) 128
  at_ingest_url : TextField Field.ingest_url (λ p. p.ingest_url) 160
  at_time_url : TextField Field.time_url (λ p. p.time_url) 160
  at_device_id : TextField Field.device_id (λ p. p.device_id) 64
  at_device_token : TextField Field.device_token (λ p. p.device_token) 128

-- The write of a text field is the write of its array.
write_field-text :
    (mbufs : Mbufs) (p : Pending) {field : Field} {array : Pending → List ℕ} {size : ℕ}
    (om : List ℕ)
    → TextField field array size
    → ((write_field mbufs p field om).0 ≡ (write_text mbufs om (array p) size).0)
      × (array (write_field mbufs p field om).1 ≡ (write_text mbufs om (array p) size).1)
unfolding write_field
write_field-text mbufs p om at_wifi_ssid = (refl, refl)
write_field-text mbufs p om at_wifi_password = (refl, refl)
write_field-text mbufs p om at_wifi_id = (refl, refl)
write_field-text mbufs p om at_ingest_url = (refl, refl)
write_field-text mbufs p om at_time_url = (refl, refl)
write_field-text mbufs p om at_device_id = (refl, refl)
write_field-text mbufs p om at_device_token = (refl, refl)

-- The array has its size.
array-IsBuffer :
    (p : Pending) {field : Field} {array : Pending → List ℕ} {size : ℕ}
    → TextField field array size
    → IsPending p
    → (0 < size) × IsBuffer size (array p)
array-IsBuffer p at_wifi_ssid i = (omega arith, i.0)
array-IsBuffer p at_wifi_password i = (omega arith, i.1)
array-IsBuffer p at_wifi_id i = (omega arith, i.2)
array-IsBuffer p at_ingest_url i = (omega arith, i.3)
array-IsBuffer p at_time_url i = (omega arith, i.4)
array-IsBuffer p at_device_id i = (omega arith, i.5)
array-IsBuffer p at_device_token i = (omega arith, i.6)

-- A field that may be read.
pub data IsReadable : Field → Type 0 where
  ssid : IsReadable Field.wifi_ssid
  id : IsReadable Field.wifi_id
  ingest : IsReadable Field.ingest_url
  time : IsReadable Field.time_url
  device : IsReadable Field.device_id

read-text :
    (mbufs : Mbufs) (p : Pending) {field : Field} {array : Pending → List ℕ} {size : ℕ}
    (om : List ℕ)
    → TextField field array size
    → IsReadable field
    → provisioning_read mbufs p field om ≡ append_text mbufs om (c_str (array p))
unfolding provisioning_read
read-text mbufs p om at_wifi_ssid ssid = refl
read-text mbufs p om at_wifi_id id = refl
read-text mbufs p om at_ingest_url ingest = refl
read-text mbufs p om at_time_url time = refl
read-text mbufs p om at_device_id device = refl
read-text mbufs p om at_wifi_password none_readable = elim none_readable [ ]
read-text mbufs p om at_device_token none_readable = elim none_readable [ ]

strip-IsText : (s : List ℕ) → IsText s → IsText (strip s)
unfolding strip
strip-IsText [] h = tt
strip-IsText (c ∷ cs) h = keep-IsText c (strip cs) h.0 (strip-IsText cs h.1)
  where
    keep-IsText : (c : ℕ) (s : List ℕ) → 0 < c → IsText s → IsText (keep_unless_empty c s)
    keep-IsText c [] pos t = elim (Bool-cases (is_eol c)) [
      | inl y ↦ rw y tt
      | inr y ↦ rw y (pos, tt)
    ]
    keep-IsText c (d ∷ ds) pos t = (pos, t)

-- A text of less than the field's size is accepted, and is in the array without the line ends at its
-- end.
pub accepted_text :
    (mbufs : Mbufs) (p : Pending) (om : List ℕ) {field : Field} {array : Pending → List ℕ}
    {size : ℕ}
    → CopiesWhole mbufs
    → IsPending p
    → IsText om
    → TextField field array size
    → length om < size
    → ((write_field mbufs p field om).0 ≡ success)
      × (c_str (array (write_field mbufs p field om).1) ≡ strip om)
accepted_text mbufs p om {field} {array} {size} copies i text at lt =
    let (pos, buffer) = array-IsBuffer p at i in
    let (code, store) = write_field-text mbufs p om at in
    stored (write_text-IsWritten mbufs om (array p) size copies pos buffer.0) code store
  where
    stored :
        {r : AttCode × List ℕ}
        → IsWritten om (array p) size r
        → (write_field mbufs p field om).0 ≡ r.0
        → array (write_field mbufs p field om).1 ≡ r.1
        → ((write_field mbufs p field om).0 ≡ success)
          × (c_str (array (write_field mbufs p field om).1) ≡ strip om)
    stored (too_long long) code store = absurd (omega arith)
    stored (wrote {array = new} l b holds) code store =
        (code, ap c_str store ∙ holds ∙ c_str-IsText (strip om) (strip-IsText om text))

-- A text of less than the field's size is accepted, and a read of the field replies with it, without
-- the line ends at its end; a longer one is refused and leaves the field as it was.
pub provisioning_read-write_field :
    (mbufs : Mbufs) (p : Pending) (om reply : List ℕ) {field : Field} {array : Pending → List ℕ}
    {size : ℕ}
    → CopiesWhole mbufs
    → IsPending p
    → IsText om
    → TextField field array size
    → IsReadable field
    → ((length om < size)
        × ((write_field mbufs p field om).0 ≡ success)
        × (provisioning_read mbufs (write_field mbufs p field om).1 field reply
            ≡ append_text mbufs reply (strip om)))
      ⊎ ((size ≤ length om)
          × ((write_field mbufs p field om).0 ≡ invalid_value_len)
          × (array (write_field mbufs p field om).1 ≡ array p))
provisioning_read-write_field mbufs p om reply {field} {array} {size} copies i text at readable =
    let (pos, buffer) = array-IsBuffer p at i in
    elim (Bool-cases (leb size (length om))) [
      | inl y ↦
          let (code, store) = write_field-text mbufs p om at in
          let refusal = write_text-too_long mbufs om (array p) size (ground arith) in
          inr (ground arith, code ∙ ap (λ r. r.0) refusal, store ∙ ap (λ r. r.1) refusal)
      | inr n ↦
          let lt : length om < size = ground arith in
          let (code, holds) = accepted_text mbufs p om copies i text at lt in
          inl (
            lt,
            code,
            read-text mbufs (write_field mbufs p field om).1 reply at readable
                ∙ ap (append_text mbufs reply) holds,
          )
    ]
