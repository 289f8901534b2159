-- ===== src/Provisioning/Numbers.antt =====
-- What a write stores in a field that holds a number, and what a read of it replies.
use aetus.Base.{
  ℕ, ◌≤◌, ◌<◌, ◌≡◌, refl, ap, ◌∙◌, false, List, [], ◌∷◌, arith, length, replicate, All,
}
use aetus.Types.{u32_mod}
use aetus.CString.{IsText, c_str}
use aetus.Decimal.{print}
use aetus.Decimal.Digits.{strto-print, pow10, length-digits_of, digits_of-digits}
use aetus.Provisioning.{
  Field, AttCode, success, Pending, Mbufs, parsed, write_text, write_field, provisioning_read,
  read_u32_from_mbuf, strip, keep_unless_empty, is_eol, append_text, append_u32,
}
use aetus.Provisioning.Buffers.{CopiesWhole, IsWritten, too_long, wrote, write_text-IsWritten}
use aetus.CString.Copy.{c_str-IsText}

-- A field that holds a number.
pub data NumberField : Field → (Pending → ℕ) → Type 0 where
  at_firmware_version : NumberField Field.firmware_version (λ p. p.firmware_version)
  at_upload_interval_ms : NumberField Field.upload_interval_ms (λ p. p.upload_interval_ms)
  at_queue_depth : NumberField Field.queue_depth (λ p. p.queue_depth)
  at_led_gpio : NumberField Field.led_gpio (λ p. p.led_gpio)

read-number :
    (mbufs : Mbufs) (p : Pending) {field : Field} {number : Pending → ℕ} (om : List ℕ)
    → NumberField field number
    → provisioning_read mbufs p field om ≡ append_u32 mbufs om (number p)
unfolding provisioning_read
read-number mbufs p om at_firmware_version = refl
read-number mbufs p om at_upload_interval_ms = refl
read-number mbufs p om at_queue_depth = refl
read-number mbufs p om at_led_gpio = refl

write-parsed :
    (mbufs : Mbufs) (p : Pending) {field : Field} {number : Pending → ℕ} (om : List ℕ) {n : ℕ}
    → NumberField field number
    → read_u32_from_mbuf mbufs om ≡ parsed n
    → ((write_field mbufs p field om).0 ≡ success) × (number (write_field mbufs p field om).1 ≡ n)
unfolding write_field
write-parsed mbufs p om at_firmware_version e = rw e (refl, refl)
write-parsed mbufs p om at_upload_interval_ms e = rw e (refl, refl)
write-parsed mbufs p om at_queue_depth e = rw e (refl, refl)
write-parsed mbufs p om at_led_gpio e = rw e (refl, refl)

strip-digits : (s : List ℕ) → All (λ c. 48 ≤ c) s → strip s ≡ s
unfolding strip
strip-digits [] h = refl
strip-digits (c ∷ cs) h = rw (strip-digits cs h.1) (kept c cs h.0)
  where
    kept : (c : ℕ) (cs : List ℕ) → 48 ≤ c → keep_unless_empty c cs ≡ c ∷ cs
    kept c [] le = let no : is_eol c ≡ false = ground arith in rw no refl
    kept c (d ∷ ds) le = refl

digits-IsText : (s : List ℕ) → All (λ c. 48 ≤ c) s → IsText s
digits-IsText [] h = tt
digits-IsText (c ∷ cs) h = (omega (arith, h.0), digits-IsText cs h.1)

-- A packet with a number is read as that number.
read_u32-print :
    (mbufs : Mbufs) (n : ℕ)
    → CopiesWhole mbufs
    → n < u32_mod
    → read_u32_from_mbuf mbufs (print n) ≡ parsed n
unfolding read_u32_from_mbuf print pow10
read_u32-print mbufs n copies lt =
    let digits = digits_of-digits 20 n in
    let few : length (print n) ≤ 10 = length-digits_of 20 10 n (omega arith) (omega arith) in
    go (write_text-IsWritten mbufs (print n) (replicate 16 0) 16 copies (omega arith) refl) digits
      few refl
  where
    go :
        {r : AttCode × List ℕ}
        → IsWritten (print n) (replicate 16 0) 16 r
        → All (λ c. 48 ≤ c) (print n)
        → length (print n) ≤ 10
        → write_text mbufs (print n) (replicate 16 0) 16 ≡ r
        → read_u32_from_mbuf mbufs (print n) ≡ parsed n
    go (too_long long) digits few e = absurd (omega arith)
    go (wrote {array = new} l b holds) digits few e =
        let text =
          holds
          ∙ ap c_str (strip-digits (print n) digits)
          ∙ c_str-IsText (print n) (digits-IsText (print n) digits) in
        rw (e, text, strto-print u32_mod n lt (omega arith)) refl

-- A 32-bit number that is written in decimal is accepted, stored, and read in decimal again.
pub provisioning_read-number :
    (mbufs : Mbufs) (p : Pending) (n : ℕ) (reply : List ℕ) {field : Field} {number : Pending → ℕ}
    → CopiesWhole mbufs
    → n < u32_mod
    → NumberField field number
    → ((write_field mbufs p field (print n)).0 ≡ success)
      × (number (write_field mbufs p field (print n)).1 ≡ n)
      × (provisioning_read mbufs (write_field mbufs p field (print n)).1 field reply
          ≡ append_text mbufs reply (print n))
unfolding append_u32
provisioning_read-number mbufs p n reply copies lt at =
    let (code, value) = write-parsed mbufs p (print n) at (read_u32-print mbufs n copies lt) in
    (
      code,
      value,
      read-number mbufs (write_field mbufs p _ (print n)).1 reply at
          ∙ ap (λ k. append_text mbufs reply (print k)) value,
    )
