-- ===== src/Frame/Size.antt =====
-- The size check is exact in spite of the 32-bit arithmetic, and validation means what it says.
use aetus.Base.{
  ℕ, zero, suc, ◌*◌, ◌/◌, ◌%◌, ◌≤◌, ◌<◌, ◌≡◌, ◌≢◌, ◌↔◌, refl, false, ◌||◌, some, List, [], ◌∷◌,
  arith, ltb, ltb→lt, lt→ltb, leb→le, le→leb, not-true, ==-ne, leb, if◌then◌else◌, ◌==◌, Bool-cases,
  inl, inr,
}
use native.Mathlib.Nat.{le-div_iff_mul-le, mod-eq_of_lt}
use aetus.Types.{null, u32_mod, SignalChannel, SignalFrame, channels_max, samples_max}
use aetus.Esp.{◌>>=◌, ◌>>◌, invalid_arg, Result, ok, err, guard, guard-ok, >>-ok}
use aetus.CString.{starts_nul}
use aetus.Frame.{
  signal_sample_width_bytes, size_max, expected_signal_samples_size, channel_keys_present,
  validate_signal_frame,
}

-- The number of bytes that the samples of a frame take, as a number without bound.
unfoldable pub samples_bytes : SignalFrame → ℕ
unfolding signal_sample_width_bytes
samples_bytes f = f.sample_count * f.channel_count * signal_sample_width_bytes f.encoding

-- The overflow check before a product.
mul_check : (a b : ℕ) → (b == 0 || leb a (size_max / b)) ≡ ltb (a * b) u32_mod
mul_check a zero = ground arith
mul_check a (suc b) =
    ground (arith, le-div_iff_mul-le {k = suc b} {x = a} {y = size_max} (omega arith))

width_check : (t w : ℕ) → 0 < w → (t == 0 || leb t (size_max / w)) ≡ ltb (t * w) u32_mod
width_check t w pos = ground (arith, le-div_iff_mul-le {k = w} {x = t} {y = size_max} pos)

le-mul : (t w : ℕ) → 0 < w → t ≤ t * w
le-mul t w pos = grind arith

size_steps :
    (t w : ℕ)
    → 0 < w
    → (do
      guard (ltb t u32_mod) invalid_arg
      guard (ltb (t % u32_mod * w) u32_mod) invalid_arg
      ok (t % u32_mod * w % u32_mod))
      ≡ (if ltb (t * w) u32_mod then ok (t * w) else err invalid_arg)
size_steps t w pos = elim (Bool-cases (ltb t u32_mod)) [
  | inl small ↦
      rw (mod-eq_of_lt (ltb→lt t u32_mod small), small)
        (elim (Bool-cases (ltb (t * w) u32_mod)) [
          | inl fits ↦ rw (fits, mod-eq_of_lt (ltb→lt (t * w) u32_mod fits))
          | inr big ↦ rw big
        ])
  | inr large ↦
      let big : ltb (t * w) u32_mod ≡ false = ground (arith, le-mul t w pos) in rw (large, big)
]

-- For an encoding that is known, the size check gives the exact number of bytes if 32 bits can
-- hold it, and an error if not.
pub expected_signal_samples_size-exact :
    (f : SignalFrame)
    → 0 < signal_sample_width_bytes f.encoding
    → expected_signal_samples_size (some f)
      ≡ (if ltb (samples_bytes f) u32_mod then ok (samples_bytes f) else err invalid_arg)
unfolding expected_signal_samples_size samples_bytes
expected_signal_samples_size-exact f w =
    let width = signal_sample_width_bytes f.encoding in
    let total = f.sample_count * f.channel_count in
    rw
      (
        lt→ltb 0 width w,
        mul_check f.sample_count f.channel_count,
        width_check (total % u32_mod) width w,
      )
      (size_steps total width w)

pub expected_signal_samples_size-unknown :
    (f : SignalFrame)
    → signal_sample_width_bytes f.encoding ≡ 0
    → expected_signal_samples_size (some f) ≡ err invalid_arg
unfolding expected_signal_samples_size
expected_signal_samples_size-unknown f e = ground arith

-- The first `n` channels exist and have keys.
abbrev pub AreNamed : ℕ → List SignalChannel → Type 0
AreNamed zero cs = Unit
AreNamed (suc n) [] = ⊥
AreNamed (suc n) (c ∷ cs) = (starts_nul c.key ≡ false) × AreNamed n cs

channel_keys_present_iff :
    (n : ℕ) (cs : List SignalChannel) → (channel_keys_present n cs ≡ ok tt) ↔ AreNamed n cs
unfolding channel_keys_present
channel_keys_present_iff zero cs = (λ e. tt, λ n. refl)
channel_keys_present_iff (suc n) [] = (λ e. cc, λ n. absurd n)
channel_keys_present_iff (suc n) (c ∷ cs) = ground (arith, channel_keys_present_iff n cs)

-- A frame that may be sent.
pub record IsSendable (f : SignalFrame) : Type 0 where
  pub stream_named : starts_nul f.stream_key ≡ false
  pub interval : 0 < f.sample_interval_ns
  pub sampled : 0 < f.sample_count
  pub some_channel : 0 < f.channel_count
  pub channels_within : f.channel_count ≤ channels_max
  pub named : AreNamed f.channel_count f.channels
  pub some_samples : 0 < f.samples_size
  pub has_samples : f.samples ≢ null
  pub samples_within : f.samples_size ≤ samples_max
  pub exact_size : samples_bytes f ≡ f.samples_size

-- The last step: the size is the one expected.
exact_check : (f : SignalFrame) → Result (Unit {0})
exact_check f = do
  expected_size ← expected_signal_samples_size (some f)
  guard (expected_size == f.samples_size) invalid_arg

exact_check_iff :
    (f : SignalFrame)
    → 0 < f.samples_size
    → f.samples_size ≤ samples_max
    → (exact_check f ≡ ok tt) ↔ (samples_bytes f ≡ f.samples_size)
unfolding exact_check
exact_check_iff f pos within = elim (Bool-cases (ltb 0 (signal_sample_width_bytes f.encoding))) [
  | inl w ↦ rw (expected_signal_samples_size-exact f (ltb→lt 0 _ w)) (ground arith)
  | inr w ↦
      let none_wide : signal_sample_width_bytes f.encoding ≡ 0 = ground arith in
      let no_bytes : samples_bytes f ≡ 0 = unfold samples_bytes in rw none_wide (omega arith) in
      rw (expected_signal_samples_size-unknown f none_wide) ((λ e. cc), (λ e. absurd (omega arith)))
]

validate_signal_frame-IsSendable :
    (f : SignalFrame) → validate_signal_frame (some f) ≡ ok tt → IsSendable f
unfolding validate_signal_frame exact_check
validate_signal_frame-IsSendable f h =
    let g1 = guard-ok _ _ h in
    let g2 = guard-ok _ _ g1.1 in
    let g3 = guard-ok _ _ g2.1 in
    let g4 = guard-ok _ _ g3.1 in
    let g5 = guard-ok _ _ g4.1 in
    let g6 = guard-ok _ _ g5.1 in
    let g7 = guard-ok _ _ g6.1 in
    let g8 = guard-ok _ _ g7.1 in
    let g9 = >>-ok _ g8.1 in
    let pos = ltb→lt 0 f.samples_size g6.0 in
    let within = leb→le f.samples_size samples_max g8.0 in
    record {
      stream_named = not-true (starts_nul f.stream_key) g1.0;
      interval = ltb→lt 0 f.sample_interval_ns g2.0;
      sampled = ltb→lt 0 f.sample_count g3.0;
      some_channel = ltb→lt 0 f.channel_count g4.0;
      channels_within = leb→le f.channel_count channels_max g5.0;
      named = (channel_keys_present_iff f.channel_count f.channels).0 g9.0;
      some_samples = pos;
      has_samples = ==-ne f.samples null (not-true (f.samples == null) g7.0);
      samples_within = within;
      exact_size = (exact_check_iff f pos within).0 g9.1;
    }

validate_signal_frame-ok : (f : SignalFrame) → IsSendable f → validate_signal_frame (some f) ≡ ok tt
unfolding validate_signal_frame exact_check
validate_signal_frame-ok f s =
    let nonnull : (f.samples == null) ≡ false = ground arith in
    rw (s.stream_named, lt→ltb 0 f.sample_interval_ns s.interval)
      (rw (lt→ltb 0 f.sample_count s.sampled, lt→ltb 0 f.channel_count s.some_channel)
        (rw
          (
            le→leb f.channel_count channels_max s.channels_within,
            lt→ltb 0 f.samples_size s.some_samples,
            nonnull,
            le→leb f.samples_size samples_max s.samples_within,
          )
          (rw ((channel_keys_present_iff f.channel_count f.channels).1 s.named)
            ((exact_check_iff f s.some_samples s.samples_within).1 s.exact_size))))

-- Validation accepts exactly the frames with a stream key, an interval, samples of at most the
-- limit, one to four channels with keys, and a size in bytes that is the number of samples times
-- channels times the width of the encoding, as numbers without bound.
pub validate_signal_frame_iff :
    (f : SignalFrame) → (validate_signal_frame (some f) ≡ ok tt) ↔ IsSendable f
validate_signal_frame_iff f = (validate_signal_frame-IsSendable f, validate_signal_frame-ok f)
