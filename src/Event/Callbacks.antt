-- ===== src/Event/Callbacks.antt =====
-- The callbacks of firmware/esp32-aetus/components/aetus/aetus.c that nanopb calls for a field of
-- variable size: `encode_string_callback`, `encode_bytes_callback` and
-- `encode_signal_channels_callback`. nanopb's stream and the functions that write to it are
-- parameters; a write returns no stream where it fails.
use aetus.Base.{
  ℕ, ◌==◌, zero, suc, min, Option, none, some, List, [], ◌∷◌, if◌then◌else◌, replicate,
}
use aetus.Types.{
  Ptr, null, SignalChannel, SignalFrame, channels_max, metric_key_max, metric_unit_max,
}
use aetus.CString.{c_str, copy_string}
use aetus.Heap.{M, pure, failed, ◌>>=◌, load_c_str, load_bytes}

-- `pb_encode_tag_for_field`, `pb_encode_string`, and `pb_encode_submessage` of a channel.
pub record Nanopb : Type 1 where
  pub Stream : Type 0
  pub Field : Type 0
  pub encode_tag : Stream → Field → Option Stream
  pub encode_string : Stream → List ℕ → Option Stream
  pub encode_channel : Stream → SignalChannel → Option Stream

-- A callback of a field.
abbrev pub Callback : Nanopb → Type 0
Callback pb = pb.Stream → pb.Field → M (Option pb.Stream)

-- `if (!pb_encode_tag_for_field(...)) return false;` and the write that follows.
abbrev pub tagged :
    (pb : Nanopb) → pb.Stream → pb.Field → (pb.Stream → Option pb.Stream) → Option pb.Stream
tagged pb stream field write = and_write (pb.encode_tag stream field)
  where
    and_write : Option pb.Stream → Option pb.Stream
    and_write none = none
    and_write (some stream') = write stream'

unfoldable pub encode_string_callback : (pb : Nanopb) → Ptr → Callback pb
encode_string_callback pb value stream field = do
  text ← if value == null then pure [] else load_c_str value
  pure (tagged pb stream field λ s. pb.encode_string s text)

unfoldable pub encode_bytes_callback : (pb : Nanopb) → Ptr → ℕ → Callback pb
encode_bytes_callback pb pointer size stream field = if pointer == null then pure none else do
  value ← load_bytes pointer size
  pure (tagged pb stream field λ s. pb.encode_string s value)

unfoldable pub wire_channel : SignalChannel → SignalChannel
wire_channel source = record source {
  key = copy_string (replicate metric_key_max 0) metric_key_max (some (c_str source.key));
  unit = copy_string (replicate metric_unit_max 0) metric_unit_max (some (c_str source.unit));
}

-- `if (!...) return false;` in the loop, and the rest of it.
abbrev pub write_rest :
    (pb : Nanopb) → Option pb.Stream → (pb.Stream → M (Option pb.Stream)) → M (Option pb.Stream)
write_rest pb none rest = pure none
write_rest pb (some stream') rest = rest stream'

-- The loop over the first `n` channels.
unfoldable pub encode_channels : (pb : Nanopb) → ℕ → List SignalChannel → Callback pb
unfolding wire_channel
encode_channels pb zero channels stream field = pure (some stream)
encode_channels pb (suc n) [] stream field = failed
encode_channels pb (suc n) (c ∷ cs) stream field =
    write_rest pb (tagged pb stream field λ s. pb.encode_channel s (wire_channel c))
      (λ stream'. encode_channels pb n cs stream' field)

unfoldable pub encode_signal_channels_callback : (pb : Nanopb) → SignalFrame → Callback pb
encode_signal_channels_callback pb frame =
    encode_channels pb (min frame.channel_count channels_max) frame.channels
