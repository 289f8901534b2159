-- ===== src/Frame/Builder.antt =====
-- Frames that are filled in by the functions of the API.
use aetus.Base.{
  ℕ, zero, suc, ◌+◌, ◌≤◌, ◌<◌, ◌≡◌, refl, sym, ◌∙◌, true, false, Option, none, some, List, [], ◌∷◌,
  arith, length, set, get_elem?, length-set, get_elem?-set_self, ltb→lt,
}
use aetus.Types.{
  SignalChannel, SignalFrame, zero_channel, metric_key_max, stream_key_max, channels_max,
}
use aetus.Esp.{ok, guard-ok, ok-injective, OptionAll}
use aetus.CString.{CStr, IsText, c_str, starts_nul, copy_string, string_fits}
use aetus.CString.Copy.{copy_string-whole}
use aetus.Frame.{has_text, new_channel, signal_frame_init, signal_frame_add_channel}
use aetus.Frame.Size.{AreNamed}

-- What the functions of the API keep: the array of channels has its size, and the channels that are
-- in use have keys.
pub record IsBuilt (f : SignalFrame) : Type 0 where
  pub array : length f.channels ≡ channels_max
  pub within : f.channel_count ≤ channels_max
  pub named : AreNamed f.channel_count f.channels
  pub key_array : length f.stream_key ≡ stream_key_max

AreNamed-set :
    (n : ℕ) (cs : List SignalChannel) (c : SignalChannel)
    → AreNamed n cs
    → n < length cs
    → starts_nul c.key ≡ false
    → AreNamed (n + 1) (set cs n c)
AreNamed-set n [] c named lt key = absurd (omega arith)
AreNamed-set zero (d ∷ cs) c named lt key = (key, tt)
AreNamed-set (suc n) (d ∷ cs) c named lt key =
    let e : suc n + 1 ≡ suc (n + 1) = omega arith in
    rw e (named.0, AreNamed-set n cs c named.1 (omega arith) key)

starts_nul-c_str : (t s : List ℕ) (c : ℕ) → c_str t ≡ c ∷ s → starts_nul t ≡ false
unfolding c_str
starts_nul-c_str [] s c e = cc
starts_nul-c_str (x ∷ t) s c e = ground arith

new_channel-key :
    (key : List ℕ) (unit : CStr) (scale offset : Option ℕ)
    → (new_channel (some key) unit scale offset).key
      ≡ copy_string zero_channel.key metric_key_max (some key)
unfolding new_channel
new_channel-key key unit none none = refl
new_channel-key key unit none (some o) = refl
new_channel-key key unit (some s) none = refl
new_channel-key key unit (some s) (some o) = refl

-- The new channel holds the whole key.
pub c_str-new_channel :
    (key : List ℕ) (unit : CStr) (scale offset : Option ℕ)
    → IsText key
    → string_fits (some key) metric_key_max ≡ true
    → c_str (new_channel (some key) unit scale offset).key ≡ key
c_str-new_channel key unit scale offset text fits =
    rw (new_channel-key key unit scale offset)
      (copy_string-whole zero_channel.key metric_key_max key refl text fits)

new_channel-named :
    (key : List ℕ) (unit : CStr) (scale offset : Option ℕ)
    → IsText key
    → has_text (some key) ≡ true
    → string_fits (some key) metric_key_max ≡ true
    → starts_nul (new_channel (some key) unit scale offset).key ≡ false
new_channel-named [] unit scale offset text full fits = cc
new_channel-named (c ∷ cs) unit scale offset text full fits =
    starts_nul-c_str _ cs c (c_str-new_channel (c ∷ cs) unit scale offset text fits)

pub signal_frame_init-IsBuilt : (f : SignalFrame) → OptionAll IsBuilt (signal_frame_init (some f))
unfolding signal_frame_init
signal_frame_init-IsBuilt f = ground arith

-- A call of `signal_frame_add_channel` that succeeds.
record IsAdded (f g : SignalFrame) (key : List ℕ) (c : SignalChannel) : Type 0 where
  text_given : has_text (some key) ≡ true
  fits : string_fits (some key) metric_key_max ≡ true
  room : f.channel_count < channels_max
  result : g ≡ record f {
    channels = set f.channels f.channel_count c;
    channel_count = f.channel_count + 1;
  }

add_channel-IsAdded :
    (f g : SignalFrame) (key : List ℕ) (unit : CStr) (scale offset : Option ℕ)
    → signal_frame_add_channel (some f) (some key) unit scale offset ≡ ok g
    → IsAdded f g key (new_channel (some key) unit scale offset)
unfolding signal_frame_add_channel
add_channel-IsAdded f g key unit scale offset h =
    let g1 = guard-ok _ _ h in
    let g2 = guard-ok _ _ g1.1 in
    let g3 = guard-ok _ _ g2.1 in
    let g4 = guard-ok _ _ g3.1 in
    record {
      text_given = g1.0;
      fits = g2.0;
      room = ltb→lt f.channel_count channels_max g4.0;
      result = sym (ok-injective g4.1);
    }

-- A channel that is added keeps the frame well formed, and is found under the old count with its
-- whole key. But for the channels and their count the frame, its samples included, is as before.
pub signal_frame_add_channel-IsBuilt :
    (f g : SignalFrame) (key : List ℕ) (unit : CStr) (scale offset : Option ℕ)
    → IsBuilt f
    → IsText key
    → signal_frame_add_channel (some f) (some key) unit scale offset ≡ ok g
    → IsBuilt g
      × (g.channel_count ≡ f.channel_count + 1)
      × (get_elem? g.channels f.channel_count ≡ some (new_channel (some key) unit scale offset))
      × (c_str (new_channel (some key) unit scale offset).key ≡ key)
      × (record g { channels = f.channels; channel_count = f.channel_count } ≡ f)
signal_frame_add_channel-IsBuilt f g key unit scale offset b text h =
    let c = new_channel (some key) unit scale offset in
    let a = add_channel-IsAdded f g key unit scale offset h in
    let inside : f.channel_count < length f.channels = omega (arith, a.room, b.array) in
    let key_there = new_channel-named key unit scale offset text a.text_given a.fits in
    rw a.result (
      record {
        array = length-set f.channels f.channel_count c ∙ b.array;
        within = omega (arith, a.room);
        named = AreNamed-set f.channel_count f.channels c b.named inside key_there;
        key_array = b.key_array;
      },
      refl,
      get_elem?-set_self f.channels f.channel_count c inside,
      c_str-new_channel key unit scale offset text a.fits,
      refl,
    )
