-- ===== src/ProtoConv/Construct/Streams.antt =====
-- src/ProtoConv/ProtoConv.cpp: which objects the constructor makes, and when it throws.
use Prim.Native.String.{String}
use text.Mathlib.Text as Text
use mini_plex.Base.{
  subst, ℕ, ◌<◌, ◌%◌, ◌^◌, ◌≡◌, refl, sym, ◌∙◌, inl, inr, Bool, true, false, not, ◌&&◌, ◌||◌, List,
  [], ◌∷◌, length, ◌==◌, Option, none, some, has_value, is_nil, arith, Option-cases, Bool-cases,
  if◌then◌else◌,
}
use mini_plex.ProtoConv.Args.{Args, check_args}
use mini_plex.ProtoConv.Construct.{
  Stream, tcp_stream, serial_stream, no_stream, ProtoConv, Outside, framing_of, configure, open_all,
  stream_of, construct,
}
use mini_plex.ProtoConv.Construct.Devices.{configure-throws, length-configure}
use mini_plex.ProtoConv.Serial.{indices, new_manager}
use mini_plex.ProtoConv.Serial.PerPort.{all_ok, fits, length-new_settings}
use mini_plex.ProtoConv.Serial.Settings.{new_settings}
use mini_plex.ProtoConv.Serial.Opening.{Setting, start-accepted}

-- The frame protocol, or a delimiter, is known.
abbrev pub has_framing : Args → Bool
has_framing a =
    not (a.delim == 0) || Text.◌==◌ a.frame_protocol "DNP3" || Text.◌==◌ a.frame_protocol "Null"

-- Every serial device opens, and the lists fit the devices.
abbrev pub has_devices : {E : Type 0} → Outside E → Args → Bool
has_devices o a =
    let n = length a.serial_devices in
    open_all o.opens a.serial_devices
    && fits n a.serial_baud_rates
    && fits n a.serial_char_sizes
    && all_ok (λ cs. o.accepts_char_size (cs % 2 ^ 32)) a.serial_char_sizes
    && fits n a.serial_flow_controls
    && fits n a.serial_stop_bits

-- The times of a TCP stream can be read, or the serial devices can be configured.
abbrev pub has_stream : {E : Type 0} → Outside E → Args → Bool
has_stream o a =
    if not (Text.◌==◌ a.tcp_addr "")
    then has_value (o.backoff_times a.tcp_connect_backoff_times)
    else is_nil a.serial_devices || has_devices o a

-- The address parses, and the socket accepts it.
abbrev pub accepted : {E : Type 0} → (E → Bool) → Option E → Bool
accepted accepts none = false
accepted accepts (some ep) = accepts ep

-- Everything that the constructor needs.
abbrev pub constructs : {E : Type 0} → Outside E → Args → Bool
constructs o a =
    accepted o.binds (o.endpoint a.local_addr a.local_port)
    && accepted o.connects (o.endpoint a.remote_addr a.remote_port)
    && o.sets_receive_buffer_size a.so_rcv_buf
    && has_framing a
    && has_stream o a

has_value-framing_of : (now : ℕ) (a : Args) → has_value (framing_of now a) ≡ has_framing a
unfolding framing_of
has_value-framing_of now a = ground arith

positive_of : {A : Type 0} (xs : List A) → is_nil xs ≡ false → 0 < length xs
positive_of [] h = ground arith
positive_of (x ∷ xs) h = omega arith

some_injective : {A : Type 0} {x y : A} → some x ≡ some y → x ≡ y
some_injective e = ground arith

module _ {E : Type 0} (o : Outside E) where
  has_value-stream_of :
      (a : Args)
      → ((i : ℕ) (x : Setting) → o.refuses i x ≡ false)
      → has_value (stream_of o a) ≡ has_stream o a
  unfolding stream_of
  has_value-stream_of a h =
      let n = length a.serial_devices in
      let c = configure-throws o.accepts_char_size a n in
      elim (Option-cases (configure o.accepts_char_size a (new_settings n))) [
        | inl e ↦ elim (Option-cases (o.backoff_times a.tcp_connect_backoff_times)) [
          | inl t ↦ ground (arith, c)
          | inr (ts, t) ↦ ground (arith, c)
        ]
        | inr (ss, e) ↦ elim (Option-cases (o.backoff_times a.tcp_connect_backoff_times)) [
          | inl t ↦ ground (arith, c, start-accepted o.refuses h 0 ss)
          | inr (ts, t) ↦ ground (arith, c, start-accepted o.refuses h 0 ss)
        ]
      ]

  -- When no port refuses a setting, the constructor throws exactly when one of these fails: both
  -- addresses parse, the UDP socket opens at the local one, takes the size of its buffer and connects
  -- to the remote one, there is a delimiter or a known frame protocol, and the times of a TCP stream
  -- can be read or, for serial devices without a TCP address, every device opens and every list of
  -- settings fits them.
  pub construct-throws :
      (now : ℕ) (a : Args)
      → ((i : ℕ) (x : Setting) → o.refuses i x ≡ false)
      → has_value (construct o now a) ≡ constructs o a
  unfolding construct
  construct-throws now a h =
      let f = has_value-framing_of now a in
      let s = has_value-stream_of a h in
      elim (Option-cases (o.endpoint a.local_addr a.local_port)) [
        | inl e ↦ ground arith
        | inr (l, e) ↦ elim (Option-cases (o.endpoint a.remote_addr a.remote_port)) [
          | inl e2 ↦ ground arith
          | inr (r, e2) ↦ elim (Option-cases (framing_of now a)) [
            | inl e3 ↦ ground arith
            | inr (fr, e3) ↦ elim (Option-cases (stream_of o a)) [
              | inl e4 ↦ ground arith
              | inr (st, e4) ↦ ground arith
            ]
          ]
        ]
      ]

  -- The object has a TCP stream, or serial ports of so many devices; there is no third case.
  abbrev pub StreamFits : Args → Stream → Type 0
  StreamFits a (tcp_stream server ip port max opts) =
      (Text.◌==◌ a.tcp_addr "" ≡ false) × (server ≡ not a.tcp_is_client) × (max ≡ a.max_write_q_sz)
  StreamFits a (serial_stream manager settings) =
      (Text.◌==◌ a.tcp_addr "" ≡ true)
      × (manager.idle_port_idx_q ≡ indices 0 (length a.serial_devices))
      × (length settings ≡ length a.serial_devices)
      × (manager.max_write_q_sz ≡ a.max_write_q_sz)
  StreamFits a no_stream = ⊥

  tcp-StreamFits :
      (a : Args) (st : Stream)
      → Text.◌==◌ a.tcp_addr "" ≡ false
      → stream_of o a ≡ some st
      → StreamFits a st
  unfolding stream_of
  tcp-StreamFits a st t e = elim (Option-cases (o.backoff_times a.tcp_connect_backoff_times)) [
    | inl q ↦ ground arith
    | inr (times, q) ↦
        let made : stream_of o a
            ≡ some (
                tcp_stream (not a.tcp_is_client) a.tcp_addr a.tcp_port a.max_write_q_sz (record {
                  min_retry_time_ms = times.0;
                  max_retry_time_ms = times.1;
                  min_established_time_ms = times.2;
                })) =
          ground arith in
        subst (StreamFits a) (some_injective (sym made ∙ e)) (t, refl, refl)
  ]

  serial-StreamFits :
      (a : Args) (st : Stream)
      → Text.◌==◌ a.tcp_addr "" ≡ true
      → is_nil a.serial_devices ≡ false
      → stream_of o a ≡ some st
      → StreamFits a st
  unfolding stream_of new_manager
  serial-StreamFits a st t d e =
      let n = length a.serial_devices in
      elim (Option-cases (configure o.accepts_char_size a (new_settings n))) [
        | inl q ↦ ground arith
        | inr (ss, q) ↦
            let made : stream_of o a ≡ some (serial_stream (new_manager n a.max_write_q_sz) ss) =
              ground arith in
            subst (StreamFits a) (some_injective (sym made ∙ e)) (
              t,
              refl,
              length-configure o.accepts_char_size a (new_settings n) ss q ∙ length-new_settings n,
              refl,
            )
      ]

  construct-stream :
      (now : ℕ) (a : Args) (p : ProtoConv E)
      → construct o now a ≡ some p
      → stream_of o a ≡ some p.stream
  unfolding construct
  construct-stream now a p e = elim (Option-cases (o.endpoint a.local_addr a.local_port)) [
    | inl q ↦ ground arith
    | inr (l, q) ↦ elim (Option-cases (o.endpoint a.remote_addr a.remote_port)) [
      | inl q2 ↦ ground arith
      | inr (r, q2) ↦ elim (Option-cases (framing_of now a)) [
        | inl q3 ↦ ground arith
        | inr (fr, q3) ↦ elim (Option-cases (stream_of o a)) [
          | inl q4 ↦ ground arith
          | inr (st, q4) ↦ ground arith
        ]
      ]
    ]
  ]

  -- When the command line passes the checks and the constructor does not throw, there is a stream to
  -- write to: a TCP stream when a TCP address is given, else serial ports, of which there is one at
  -- least; they are the devices given, all idle, with settings for each, and the queue's limit is
  -- the one given.
  pub construct-StreamFits :
      (parses : String → Bool) (now : ℕ) (a : Args) (p : ProtoConv E)
      → check_args parses a ≡ true
      → construct o now a ≡ some p
      → StreamFits a p.stream × ((Text.◌==◌ a.tcp_addr "" ≡ true) → 0 < length a.serial_devices)
  unfolding construct check_args
  construct-StreamFits parses now a p h e =
      let st : stream_of o a ≡ some p.stream = construct-stream now a p e in
      elim (Bool-cases (Text.◌==◌ a.tcp_addr "")) [
        | inl t ↦ (
          serial-StreamFits a p.stream t (ground arith) st,
          λ _. positive_of a.serial_devices (ground arith),
        )
        | inr t ↦ (tcp-StreamFits a p.stream t st, λ c. ground arith)
      ]
