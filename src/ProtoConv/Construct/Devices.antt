-- ===== src/ProtoConv/Construct/Devices.antt =====
-- src/ProtoConv/ProtoConv.cpp: the settings that the constructor gives to each serial device.
use Prim.Native.String.{String}
use mini_plex.Base.{
  ℕ, ◌%◌, ◌^◌, ◌≡◌, ◌<◌, refl, ap, ◌∙◌, inl, inr, Bool, true, ◌&&◌, List, [], ◌∷◌, length,
  get_elem?, Option, some, ◌>>=◌, has_value, arith, Option-cases,
}
use mini_plex.ProtoConv.Args.{Args}
use mini_plex.ProtoConv.Construct.{configure}
use mini_plex.ProtoConv.Serial.Settings.{
  SerialDeviceSettings, default_settings, new_settings, put_baud_rate, put_character_size,
  put_flow_control, put_stop_bits, set_baud_rate, set_char_size, set_flow_control, set_stop_bits,
  when_given, set_each,
}
use mini_plex.ProtoConv.Serial.PerPort.{
  all_ok, fits, has_value-then, has_value-last, put_when, length-when_given, get_elem?-when_given,
  length-new_settings, get_elem?-new_settings,
}

-- The settings of one device, for the values at its index.
abbrev pub device : (ℕ → Bool) → Args → ℕ → Option SerialDeviceSettings
device accepts a i =
    some default_settings
    >>= put_when put_baud_rate a.serial_baud_rates i
    >>= put_when (put_character_size accepts) a.serial_char_sizes i
    >>= put_when put_flow_control a.serial_flow_controls i
    >>= put_when put_stop_bits a.serial_stop_bits i

-- What `configure` does after the baud rates, after the sizes, and last.
abbrev then_stop_bits : Args → List SerialDeviceSettings → Option (List SerialDeviceSettings)
then_stop_bits a s = when_given set_stop_bits a.serial_stop_bits s

abbrev then_flow_controls : Args → List SerialDeviceSettings → Option (List SerialDeviceSettings)
then_flow_controls a s = when_given set_flow_control a.serial_flow_controls s >>= then_stop_bits a

abbrev then_sizes :
    (ℕ → Bool) → Args → List SerialDeviceSettings → Option (List SerialDeviceSettings)
then_sizes accepts a s =
    when_given (set_char_size accepts) a.serial_char_sizes s >>= then_flow_controls a

-- One setter, before the rest.
then_device :
    {A : Type 0} (put : A → SerialDeviceSettings → Option SerialDeviceSettings) (values : List A)
    (k : List SerialDeviceSettings → Option (List SerialDeviceSettings))
    (ss ts : List SerialDeviceSettings) (i : ℕ) (d : Option SerialDeviceSettings)
    → (when_given (set_each put) values ss >>= k) ≡ some ts
    → get_elem? ss i ≡ d
    → (us : List SerialDeviceSettings) × (k us ≡ some ts)
      × (get_elem? us i ≡ (d >>= put_when put values i))
then_device put values k ss ts i d e g = elim (Option-cases (when_given (set_each put) values ss)) [
  | inl q ↦ ground arith
  | inr (us, q) ↦ (
    us,
    ground arith,
    get_elem?-when_given put values ss us i q ∙ ap (λ x. x >>= put_when put values i) g,
  )
]

-- When the constructor has configured the devices, each of them has the settings that the lists
-- name at its index: a list that is not given leaves the default, and the parity is always the
-- default.
pub configure-device :
    (accepts : ℕ → Bool) (a : Args) (num_ports : ℕ) (ss : List SerialDeviceSettings) (i : ℕ)
    → configure accepts a (new_settings num_ports) ≡ some ss
    → i < num_ports
    → get_elem? ss i ≡ device accepts a i
unfolding configure set_baud_rate set_char_size set_flow_control set_stop_bits
configure-device accepts a n ss i e h =
    let (s1, e1, g1) =
      then_device put_baud_rate a.serial_baud_rates (then_sizes accepts a) (new_settings n) ss i _ e
        (get_elem?-new_settings n i h) in
    let (s2, e2, g2) =
      then_device (put_character_size accepts) a.serial_char_sizes (then_flow_controls a) s1 ss i _
        e1 g1 in
    let (s3, e3, g3) =
      then_device put_flow_control a.serial_flow_controls (then_stop_bits a) s2 ss i _ e2 g2 in
    get_elem?-when_given put_stop_bits a.serial_stop_bits s3 ss i e3
    ∙ ap (λ x. x >>= put_when put_stop_bits a.serial_stop_bits i) g3

length-then :
    {A : Type 0} (put : A → SerialDeviceSettings → Option SerialDeviceSettings) (values : List A)
    (k : List SerialDeviceSettings → Option (List SerialDeviceSettings))
    (ss ts : List SerialDeviceSettings)
    → (when_given (set_each put) values ss >>= k) ≡ some ts
    → (us : List SerialDeviceSettings) × (k us ≡ some ts) × (length us ≡ length ss)
length-then put values k ss ts e = elim (Option-cases (when_given (set_each put) values ss)) [
  | inl q ↦ ground arith
  | inr (us, q) ↦ (us, ground arith, length-when_given put values ss us q)
]

pub length-configure :
    (accepts : ℕ → Bool) (a : Args) (ss ts : List SerialDeviceSettings)
    → configure accepts a ss ≡ some ts
    → length ts ≡ length ss
unfolding configure set_baud_rate set_char_size set_flow_control set_stop_bits
length-configure accepts a ss ts e =
    let (s1, e1, l1) =
      length-then put_baud_rate a.serial_baud_rates (then_sizes accepts a) ss ts e in
    let (s2, e2, l2) =
      length-then (put_character_size accepts) a.serial_char_sizes (then_flow_controls a) s1 ts
        e1 in
    let (s3, e3, l3) =
      length-then put_flow_control a.serial_flow_controls (then_stop_bits a) s2 ts e2 in
    length-when_given put_stop_bits a.serial_stop_bits s3 ts e3 ∙ l3 ∙ l2 ∙ l1

always_ok : {A : Type 0} (values : List A) → all_ok (λ a. true) values ≡ true
always_ok [] = refl
always_ok (a ∷ values) = always_ok values

-- The constructor can configure its devices, rather than throw, exactly when each list that is given
-- has as many values as there are devices and the library accepts every size of a character.
pub configure-throws :
    (accepts : ℕ → Bool) (a : Args) (num_ports : ℕ)
    → has_value (configure accepts a (new_settings num_ports)) ≡ (
        fits num_ports a.serial_baud_rates
        && fits num_ports a.serial_char_sizes
        && all_ok (λ cs. accepts (cs % 2 ^ 32)) a.serial_char_sizes
        && fits num_ports a.serial_flow_controls
        && fits num_ports a.serial_stop_bits)
unfolding configure set_baud_rate set_char_size set_flow_control set_stop_bits
configure-throws accepts a n =
    let yes : String → Bool = λ x. true in
    let any : ℕ → Bool = λ x. true in
    let sizes : ℕ → Bool = λ cs. accepts (cs % 2 ^ 32) in
    let h3 = has_value-last put_stop_bits yes (λ x s. refl) n a.serial_stop_bits in
    let h2 =
      has_value-then put_flow_control yes (λ x s. refl) n a.serial_flow_controls (then_stop_bits a)
        _ h3 in
    let h1 =
      has_value-then (put_character_size accepts) sizes (λ x s. ground arith) n a.serial_char_sizes
        (then_flow_controls a) _ h2 in
    has_value-then put_baud_rate any (λ x s. refl) n a.serial_baud_rates (then_sizes accepts a) _ h1
      (new_settings n) (length-new_settings n)
    ∙ ground (
      arith,
      always_ok a.serial_baud_rates,
      always_ok a.serial_flow_controls,
      always_ok a.serial_stop_bits,
    )
