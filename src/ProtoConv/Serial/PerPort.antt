-- ===== src/ProtoConv/Serial/PerPort.antt =====
-- src/ProtoConv/SerialPortsManager.cpp: what the setters do to each port, and when they throw.
use mini_plex.Base.{
  ℕ, zero, suc, ◌≡◌, ◌<◌, refl, ap, ◌∙◌, inl, inr, Bool, true, ◌&&◌, ◌||◌, List, [], ◌∷◌, length,
  ◌==◌, get_elem?, if◌then◌else◌, Option, some, ◌>>=◌, has_value, is_nil, arith, Option-cases,
  Bool-cases,
}
use mini_plex.ProtoConv.Serial.Settings.{
  SerialDeviceSettings, default_settings, new_settings, put_each, set_each, when_given,
}

pub length-new_settings : (n : ℕ) → length (new_settings n) ≡ n
unfolding new_settings
length-new_settings zero = refl
length-new_settings (suc n) = ap suc (length-new_settings n)

pub get_elem?-new_settings :
    (n i : ℕ) → i < n → get_elem? (new_settings n) i ≡ some default_settings
unfolding new_settings
get_elem?-new_settings zero i h = ground arith
get_elem?-new_settings (suc n) zero h = refl
get_elem?-new_settings (suc n) (suc i) h = get_elem?-new_settings n i (omega arith)

abbrev pub all_ok : {A : Type 0} → (A → Bool) → List A → Bool
all_ok ok [] = true
all_ok ok (a ∷ values) = ok a && all_ok ok values

-- The list is not given, or has a value for each port.
abbrev pub fits : {A : Type 0} → ℕ → List A → Bool
fits num_ports values = is_nil values || (length values == num_ports)

module _ {A : Type 0} (put : A → SerialDeviceSettings → Option SerialDeviceSettings) where
  -- A setter of one port, for the value at its index.
  abbrev pub put_at : List A → ℕ → SerialDeviceSettings → Option SerialDeviceSettings
  put_at values i s = get_elem? values i >>= λ a. put a s

  length-put_each :
      (values : List A) (ss ts : List SerialDeviceSettings)
      → put_each put values ss ≡ some ts
      → length values ≡ length ss
      → length ts ≡ length ss
  unfolding put_each
  length-put_each [] [] ts e l = ground arith
  length-put_each [] (s ∷ ss) ts e l = ground arith
  length-put_each (a ∷ values) [] ts e l = ground arith
  length-put_each (a ∷ values) (s ∷ ss) ts e l = elim (Option-cases (put a s)) [
    | inl p ↦ ground arith
    | inr (t, p) ↦ elim (Option-cases (put_each put values ss)) [
      | inl q ↦ ground arith
      | inr (rest, q) ↦ ground (arith, length-put_each values ss rest q)
    ]
  ]

  get_elem?-put_each :
      (values : List A) (ss ts : List SerialDeviceSettings) (i : ℕ)
      → put_each put values ss ≡ some ts
      → length values ≡ length ss
      → get_elem? ts i ≡ (get_elem? ss i >>= put_at values i)
  unfolding put_each
  get_elem?-put_each [] [] ts i e l = ground arith
  get_elem?-put_each [] (s ∷ ss) ts i e l = ground arith
  get_elem?-put_each (a ∷ values) [] ts i e l = ground arith
  get_elem?-put_each (a ∷ values) (s ∷ ss) ts zero e l = elim (Option-cases (put a s)) [
    | inl p ↦ ground arith
    | inr (t, p) ↦ elim (Option-cases (put_each put values ss)) [
      | inl q ↦ ground arith
      | inr (rest, q) ↦ ground arith
    ]
  ]
  get_elem?-put_each (a ∷ values) (s ∷ ss) ts (suc i) e l = elim (Option-cases (put a s)) [
    | inl p ↦ ground arith
    | inr (t, p) ↦ elim (Option-cases (put_each put values ss)) [
      | inl q ↦ ground arith
      | inr (rest, q) ↦ ground (arith, get_elem?-put_each values ss rest i q)
    ]
  ]

  -- The same when the setter is called only for a list that is not empty.
  abbrev pub put_when : List A → ℕ → SerialDeviceSettings → Option SerialDeviceSettings
  put_when values i s = if is_nil values then some s else put_at values i s

  set_each-some :
      (values : List A) (ss ts : List SerialDeviceSettings)
      → set_each put values ss ≡ some ts
      → (put_each put values ss ≡ some ts) × (length values ≡ length ss)
  unfolding set_each
  set_each-some values ss ts e = elim (Bool-cases (length values == length ss)) [
    | inl c ↦ (ground arith, ground arith)
    | inr c ↦ (ground arith, ground arith)
  ]

  pub length-when_given :
      (values : List A) (ss ts : List SerialDeviceSettings)
      → when_given (set_each put) values ss ≡ some ts
      → length ts ≡ length ss
  length-when_given [] ss ts e = ground arith
  length-when_given (a ∷ values) ss ts e =
      let (p, l) = set_each-some (a ∷ values) ss ts e in length-put_each (a ∷ values) ss ts p l

  pub get_elem?-when_given :
      (values : List A) (ss ts : List SerialDeviceSettings) (i : ℕ)
      → when_given (set_each put) values ss ≡ some ts
      → get_elem? ts i ≡ (get_elem? ss i >>= put_when values i)
  get_elem?-when_given [] ss ts i e = elim (Option-cases (get_elem? ss i)) [
    | inl q ↦ ground arith
    | inr (s, q) ↦ ground arith
  ]
  get_elem?-when_given (a ∷ values) ss ts i e =
      let (p, l) = set_each-some (a ∷ values) ss ts e in get_elem?-put_each (a ∷ values) ss ts i p l

  module _ (ok : A → Bool)
      (put_ok : (a : A) (s : SerialDeviceSettings) → has_value (put a s) ≡ ok a) where
    has_value-put_each :
        (values : List A) (ss : List SerialDeviceSettings)
        → length values ≡ length ss
        → has_value (put_each put values ss) ≡ all_ok ok values
    unfolding put_each
    has_value-put_each [] [] l = refl
    has_value-put_each [] (s ∷ ss) l = refl
    has_value-put_each (a ∷ values) [] l = ground arith
    has_value-put_each (a ∷ values) (s ∷ ss) l = elim (Option-cases (put a s)) [
      | inl p ↦ ground (arith, put_ok a s)
      | inr (t, p) ↦ elim (Option-cases (put_each put values ss)) [
        | inl q ↦ ground (arith, put_ok a s, has_value-put_each values ss)
        | inr (rest, q) ↦ ground (arith, put_ok a s, has_value-put_each values ss)
      ]
    ]

    -- A list that is not empty has a value for each port, and the library accepts each value.
    pub has_value-when_given :
        (values : List A) (ss : List SerialDeviceSettings)
        → has_value (when_given (set_each put) values ss)
          ≡ (fits (length ss) values && all_ok ok values)
    unfolding set_each
    has_value-when_given [] ss = refl
    has_value-when_given (a ∷ values) ss = elim (Bool-cases (length (a ∷ values) == length ss)) [
      | inl c ↦ ground (arith, has_value-put_each (a ∷ values) ss)
      | inr c ↦ ground arith
    ]

    pub has_value-last :
        (n : ℕ) (values : List A) (ss : List SerialDeviceSettings)
        → length ss ≡ n
        → has_value (when_given (set_each put) values ss) ≡ (fits n values && all_ok ok values)
    has_value-last n values ss l =
        has_value-when_given values ss ∙ ap (λ x. fits x values && all_ok ok values) l

    -- One setter, before the rest.
    pub has_value-then :
        (n : ℕ) (values : List A)
        (k : List SerialDeviceSettings → Option (List SerialDeviceSettings)) (rest : Bool)
        → ((us : List SerialDeviceSettings) → length us ≡ n → has_value (k us) ≡ rest)
        → (ss : List SerialDeviceSettings) → length ss ≡ n
        → has_value (when_given (set_each put) values ss >>= k)
          ≡ ((fits n values && all_ok ok values) && rest)
    has_value-then n values k rest h ss l =
        let v = has_value-last n values ss l in
        elim (Option-cases (when_given (set_each put) values ss)) [
          | inl q ↦ ground (arith, v)
          | inr (us, q) ↦ ground (arith, v, h us, length-when_given values ss us q)
        ]
