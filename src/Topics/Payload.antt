-- ===== src/Topics/Payload.antt =====
-- internal/bridge/topics.go: what a command payload is read as.
use mqtt_linak.Base.{
  ℕ, ◌≤◌, ◌≡◌, ◌≢◌, ◌⊎◌, ◌^◌, ◌-◌, ◌==◌, ◌||◌, ℤ, negsuc, Bool-cases, inl, inr, refl, ap, ◌∙◌,
  false, true, ◌↔◌, Option, none, some, has_prefix, codes, Option-cases, List, [], ◌∷◌, Text, pos,
  ok, arith, is_nil, is_nil_iff, is_space, trim, trim_space, itoa, digits_value, digits_value-itoa,
  itoa-IsDigit, itoa-ne-nil, IsDigit, trim-digits, trim-nil, eq-false,
}
use mqtt_linak.Topics.{
  max_tenths_mm, Numbers, is_quote, is_double_quote, payload_keys, parse_number, to_int,
  check_range, first_field, parse_object, parse_tenths_mm, format_tenths_mm,
}

space-digit : (c : ℕ) → IsDigit c → is_space c ≡ false
unfolding is_space
space-digit c h = ground arith

quote-digit : (c : ℕ) → IsDigit c → is_quote c ≡ false
quote-digit c h = ground arith

module _ {F : Type 0} (nums : Numbers F) where
  open nums use {parse_float, is_nan, is_inf, round, overflow, unmarshal}

  -- The double nearest to a natural number below 2 ^ 16 is that number.
  abbrev pub ReadsDecimals : Type 0
  ReadsDecimals =
      (s : Text) (n : ℕ)
      → digits_value s ≡ some n
      → n ≤ max_tenths_mm
      → (v : F) × (parse_float s ≡ some v)
        × (is_nan v ≡ false)
        × (is_inf v ≡ false)
        × (round v ≡ pos n)

  -- The text of the first of the keys that an object has.
  pub data First (obj : Text → Option Text) : List Text → Text → Type 0 where
    here :
        {key : Text} {keys : List Text} {raw : Text}
        → obj key ≡ some raw
        → First obj (key ∷ keys) raw
    later :
        {key : Text} {keys : List Text} {raw : Text}
        → obj key ≡ none
        → First obj keys raw
        → First obj (key ∷ keys) raw

  -- A text, less the quotes around it and then the space inside them.
  abbrev unquoted : Text → Text
  unquoted s = trim_space (trim (λ c. c == b'"' || c == b'\'') s)

  -- The text is a number: what `strconv.ParseFloat` makes of it, less quotes and space, if that is
  -- not empty.
  abbrev pub IsNumber : Text → F → Type 0
  IsNumber s v = (unquoted s ≢ []) × (parse_float (unquoted s) ≡ some v)

  abbrev pub IsNoNumber : Text → Type 0
  IsNoNumber s = (unquoted s ≡ []) ⊎ (parse_float (unquoted s) ≡ none)

  -- The number that a text without space around it stands for: itself, or if it is no number but a
  -- JSON object, the value of the first of the four keys that it has.
  pub data Denotes (s : Text) (v : F) : Type 0 where
    bare : IsNumber s v → Denotes s v
    field :
        {obj : Text → Option Text} {raw : Text}
        → IsNoNumber s
        → has_prefix s (codes "{") ≡ true
        → unmarshal s ≡ some obj
        → First obj
            (codes "value" ∷ codes "height" ∷ codes "position" ∷ codes "base_height" ∷ [])
            raw
        → IsNumber (trim (λ c. c == b'"') (trim_space raw)) v
        → Denotes s v

  parse_number-some : (s : Text) (v : F) → (parse_number nums s ≡ some v) ↔ IsNumber s v
  unfolding parse_number
  parse_number-some s v = (
    λ h. ((λ e. absurd (ground (arith, (is_nil_iff (unquoted s)).1 e))), ground arith),
    λ (n, e). rw (eq-false (is_nil (unquoted s)) (λ y. n ((is_nil_iff _).0 y))) e,
  )

  parse_number-none : (s : Text) → (parse_number nums s ≡ none) ↔ IsNoNumber s
  unfolding parse_number
  parse_number-none s = (to, from)
    where
      to : parse_number nums s ≡ none → IsNoNumber s
      to h = elim (Bool-cases (is_nil (unquoted s))) [
        | inl y ↦ inl ((is_nil_iff _).0 y)
        | inr n ↦ inr (rw (parse_number, n) at h)
      ]

      from : IsNoNumber s → parse_number nums s ≡ none
      from (inl e) = rw ((is_nil_iff (unquoted s)).1 e) refl
      from (inr e) = ground (arith, e)

  -- A finite number that rounds to a height which 16 bits can carry.
  abbrev pub Carries : F → ℕ → Type 0
  Carries v n = (is_nan v ≡ false) × (is_inf v ≡ false) × (round v ≡ pos n) × (n ≤ max_tenths_mm)

  -- An integer that int64 does not have is not made into such a height: the conversion gives the
  -- least or the greatest int64, as it does on amd64 and arm64.
  abbrev pub Saturates : Type 0
  Saturates = (x : ℤ) → (overflow x ≡ pos (2 ^ 63 - 1)) ⊎ (overflow x ≡ negsuc (2 ^ 63 - 1))

  to_int-small : (x : ℤ) (n : ℕ) → n ≤ max_tenths_mm → x ≡ pos n → to_int nums x ≡ pos n
  unfolding to_int
  to_int-small x n le e = rw e (ground arith)

  small-to_int : Saturates → (x : ℤ) (n : ℕ) → n ≤ max_tenths_mm → to_int nums x ≡ pos n → x ≡ pos n
  unfolding to_int
  small-to_int sat x n le e = ground (arith, sat x)

  -- The same of what the conversion gives.
  abbrev Converts : F → ℕ → Type 0
  Converts v n =
      (is_nan v ≡ false)
      × (is_inf v ≡ false)
      × (to_int nums (round v) ≡ pos n)
      × (n ≤ max_tenths_mm)

  check_range-Converts : (v : F) (n : ℕ) → check_range nums v ≡ ok n → Converts v n
  unfolding check_range
  check_range-Converts v n h = ground arith

  Converts-check_range : (v : F) (n : ℕ) → Converts v n → check_range nums v ≡ ok n
  unfolding check_range
  Converts-check_range v n (a, b, r, le) = rw (a, b, r) (ground arith)

  first_field-First :
      (obj : Text → Option Text) (keys : List Text) (n : ℕ)
      → first_field nums obj keys ≡ ok n
      → (raw : Text) × (v : F) × First obj keys raw
        × (parse_number nums (trim is_double_quote (trim_space raw)) ≡ some v)
        × Converts v n
  unfolding first_field
  first_field-First obj [] n h = absurd (cc)
  first_field-First obj (key ∷ keys) n h = elim (Option-cases (obj key)) [
    | inl e ↦
        let (raw, v, f, p, c) = first_field-First obj keys n (rw (e, first_field) at h) in
        (raw, v, later e f, p, c)
    | inr (raw, e) ↦
        elim (Option-cases (parse_number nums (trim is_double_quote (trim_space raw)))) [
          | inl p ↦ absurd (ground arith)
          | inr (v, p) ↦ (raw, v, here e, p, check_range-Converts v n (ground arith))
        ]
  ]

  First-first_field :
      (obj : Text → Option Text) (keys : List Text) (raw : Text) (v : F) (n : ℕ)
      → First obj keys raw
      → parse_number nums (trim is_double_quote (trim_space raw)) ≡ some v
      → Converts v n
      → first_field nums obj keys ≡ ok n
  unfolding first_field
  First-first_field obj [] raw v n f p c = elim f [ ]
  First-first_field obj (key ∷ keys) raw v n (here e) p c =
      rw (e, first_field, p) (Converts-check_range v n c)
  First-first_field obj (key ∷ keys) raw v n (later e f) p c =
      rw (e, first_field) (First-first_field obj keys raw v n f p c)

  parse-Denotes :
      (payload : Text) (n : ℕ)
      → parse_tenths_mm nums payload ≡ ok n
      → (v : F) × Denotes (trim_space payload) v × Converts v n
  unfolding parse_tenths_mm parse_object
  parse-Denotes payload n h = elim (Option-cases (parse_number nums (trim_space payload))) [
    | inr (v, p) ↦ (v, bare ((parse_number-some _ v).0 p), check_range-Converts v n (ground arith))
    | inl p ↦ elim (Option-cases (unmarshal (trim_space payload))) [
      | inl e ↦ absurd (ground arith)
      | inr (obj, e) ↦
          let (raw, v, f, q, c) = first_field-First obj payload_keys n (ground arith) in
          (v, field ((parse_number-none _).0 p) (ground arith) e f ((parse_number-some _ v).0 q), c)
    ]
  ]

  bare-not-nil : (s : Text) (v : F) → parse_number nums s ≡ some v → is_nil s ≡ false
  unfolding parse_number is_nil trim_space
  bare-not-nil [] v p =
      let inner : trim is_space (trim is_quote []) ≡ [] =
        ap (trim is_space) ((trim-nil is_quote []).1 tt) ∙ (trim-nil is_space []).1 tt in
      absurd (ground (arith, inner))
  bare-not-nil (c ∷ s) v p = refl

  prefixed-not-nil : (s : Text) → has_prefix s (codes "{") ≡ true → is_nil s ≡ false
  unfolding has_prefix is_nil
  prefixed-not-nil [] p = absurd (cc)
  prefixed-not-nil (c ∷ s) p = refl

  Denotes-parse :
      (payload : Text) (n : ℕ) (v : F)
      → Denotes (trim_space payload) v
      → Converts v n
      → parse_tenths_mm nums payload ≡ ok n
  unfolding parse_tenths_mm parse_object
  Denotes-parse payload n v (bare d) c =
      let p = (parse_number-some _ v).1 d in
      rw (bare-not-nil (trim_space payload) v p, p) (Converts-check_range v n c)
  Denotes-parse payload n v (field {obj} {raw} d b e f q) c =
      let p = (parse_number-none _).1 d in
      rw (prefixed-not-nil (trim_space payload) b, p, b, e)
        (First-first_field obj payload_keys raw v n f ((parse_number-some _ v).1 q) c)

  -- What is accepted is a height that 16 bits can carry.
  pub parse_tenths_mm-le :
      (payload : Text) (n : ℕ) → parse_tenths_mm nums payload ≡ ok n → n ≤ max_tenths_mm
  parse_tenths_mm-le payload n h =
      let (v, d, (finite, bounded, rounds, le)) = parse-Denotes payload n h in le

  -- Where the conversion to int saturates, a payload is read as a height exactly when it denotes a
  -- number that is finite and rounds to that height, and the height is at most 65535: nothing is cut
  -- off or wrapped around, and nothing that denotes such a number is refused.
  pub parse_tenths_mm_iff :
      Saturates
      → (payload : Text) (n : ℕ)
      → (parse_tenths_mm nums payload ≡ ok n)
        ↔ ((v : F) × Denotes (trim_space payload) v × Carries v n)
  parse_tenths_mm_iff sat payload n = (
    λ h.
        let (v, d, (a, b, r, le)) = parse-Denotes payload n h in
        (v, d, (a, b, small-to_int sat (round v) n le r, le)),
    λ (v, d, (a, b, r, le)). Denotes-parse payload n v d (a, b, to_int-small (round v) n le r, le),
  )

  itoa-plain : (n : ℕ) → trim_space (itoa (pos n)) ≡ itoa (pos n)
  unfolding trim_space
  itoa-plain n = trim-digits is_space space-digit (itoa (pos n)) (itoa-IsDigit n)

  itoa-unquoted : (n : ℕ) → trim is_quote (itoa (pos n)) ≡ itoa (pos n)
  itoa-unquoted n = trim-digits is_quote quote-digit (itoa (pos n)) (itoa-IsDigit n)

  itoa-not-nil : (n : ℕ) → is_nil (itoa (pos n)) ≡ false
  itoa-not-nil n = eq-false _ (λ y. itoa-ne-nil n ((is_nil_iff _).0 y))

  parse_number-itoa :
      (n : ℕ) (v : F)
      → parse_float (itoa (pos n)) ≡ some v
      → parse_number nums (itoa (pos n)) ≡ some v
  unfolding parse_number
  parse_number-itoa n v f = rw (itoa-unquoted n, itoa-plain n, itoa-not-nil n) f

  -- The payload of a height metric is accepted as a command, and means the same height: if
  -- `strconv.ParseFloat` reads decimals exactly, for every height that the desk's 16 bits can carry.
  pub parse_tenths_mm-format_tenths_mm :
      ReadsDecimals
      → (n : ℕ) → n ≤ max_tenths_mm
      → parse_tenths_mm nums (format_tenths_mm (pos n)) ≡ ok n
  unfolding parse_tenths_mm format_tenths_mm
  parse_tenths_mm-format_tenths_mm reads n le =
      let (v, f, a, b, r) = reads (itoa (pos n)) n (digits_value-itoa n) le in
      rw (itoa-plain n, itoa-not-nil n, parse_number-itoa n v f)
        (Converts-check_range v n (a, b, to_int-small (round v) n le r, le))
