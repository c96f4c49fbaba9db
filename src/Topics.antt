-- ===== src/Topics.antt =====
-- internal/bridge/topics.go: topics and payloads. Floating-point numbers and JSON are a parameter.
pub mod Payload
pub mod Names
use mqtt_linak.Base.{
  ℕ, ◌≡◌, ◌≤◌, ◌^◌, Bool, true, false, ◌||◌, ◌&&◌, not, Option, none, some, List, [], ◌∷◌, Text,
  codes, ℤ, pos, Result, ok, err, ◌>>=◌, ◌==◌, ltb_ℤ, if◌then◌else◌, is_nil, trim, trim_space,
  has_prefix, join, itoa, pos_part, neg_part, ltb, leb, digits_value,
}

abbrev pub leaf_height : Text
leaf_height = codes "height"

abbrev pub leaf_base_height : Text
leaf_base_height = codes "base_height"

abbrev pub leaf_availability : Text
leaf_availability = codes "availability"

unfoldable pub command_topic : Text → Text → Text → Text
unfolding join
command_topic base desk_id leaf = join (base ∷ desk_id ∷ leaf ∷ []) (codes "/")

unfoldable pub metric_topic : Text → Text → Text → Text
unfolding join
metric_topic base desk_id leaf = join (base ∷ desk_id ∷ leaf ∷ []) (codes "/")

abbrev pub max_tenths_mm : ℕ
max_tenths_mm = 65535

-- What the standard library does with float64 and with JSON: `strconv.ParseFloat` and
-- `json.Unmarshal` into a map of raw messages (`none` is an error), `math.IsNaN`, `math.IsInf`,
-- `math.Round` of a finite number, and what the conversion to int makes of an integer that int64
-- does not have, which the language leaves to the implementation.
pub record Numbers (F : Type 0) : Type 0 where
  pub parse_float : Text → Option F
  pub is_nan : F → Bool
  pub is_inf : F → Bool
  pub round : F → ℤ
  pub overflow : ℤ → ℤ
  pub unmarshal : Text → Option (Text → Option Text)

pub data PayloadError : Type 0 where
  empty_payload not_json no_field not_a_number not_finite : PayloadError
  field_not_a_number : Text → PayloadError
  out_of_range : ℤ → PayloadError

-- The cutsets of `strings.Trim`.
abbrev pub is_quote : ℕ → Bool
is_quote c = c == b'"' || c == b'\''

abbrev pub is_double_quote : ℕ → Bool
is_double_quote c = c == b'"'

abbrev pub payload_keys : List Text
payload_keys = codes "value" ∷ codes "height" ∷ codes "position" ∷ codes "base_height" ∷ []

module _ {F : Type 0} (nums : Numbers F) where
  open nums use {parse_float, is_nan, is_inf, round, overflow, unmarshal}

  unfoldable pub parse_number : Text → Option F
  parse_number s =
      let inner = trim_space (trim is_quote s) in if is_nil inner then none else parse_float inner

  -- The conversion `int(x)` of a float64 that is an integer.
  unfoldable pub to_int : ℤ → ℤ
  to_int x = if ltb (pos_part x) (2 ^ 63) && leb (neg_part x) (2 ^ 63) then x else overflow x

  unfoldable pub check_range : F → Result PayloadError ℕ
  unfolding to_int
  check_range v =
      let n = to_int (round v) in
      if is_nan v || is_inf v
      then err not_finite
      else if ltb_ℤ n (pos 0) || ltb_ℤ (pos max_tenths_mm) n
      then err (out_of_range n)
      else ok (pos_part n)

  -- The loop over the keys.
  unfoldable pub first_field : (Text → Option Text) → List Text → Result PayloadError ℕ
  unfolding parse_number check_range
  first_field obj [] = err no_field
  first_field obj (key ∷ keys) = elim (obj key) [
    | none ↦ first_field obj keys
    | some raw ↦ elim (parse_number (trim is_double_quote (trim_space raw))) [
      | none ↦ err (field_not_a_number key)
      | some v ↦ check_range v
    ]
  ]

  unfoldable pub parse_object : Text → Result PayloadError ℕ
  unfolding first_field
  parse_object s =
      if has_prefix s (codes "{")
      then elim (unmarshal s) [ none ↦ err not_json | some obj ↦ first_field obj payload_keys ]
      else err not_a_number

  unfoldable pub parse_tenths_mm : Text → Result PayloadError ℕ
  unfolding parse_number check_range parse_object
  parse_tenths_mm payload =
      let s = trim_space payload in
      if is_nil s
      then err empty_payload
      else elim (parse_number s) [ some v ↦ check_range v | none ↦ parse_object s ]

unfoldable pub format_tenths_mm : ℤ → Text
unfolding itoa
format_tenths_mm v = itoa v
