-- ===== src/Base/Decimal.antt =====
-- Decimal numbers: strconv.Atoi and strconv.Itoa.
use Prim.Native.Nat.{ℕ, zero, suc, ◌+◌, ◌-◌, ◌*◌, ◌/◌, ◌%◌, ◌^◌, ◌≤◌, ◌<◌}
use mathlib.Core.Path.{◌≡◌, refl, sym, ap, ◌∙◌}
use mathlib.Core.Logic.{◌≢◌, inl, inr}
use mathlib.Core.Bool.{Bool, true, false, ◌&&◌}
use mathlib.Core.Option.{Option, none, some}
use mathlib.Core.List.{[], ◌∷◌, ◌++◌}
use native.Mathlib.Omega.{arith}
use mqtt_linak.Base.Tests.{ltb, leb, ◌==◌, if◌then◌else◌, Bool-cases}
use mqtt_linak.Base.Lists.{All}
use mqtt_linak.Base.Texts.{Text, trim}
use mqtt_linak.Base.Trim.{trim_id}
use mqtt_linak.Base.Int.{ℤ, pos, negsuc, sub_ℕ}

-- `strconv.Atoi` on the digits: the value, unless a byte is no digit. A value out of the range of
-- int64 is an error too, and is cut off by the caller.
unfoldable pub scan_digits : Text → ℕ → Option ℕ
scan_digits [] n = some n
scan_digits (c ∷ s) n =
    if leb b'0' c && leb c b'9' then scan_digits s (n * 10 + (c - b'0')) else none

unfoldable pub digits_value : Text → Option ℕ
unfolding scan_digits
digits_value [] = none
digits_value (c ∷ s) = scan_digits (c ∷ s) 0

-- A positive or a negative number in the range of int64.
abbrev in_range : Bool → Option ℕ → Option ℤ
in_range minus none = none
in_range true (some n) = if leb n (2 ^ 63) then some (sub_ℕ 0 n) else none
in_range false (some n) = if ltb n (2 ^ 63) then some (pos n) else none

-- `strconv.Atoi`
unfoldable pub atoi : Text → Option ℤ
unfolding digits_value
atoi [] = none
atoi (c ∷ s) =
    if c == b'-'
    then in_range true (digits_value s)
    else if c == b'+'
    then in_range false (digits_value s)
    else in_range false (digits_value (c ∷ s))

-- The digits of `n` before `out`, the last digit first; a round for each digit.
unfoldable pub digits_of : ℕ → ℕ → Text → Text
digits_of zero n out = out
digits_of (suc f) n out =
    let more = digits_of f (n / 10) ((b'0' + n % 10) ∷ out) in
    if n / 10 == 0 then (b'0' + n % 10) ∷ out else more

-- `strconv.Itoa`; a number has fewer digits than its successor.
unfoldable pub itoa : ℤ → Text
unfolding digits_of
itoa (pos n) = digits_of (suc n) n []
itoa (negsuc n) = b'-' ∷ digits_of (suc (suc n)) (suc n) []

abbrev pub IsDigit : ℕ → Type 0
IsDigit c = (b'0' ≤ c) × (c ≤ b'9')

digits_of-IsDigit : (f n : ℕ) (out : Text) → All IsDigit out → All IsDigit (digits_of f n out)
unfolding digits_of
digits_of-IsDigit zero n out h = h
digits_of-IsDigit (suc f) n out h = elim (Bool-cases (n / 10 == 0)) [
  | inl e ↦ rw e (digit, h)
  | inr e ↦ rw e (digits_of-IsDigit f (n / 10) ((b'0' + n % 10) ∷ out) (digit, h))
]
  where
    digit : IsDigit (b'0' + n % 10)
    digit = omega arith

-- One digit more.
scan_digit : (n : ℕ) (out : Text) → scan_digits ((b'0' + n % 10) ∷ out) (n / 10) ≡ scan_digits out n
unfolding scan_digits
scan_digit n out = ground arith

scan-digits_of :
    (f n : ℕ) (out : Text) → n < f → scan_digits (digits_of f n out) 0 ≡ scan_digits out n
unfolding digits_of
scan-digits_of zero n out h = elim h [ ]
scan-digits_of (suc f) n out h = elim (Bool-cases (n / 10 == 0)) [
  | inl e ↦ rw e (let z : n / 10 ≡ 0 = ground arith in rw z at (scan_digit n out))
  | inr e ↦
      rw e (scan-digits_of f (n / 10) ((b'0' + n % 10) ∷ out) (ground arith) ∙ scan_digit n out)
]

digits_of-ne-nil : (f n : ℕ) (out : Text) → digits_of (suc f) n out ≢ []
unfolding digits_of
digits_of-ne-nil zero n out = ground arith
digits_of-ne-nil (suc f) n out = ground (arith, digits_of-ne-nil f (n / 10) ((b'0' + n % 10) ∷ out))

-- The digits of a number read as that number, for every number.
pub digits_value-itoa : (n : ℕ) → digits_value (itoa (pos n)) ≡ some n
unfolding digits_value itoa
digits_value-itoa n = go (digits_of (suc n) n []) refl
  where
    go : (s : Text) → digits_of (suc n) n [] ≡ s → digits_value s ≡ some n
    go [] e = absurd (digits_of-ne-nil n n [] e)
    go (c ∷ s) e =
        ap (λ (t : Text). scan_digits t 0) (sym e) ∙ scan-digits_of (suc n) n [] (omega arith)

pub itoa-IsDigit : (n : ℕ) → All IsDigit (itoa (pos n))
unfolding itoa
itoa-IsDigit n = digits_of-IsDigit (suc n) n [] tt

pub itoa-ne-nil : (n : ℕ) → itoa (pos n) ≢ []
unfolding itoa
itoa-ne-nil n = digits_of-ne-nil n n []

module _ (cut : ℕ → Bool) (keeps : (c : ℕ) → IsDigit c → cut c ≡ false) where
  first : (s : Text) → All IsDigit s → (c : ℕ) (t : Text) → s ≡ c ∷ t → cut c ≡ false
  first [] h c t e = absurd (cc)
  first (d ∷ s) h c t e = cc (keeps d h.0)

  last : (s t : Text) (c : ℕ) → All IsDigit s → s ≡ t ++ c ∷ [] → cut c ≡ false
  last s [] c h e = first s h c [] e
  last [] (d ∷ t) c h e = absurd (cc)
  last (b ∷ s) (d ∷ t) c h e = last s t c h.1 (tail_eq e)
    where
      tail_eq : b ∷ s ≡ d ∷ (t ++ c ∷ []) → s ≡ t ++ c ∷ []
      tail_eq q = cc

  -- What cuts no digit leaves a text of digits as it is.
  pub trim-digits : (s : Text) → All IsDigit s → trim cut s ≡ s
  trim-digits s h = (trim_id cut s).1 (first s h, λ t c. last s t c h)
