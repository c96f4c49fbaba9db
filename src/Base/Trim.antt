-- ===== src/Base/Trim.antt =====
-- Laws of the text functions: trimming, suffixes, sets of bytes.
use Prim.Native.Nat.{ℕ, ◌≤◌, ◌<◌}
use mathlib.Core.Path.{◌≡◌, refl, ap, sym, ◌∙◌}
use mathlib.Core.Logic.{◌≢◌, ◌⊎◌, inl, inr, ◌↔◌}
use mathlib.Core.Bool.{Bool, true, false}
use mathlib.Core.List.{[], ◌∷◌, ◌++◌}
use native.Mathlib.Omega.{arith}
use mqtt_linak.Base.Tests.{Bool-cases, eq-false}
use mqtt_linak.Base.Lists.{All, length, length-append}
use mqtt_linak.Base.Texts.{
  Text, is_nil, text_eq, text_eq→eq, text_eq_refl, is_space, trim_left, keep_right, trim_right,
  trim, has_suffix, has_byte, contains_any, Lacks,
}

-- Nothing but bytes that are cut.
abbrev pub IsAll : (ℕ → Bool) → Text → Type 0
IsAll cut = All (λ c. cut c ≡ true)

-- Nothing but white space.
abbrev pub IsBlank : Text → Type 0
IsBlank = IsAll is_space

-- No byte at either end is cut.
abbrev pub IsTrimmed : (ℕ → Bool) → Text → Type 0
IsTrimmed cut s =
    ((c : ℕ) (t : Text) → s ≡ c ∷ t → cut c ≡ false)
    × ((t : Text) (c : ℕ) → s ≡ t ++ c ∷ [] → cut c ≡ false)

module _ (cut : ℕ → Bool) where
  trim_left-nil : (s : Text) → trim_left cut s ≡ [] → IsAll cut s
  unfolding trim_left
  trim_left-nil [] e = tt
  trim_left-nil (c ∷ s) e = elim (Bool-cases (cut c)) [
    | inl y ↦ (y, trim_left-nil s (rw y at e))
    | inr n ↦ absurd (ground arith)
  ]

  trim_left_head : (s : Text) (c : ℕ) (t : Text) → trim_left cut s ≡ c ∷ t → cut c ≡ false
  unfolding trim_left
  trim_left_head [] c t e = cc
  trim_left_head (d ∷ s) c t e = ground (arith, trim_left_head s c t)

  trim_left_all : (s : Text) → IsAll cut s → trim_left cut s ≡ []
  unfolding trim_left
  trim_left_all [] h = refl
  trim_left_all (c ∷ s) h = rw h.0 (trim_left_all s h.1)

  length-trim_left : (s : Text) → length (trim_left cut s) ≤ length s
  unfolding trim_left
  length-trim_left [] = omega arith
  length-trim_left (c ∷ s) = ground (arith, length-trim_left s)

  trim_right-nil : (s : Text) → trim_right cut s ≡ [] → IsAll cut s
  unfolding trim_right keep_right
  trim_right-nil [] e = tt
  trim_right-nil (c ∷ s) e = ground (arith, trim_right-nil s)

  length-trim_right : (s : Text) → length (trim_right cut s) ≤ length s
  unfolding trim_right keep_right
  length-trim_right [] = omega arith
  length-trim_right (c ∷ s) = ground (arith, length-trim_right s)

  trim_right_last :
      (s : Text) (c : ℕ) → cut c ≡ true → trim_right cut (s ++ c ∷ []) ≡ trim_right cut s
  unfolding trim_right keep_right
  trim_right_last [] c y = ground arith
  trim_right_last (d ∷ s) c y = ap (keep_right cut d) (trim_right_last s c y)

  trim_right_id :
      (s : Text) → ((t : Text) (c : ℕ) → s ≡ t ++ c ∷ [] → cut c ≡ false) → trim_right cut s ≡ s
  unfolding trim_right keep_right
  trim_right_id [] h = refl
  trim_right_id (c ∷ []) h = rw (h [] c refl)
  trim_right_id (c ∷ d ∷ s) h =
      rw (trim_right_id (d ∷ s) (λ t b e. h (c ∷ t) b (ap (λ (r : Text). c ∷ r) e)))

  -- Trimming leaves nothing exactly of a text of which everything is cut.
  pub trim-nil : (s : Text) → (trim cut s ≡ []) ↔ IsAll cut s
  unfolding trim
  trim-nil s = (λ e. gone (trim_left cut s) refl (trim_right-nil _ e), λ h. rw (trim_left_all s h))
    where
      gone : (t : Text) → trim_left cut s ≡ t → IsAll cut t → IsAll cut s
      gone [] e _ = trim_left-nil s e
      gone (c ∷ t) e h = absurd (cc (trim_left_head s c t e, h.0))

  trim_left_cases : (s : Text) → (trim_left cut s ≡ s) ⊎ (length (trim_left cut s) < length s)
  unfolding trim_left
  trim_left_cases [] = inl refl
  trim_left_cases (c ∷ s) = elim (Bool-cases (cut c)) [
    | inl y ↦ rw y (inr (omega (arith, length-trim_left s)))
    | inr n ↦ rw n (inl refl)
  ]

  trim-right : (s t : Text) (c : ℕ) → s ≡ t ++ c ∷ [] → cut c ≡ true → trim cut s ≢ s
  unfolding trim
  trim-right s t c p y e = elim (trim_left_cases s) [
    | inl same ↦
        let short : trim_right cut s ≡ trim_right cut t =
          ap (trim_right cut) p ∙ trim_right_last t c y in
        let whole : trim_right cut s ≡ s = ap (trim_right cut) (sym same) ∙ e in
        omega (
          arith,
          ap length whole,
          ap length short,
          ap length p,
          length-trim_right t,
          length-append t (c ∷ []),
        )
    | inr less ↦ omega (arith, ap length e, length-trim_right (trim_left cut s))
  ]

  trim-left : (c : ℕ) (t : Text) → cut c ≡ true → trim cut (c ∷ t) ≢ c ∷ t
  unfolding trim trim_left
  trim-left c t y e =
      let e' : trim_right cut (trim_left cut t) ≡ c ∷ t = rw y at e in
      omega (arith, ap length e', length-trim_right (trim_left cut t), length-trim_left t)

  trim_fix : (s : Text) → IsTrimmed cut s → trim cut s ≡ s
  unfolding trim trim_left trim_right
  trim_fix [] h = refl
  trim_fix (c ∷ s) h = rw (h.0 c s refl) (trim_right_id (c ∷ s) h.1)

  -- Trimming changes nothing exactly of a text that is cut at neither end.
  pub trim_id : (s : Text) → (trim cut s ≡ s) ↔ IsTrimmed cut s
  trim_id s = (λ e. (left e, right e), trim_fix s)
    where
      left : trim cut s ≡ s → (c : ℕ) (t : Text) → s ≡ c ∷ t → cut c ≡ false
      left e c t p = eq-false (cut c) (λ y. trim-left c t y (ap (trim cut) (sym p) ∙ (e ∙ p)))

      right : trim cut s ≡ s → (t : Text) (c : ℕ) → s ≡ t ++ c ∷ [] → cut c ≡ false
      right e t c p = eq-false (cut c) (λ y. trim-right s t c p y e)

suffix-to : (s : Text) (b : ℕ) → has_suffix s (b ∷ []) ≡ true → (t : Text) × (s ≡ t ++ b ∷ [])
unfolding has_suffix text_eq
suffix-to [] b h = absurd (cc)
suffix-to (c ∷ s) b h = elim (Bool-cases (text_eq (c ∷ s) (b ∷ []))) [
  | inl y ↦ ([], text_eq→eq _ _ y)
  | inr n ↦ let (t, e) = suffix-to s b (ground arith) in (c ∷ t, ap (λ (r : Text). c ∷ r) e)
]

suffix-from : (t : Text) (b : ℕ) → has_suffix (t ++ b ∷ []) (b ∷ []) ≡ true
unfolding has_suffix
suffix-from [] b = rw (text_eq_refl (b ∷ []))
suffix-from (c ∷ t) b = ground (arith, suffix-from t b)

-- A text ends in a byte exactly when it is some text with that byte behind it.
pub has_suffix_iff :
    (s : Text) (b : ℕ) → (has_suffix s (b ∷ []) ≡ true) ↔ ((t : Text) × (s ≡ t ++ b ∷ []))
has_suffix_iff s b = (suffix-to s b, λ (t, e). rw e (suffix-from t b))

has_byte-false : (s : Text) (b : ℕ) → (has_byte s b ≡ false) ↔ Lacks b s
unfolding has_byte
has_byte-false [] b = (λ _. tt, λ _. refl)
has_byte-false (c ∷ s) b =
    let ih = has_byte-false s b in
    (λ h. (ground arith, ih.0 (ground arith)), λ h. ground (arith, ih.1 h.1))

Lacks-cons :
    (c : ℕ) (s set : Text)
    → (Lacks c set × All (λ b. Lacks b s) set) ↔ All (λ b. Lacks b (c ∷ s)) set
Lacks-cons c s [] = (λ _. tt, λ _. (tt, tt))
Lacks-cons c s (b ∷ set) =
    let ih = Lacks-cons c s set in
    (
      λ h. ((λ e. h.0.0 (sym e), h.1.0), ih.0 (h.0.1, h.1.1)),
      λ h. ((λ e. h.0.0 (sym e), (ih.1 h.1).0), (h.0.1, (ih.1 h.1).1)),
    )

Lacks-nil : (set : Text) → All (λ b. Lacks b []) set
Lacks-nil [] = tt
Lacks-nil (b ∷ set) = (tt, Lacks-nil set)

-- A text holds none of a set of bytes exactly when it lacks each.
pub contains_any-false : (s set : Text) → (contains_any s set ≡ false) ↔ All (λ b. Lacks b s) set
unfolding contains_any
contains_any-false [] set = (λ _. Lacks-nil set, λ _. refl)
contains_any-false (c ∷ s) set =
    let ih = contains_any-false s set in
    let here = has_byte-false set c in
    let both = Lacks-cons c s set in
    (
      λ h. both.0 (here.0 (ground arith), ih.0 (ground arith)),
      λ h. ground (arith, here.1 (both.1 h).0, ih.1 (both.1 h).1),
    )

-- A text is empty exactly when the test says so.
pub is_nil_iff : (s : Text) → (is_nil s ≡ true) ↔ (s ≡ [])
unfolding is_nil
is_nil_iff [] = (λ _. refl, λ _. refl)
is_nil_iff (c ∷ s) = (λ h. absurd (cc), λ h. absurd (cc))
