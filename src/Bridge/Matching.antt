-- ===== src/Bridge/Matching.antt =====
-- internal/bridge/bridge.go: which peripheral is a configured desk, said without tests.
use mqtt_linak.Base.{
  ◌≡◌, sym, ◌∙◌, ◌↔◌, inl, inr, true, List, [], ◌∷◌, Any, arith, Text, IsBlank, is_space,
  trim_space, trim-nil, equal_fold→upper,
}
use mqtt_linak.Config.{Desk}
use mqtt_linak.Config.Valid.Spec.{HasOneMatcher, by_name, by_prefix, by_peripheral}
use mqtt_linak.Config.Valid.Fields.{true_of-blank, false_of-blank}
use mqtt_linak.Bridge.{Peripheral, advertised_names, matches_name, matches_some, matches_desk}
use mqtt_linak.Bridge.Fold.{
  SameFold, BeginsFold, SameFold-equal_fold, starts_fold_iff, BeginsFold-fold, SameFold-nil,
  BeginsFold-nil,
}
use mqtt_linak.Bridge.Advertised.{HasName, advertised_names_iff}

-- The desk's matcher fits the peripheral: its ID, its name or its local name, or the beginning of
-- one of these.
pub data Fits (d : Desk) (p : Peripheral) : Type 0 where
  fits_id :
      ¬ IsBlank d.peripheral_id → SameFold (trim_space d.peripheral_id) p.peripheral_id → Fits d p
  fits_name : ¬ IsBlank d.name → HasName (λ got. SameFold got (trim_space d.name)) p → Fits d p
  fits_prefix :
      ¬ IsBlank d.name_prefix
      → HasName (λ got. BeginsFold got (trim_space d.name_prefix)) p
      → Fits d p

matches_some_iff :
    (d : Desk) (names : List Text)
    → (matches_some d names ≡ true) ↔ Any (λ got. matches_name d got ≡ true) names
unfolding matches_some
matches_some_iff d [] = (λ h. absurd (cc), λ h. absurd h)
matches_some_iff d (n ∷ names) =
    let ih = matches_some_iff d names in (λ h. ground (arith, ih), λ h. ground (arith, ih))

Any-map :
    (P Q : Text → Type 0) (names : List Text) → ((n : Text) → P n → Q n) → Any P names → Any Q names
Any-map P Q [] f h = absurd h
Any-map P Q (n ∷ names) f (inl h) = inl (f n h)
Any-map P Q (n ∷ names) f (inr h) = inr (Any-map P Q names f h)

named :
    (d : Desk)
    → ¬ IsBlank d.name
    → (p : Peripheral)
    → Any (λ (got : Text). SameFold got (trim_space d.name)) (advertised_names p)
      ↔ HasName (λ (got : Text). SameFold got (trim_space d.name)) p
unfolding trim_space
named d h =
    advertised_names_iff (λ got. SameFold got (trim_space d.name)) (λ s t e x. sym e ∙ x)
      (λ x. h ((trim-nil is_space d.name).0 (SameFold-nil (trim_space d.name) x)))

prefixed :
    (d : Desk)
    → ¬ IsBlank d.name_prefix
    → (p : Peripheral)
    → Any (λ (got : Text). BeginsFold got (trim_space d.name_prefix)) (advertised_names p)
      ↔ HasName (λ (got : Text). BeginsFold got (trim_space d.name_prefix)) p
unfolding trim_space
prefixed d h =
    advertised_names_iff (λ got. BeginsFold got (trim_space d.name_prefix))
      (λ s t e x. BeginsFold-fold s t (trim_space d.name_prefix) e x)
      (λ x. h ((trim-nil is_space d.name_prefix).0 (BeginsFold-nil (trim_space d.name_prefix) x)))

-- A desk with one matcher is a peripheral exactly when that matcher fits it: its trimmed ID is the
-- peripheral's, its trimmed name is the peripheral's name or local name, trimmed, or its trimmed
-- prefix begins one of them. The case of ASCII letters does not count.
pub matches_desk_iff :
    (d : Desk) (p : Peripheral) → HasOneMatcher d → (matches_desk d p ≡ true) ↔ Fits d p
unfolding matches_desk matches_name
matches_desk_iff d p (by_peripheral n x h) = (
  λ m. fits_id h (equal_fold→upper _ _ (ground (arith, false_of-blank _ h))),
  λ f. elim f [
    | fits_id _ same ↦ ground (arith, false_of-blank _ h, SameFold-equal_fold _ _ same)
    | fits_name m _ ↦ absurd (m n)
    | fits_prefix m _ ↦ absurd (m x)
  ],
)
matches_desk_iff d p (by_name h x i) =
    let names = advertised_names p in
    (
      λ m. fits_name h (
          (named d h p).0 (
            Any-map _ _ names (λ got y. equal_fold→upper _ _ (ground (arith, true_of-blank _ x)))
              ((matches_some_iff d names).0 (ground (arith, true_of-blank _ i))))),
      λ f. elim f [
        | fits_id m _ ↦ absurd (m i)
        | fits_prefix m _ ↦ absurd (m x)
        | fits_name _ any ↦
            let some_name = (matches_some_iff d names).1 (
              Any-map _ _ names
                (λ got same. ground (arith, false_of-blank _ h, SameFold-equal_fold _ _ same))
                ((named d h p).1 any)) in
            ground (arith, true_of-blank _ i, some_name)
      ],
    )
matches_desk_iff d p (by_prefix n h i) =
    let names = advertised_names p in
    (
      λ m. fits_prefix h (
          (prefixed d h p).0 (
            Any-map _ _ names
              (λ got y. (starts_fold_iff got _).0 (ground (arith, true_of-blank _ n)))
              ((matches_some_iff d names).0 (ground (arith, true_of-blank _ i))))),
      λ f. elim f [
        | fits_id m _ ↦ absurd (m i)
        | fits_name m _ ↦ absurd (m n)
        | fits_prefix _ any ↦
            let some_name = (matches_some_iff d names).1 (
              Any-map _ _ names
                (λ got b. ground (arith, false_of-blank _ h, (starts_fold_iff got _).1 b))
                ((prefixed d h p).1 any)) in
            ground (arith, true_of-blank _ i, some_name)
      ],
    )
