-- ===== src/Base/Lists.antt =====
-- Lists measured by native numbers, and predicates on all their members.
use Prim.Native.Nat.{ℕ, zero, suc, ◌+◌}
use mathlib.Core.Path.{◌≡◌, refl, subst}
use mathlib.Core.Logic.{◌⊎◌, inl, inr, ◌↔◌}
use mathlib.Core.Option.{Option, none, some}
use mathlib.Core.List.{List, [], ◌∷◌, ◌++◌}
use native.Mathlib.Omega.{arith}

module _ {ℓ} {A : Type ℓ} where
  abbrev pub length : List A → ℕ
  length [] = 0
  length (x ∷ xs) = suc (length xs)

  pub length-append : (xs ys : List A) → length (xs ++ ys) ≡ length xs + length ys
  length-append [] ys = omega arith
  length-append (x ∷ xs) ys = omega (arith, length-append xs ys)

  abbrev pub take : ℕ → List A → List A
  take zero xs = []
  take (suc n) [] = []
  take (suc n) (x ∷ xs) = x ∷ take n xs

module _ {ℓ κ} {A : Type ℓ} (P : A → Type κ) where
  abbrev pub All : List A → Type κ
  All [] = Unit
  All (x ∷ xs) = P x × All xs

  pub All-append : (xs ys : List A) → All xs → All ys → All (xs ++ ys)
  All-append [] ys _ hy = hy
  All-append (x ∷ xs) ys (px, hx) hy = (px, All-append xs ys hx hy)

-- A member with the property, its place kept.
abbrev pub Any {ℓ} : {A : Type ℓ} → (A → Type 0) → List A → Type 0
Any P [] = ⊥
Any P (x ∷ xs) = P x ⊎ Any P xs

module _ {ℓ κ} {A : Type ℓ} where
  pub All-map : (P Q : A → Type κ) → ((x : A) → P x → Q x) → (xs : List A) → All P xs → All Q xs
  All-map P Q f [] _ = tt
  All-map P Q f (x ∷ xs) (px, h) = (f x px, All-map P Q f xs h)

module _ {ℓ κ μ} {A : Type ℓ} (P : A → Type κ) (Q : A → Type μ) where
  -- Two facts about all members are one fact about all members.
  pub All-and : (xs : List A) → All (λ x. P x × Q x) xs ↔ (All P xs × All Q xs)
  All-and [] = (λ _. (tt, tt), λ _. tt)
  All-and (x ∷ xs) =
      let ih = All-and xs in
      (
        λ h. ((h.0.0, (ih.0 h.1).0), (h.0.1, (ih.0 h.1).1)),
        λ h. ((h.0.0, h.1.0), ih.1 (h.0.1, h.1.1)),
      )

pub Any-append_left : {A : Type 0} (P : A → Type 0) (xs ys : List A) → Any P xs → Any P (xs ++ ys)
Any-append_left P [] ys h = absurd h
Any-append_left P (x ∷ xs) ys (inl p) = inl p
Any-append_left P (x ∷ xs) ys (inr h) = inr (Any-append_left P xs ys h)

pub Any-append_right : {A : Type 0} (P : A → Type 0) (xs ys : List A) → Any P ys → Any P (xs ++ ys)
Any-append_right P [] ys h = h
Any-append_right P (x ∷ xs) ys h = inr (Any-append_right P xs ys h)

-- Each member of the first list is one of the second.
abbrev pub Within : {A : Type 0} → List A → List A → Type 0
Within xs ys = All (λ x. Any (λ y. y ≡ x) ys) xs

-- More members on either side keep what is within.
pub Within-append_left : {A : Type 0} (zs xs ys : List A) → Within zs xs → Within zs (xs ++ ys)
Within-append_left [] xs ys h = tt
Within-append_left (z ∷ zs) xs ys h =
    (Any-append_left (λ y. y ≡ z) xs ys h.0, Within-append_left zs xs ys h.1)

pub Within-append_right : {A : Type 0} (zs xs ys : List A) → Within zs ys → Within zs (xs ++ ys)
Within-append_right [] xs ys h = tt
Within-append_right (z ∷ zs) xs ys h =
    (Any-append_right (λ y. y ≡ z) xs ys h.0, Within-append_right zs xs ys h.1)

pub Within-refl : {A : Type 0} (xs : List A) → Within xs xs
Within-refl [] = tt
Within-refl (x ∷ xs) = (inl refl, Within-append_right xs (x ∷ []) xs (Within-refl xs))

module _ {ℓ} {A : Type ℓ} where
  abbrev pub get_elem? : List A → ℕ → Option A
  get_elem? [] i = none
  get_elem? (x ∷ xs) zero = some x
  get_elem? (x ∷ xs) (suc i) = get_elem? xs i

  pub get_elem?-append : (xs ys : List A) (x : A) → get_elem? (xs ++ x ∷ ys) (length xs) ≡ some x
  get_elem?-append [] ys x = refl
  get_elem?-append (z ∷ xs) ys x = get_elem?-append xs ys x

-- Two lists of one length, related member by member.
module _ {ℓ κ} {A : Type ℓ} {B : Type κ} (R : A → B → Type 0) where
  abbrev pub All₂ : List A → List B → Type 0
  All₂ [] [] = Unit
  All₂ [] (y ∷ ys) = ⊥
  All₂ (x ∷ xs) [] = ⊥
  All₂ (x ∷ xs) (y ∷ ys) = R x y × All₂ xs ys

-- What stands at the same place in two lists is related.
pub member₂ :
    {A B : Type 0} (R : A → B → Type 0) (xs : List A) (ys : List B) (i : ℕ) (y : B)
    → All₂ R xs ys
    → get_elem? ys i ≡ some y
    → (x : A) × (get_elem? xs i ≡ some x) × R x y
member₂ R [] [] i y h e = absurd (cc)
member₂ R [] (z ∷ ys) i y h e = absurd h
member₂ R (x ∷ xs) [] i y h e = absurd h
member₂ R (x ∷ xs) (z ∷ ys) zero y h e = (x, refl, subst (R x) (cc) h.0)
member₂ R (x ∷ xs) (z ∷ ys) (suc i) y h e = member₂ R xs ys i y h.1 e

-- Each element of a list stands at some place in it.
pub All-places : {A : Type 0} (xs : List A) → All (λ x. (i : ℕ) × (get_elem? xs i ≡ some x)) xs
All-places [] = tt
All-places (x ∷ xs) = (
  (zero, refl),
  All-map (λ z. (i : ℕ) × (get_elem? xs i ≡ some z))
      (λ z. (i : ℕ) × (get_elem? (x ∷ xs) i ≡ some z)) (λ z (i, at). (suc i, at)) xs
      (All-places xs),
)
