-- ===== src/Bridge/Advertised.antt =====
-- internal/bridge/bridge.go: the names that a peripheral is matched by are its name and its local
-- name, although `advertisedNames` leaves out a local name that is the name again.
use mqtt_linak.Base.{
  ◌≡◌, refl, sym, ◌⊎◌, ◌↔◌, inl, inr, true, false, not, ◌&&◌, Option, none, some, List, [], ◌∷◌,
  ◌++◌, Any, Any-append_left, Any-append_right, arith, Text, Bool-cases, is_nil, trim_space,
  equal_fold→upper,
}
use mathlib.Core.Path.{subst}
use mqtt_linak.Bridge.{Peripheral, own_name, is_news, with_local_name, advertised_names}
use mqtt_linak.Bridge.Fold.{SameFold}

-- The peripheral has a name or a local name that is so when it is trimmed.
abbrev pub HasName : (Text → Type 0) → Peripheral → Type 0
HasName P p = (s : Text) × ((p.name ≡ some s) ⊎ (p.local_name ≡ some s)) × P (trim_space s)

is_nil→eq : (s : Text) → is_nil s ≡ true → s ≡ []
unfolding is_nil
is_nil→eq [] h = refl
is_nil→eq (c ∷ s) h = absurd (cc)

Any-split : (P : Text → Type 0) (xs : List Text) (y : Text) → Any P (xs ++ y ∷ []) → Any P xs ⊎ P y
Any-split P [] y (inl h) = inr h
Any-split P [] y (inr h) = absurd h
Any-split P (x ∷ xs) y (inl h) = inl (inl h)
Any-split P (x ∷ xs) y (inr h) = elim (Any-split P xs y h) [ inl a ↦ inl (inr a) | inr b ↦ inr b ]

-- What does not depend on case, and does not hold of the empty text.
module _ (P : Text → Type 0) (fold : (s t : Text) → SameFold s t → P s → P t)
    (proper : ¬ P []) where
  own_name-to :
      (o : Option Text) → Any P (own_name o) → (s : Text) × (o ≡ some s) × P (trim_space s)
  unfolding own_name
  own_name-to none h = absurd h
  own_name-to (some s) h = elim (Bool-cases (is_nil (trim_space s))) [
    | inl y ↦ absurd (rw y at h)
    | inr n ↦ elim (rw n at h) [ inl x ↦ (s, refl, x) | inr x ↦ absurd x ]
  ]

  own_name-from : (o : Option Text) (s : Text) → o ≡ some s → P (trim_space s) → Any P (own_name o)
  unfolding own_name
  own_name-from none s e h = absurd (cc)
  own_name-from (some u) s e h =
      let same : s ≡ u = cc (e) in
      let h' : P (trim_space u) = subst (λ x. P (trim_space x)) same h in
      elim (Bool-cases (is_nil (trim_space u))) [
        | inl y ↦ absurd (proper (subst P (is_nil→eq (trim_space u) y) h'))
        | inr n ↦ rw n (inl h')
      ]

  with_local_name-to :
      (l : Option Text) (names : List Text)
      → Any P (with_local_name l names)
      → Any P names ⊎ ((s : Text) × (l ≡ some s) × P (trim_space s))
  unfolding with_local_name
  with_local_name-to none names h = inl h
  with_local_name-to (some s) names h =
      elim (Bool-cases (not (is_nil (trim_space s)) && is_news names (trim_space s))) [
        | inl y ↦ elim (Any-split P names (trim_space s) (rw y at h)) [
          | inl a ↦ inl a
          | inr b ↦ inr (s, refl, b)
        ]
        | inr n ↦ inl (rw n at h)
      ]

  with_local_name-keeps :
      (l : Option Text) (names : List Text) → Any P names → Any P (with_local_name l names)
  unfolding with_local_name
  with_local_name-keeps none names h = h
  with_local_name-keeps (some s) names h =
      elim (Bool-cases (not (is_nil (trim_space s)) && is_news names (trim_space s))) [
        | inl y ↦ rw y (Any-append_left P names (trim_space s ∷ []) h)
        | inr n ↦ rw n h
      ]

  -- A name that is left out is the first one again, but for case.
  left_out :
      (names : List Text) (n : Text) → not (is_nil n) && is_news names n ≡ false → P n → Any P names
  unfolding is_news
  left_out [] n e h = absurd (proper (subst P (is_nil→eq n (ground arith)) h))
  left_out (m ∷ ms) n e h = elim (Bool-cases (is_nil n)) [
    | inl y ↦ absurd (proper (subst P (is_nil→eq n y) h))
    | inr y ↦ inl (fold n m (sym (equal_fold→upper m n (ground arith))) h)
  ]

  with_local_name-from :
      (l : Option Text) (names : List Text) (s : Text)
      → l ≡ some s
      → P (trim_space s)
      → Any P (with_local_name l names)
  unfolding with_local_name
  with_local_name-from none names s e h = absurd (cc)
  with_local_name-from (some u) names s e h =
      let same : s ≡ u = cc (e) in
      let h' : P (trim_space u) = subst (λ x. P (trim_space x)) same h in
      elim (Bool-cases (not (is_nil (trim_space u)) && is_news names (trim_space u))) [
        | inl y ↦ rw y (Any-append_right P names (trim_space u ∷ []) (inl h'))
        | inr n ↦ rw n (left_out names (trim_space u) n h')
      ]

  pub advertised_names_iff : (p : Peripheral) → Any P (advertised_names p) ↔ HasName P p
  unfolding advertised_names
  advertised_names_iff p = (to, from)
    where
      to : Any P (advertised_names p) → HasName P p
      to h = elim (with_local_name-to p.local_name (own_name p.name) h) [
        | inl a ↦ let (s, e, x) = own_name-to p.name a in (s, inl e, x)
        | inr (s, e, x) ↦ (s, inr e, x)
      ]

      from : HasName P p → Any P (advertised_names p)
      from (s, inl e, x) =
          with_local_name-keeps p.local_name (own_name p.name) (own_name-from p.name s e x)
      from (s, inr e, x) = with_local_name-from p.local_name (own_name p.name) s e x
