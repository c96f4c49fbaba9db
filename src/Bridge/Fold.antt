-- ===== src/Bridge/Fold.antt =====
-- internal/bridge/bridge.go: texts that are equal but for case, and the beginnings of texts.
use mathlib.Core.Path.{subst}
use mqtt_linak.Base.{
  ℕ, zero, suc, ◌≤◌, ◌≡◌, refl, sym, ap, ◌∙◌, ◌↔◌, true, [], ◌∷◌, ◌++◌, arith, Text, length, take,
  to_upper, upper_byte, lower_byte, equal_fold, equal_fold→upper,
}
use mqtt_linak.Bridge.{starts_fold}

-- Equal but for the case of letters.
abbrev pub SameFold : Text → Text → Type 0
SameFold s t = to_upper s ≡ to_upper t

-- The text begins with one that is equal but for case.
abbrev pub BeginsFold : Text → Text → Type 0
BeginsFold s want = (head rest : Text) × (s ≡ head ++ rest) × SameFold head want

pub SameFold-equal_fold : (s t : Text) → SameFold s t → equal_fold s t ≡ true
unfolding equal_fold to_upper lower_byte upper_byte
SameFold-equal_fold [] [] e = refl
SameFold-equal_fold [] (d ∷ t) e = absurd (cc)
SameFold-equal_fold (c ∷ s) [] e = absurd (cc)
SameFold-equal_fold (c ∷ s) (d ∷ t) e = ground (arith, SameFold-equal_fold s t)

SameFold-length : (s t : Text) → SameFold s t → length s ≡ length t
unfolding to_upper
SameFold-length [] [] e = refl
SameFold-length [] (d ∷ t) e = absurd (cc)
SameFold-length (c ∷ s) [] e = absurd (cc)
SameFold-length (c ∷ s) (d ∷ t) e = ap suc (SameFold-length s t (cc))

take-rest : (n : ℕ) (s : Text) → n ≤ length s → (rest : Text) × (s ≡ take n s ++ rest)
take-rest zero s h = (s, refl)
take-rest (suc n) [] h = absurd (omega arith)
take-rest (suc n) (c ∷ s) h =
    let (rest, e) = take-rest n s (omega arith) in (rest, ap (λ t. c ∷ t) e)

take-head : (s t : Text) → take (length s) (s ++ t) ≡ s
take-head [] t = refl
take-head (c ∷ s) t = ap (λ u. c ∷ u) (take-head s t)

length-le-append : (s t : Text) → length s ≤ length (s ++ t)
length-le-append [] t = omega arith
length-le-append (c ∷ s) t = omega (arith, length-le-append s t)

pub starts_fold_iff : (s want : Text) → (starts_fold s want ≡ true) ↔ BeginsFold s want
unfolding starts_fold
starts_fold_iff s want = (to, from)
  where
    to : starts_fold s want ≡ true → BeginsFold s want
    to h =
        let (rest, e) = take-rest (length want) s (ground arith) in
        (take (length want) s, rest, e, equal_fold→upper _ want (ground arith))

    from : BeginsFold s want → starts_fold s want ≡ true
    from (head, rest, e, same) =
        let len : length want ≡ length head = sym (SameFold-length head want same) in
        let long : length head ≤ length s = rw e (length-le-append head rest) in
        let cut : take (length want) s ≡ head = rw (len, e) (take-head head rest) in
        let begins : equal_fold (take (length want) s) want ≡ true =
          rw cut (SameFold-equal_fold head want same) in
        ground (arith, begins)

upper-take : (n : ℕ) (s : Text) → to_upper (take n s) ≡ take n (to_upper s)
unfolding to_upper
upper-take zero s = refl
upper-take (suc n) [] = refl
upper-take (suc n) (c ∷ s) = ap (λ t. upper_byte c ∷ t) (upper-take n s)

-- Whether a text begins so does not depend on the case of its letters.
pub BeginsFold-fold : (s t want : Text) → SameFold s t → BeginsFold s want → BeginsFold t want
BeginsFold-fold s t want same (head, rest, e, begins) =
    let n = length head in
    let long : n ≤ length t =
      subst (λ k. n ≤ k) (SameFold-length s t same) (rw e (length-le-append head rest)) in
    let (rest', e') = take-rest n t long in
    let cut : take n s ≡ head = rw e (take-head head rest) in
    (
      take n t,
      rest',
      e',
      upper-take n t
          ∙ (ap (take n) (sym same) ∙ (sym (upper-take n s) ∙ (ap to_upper cut ∙ begins))),
    )

-- Only the empty text is the empty text, in whatever case.
pub SameFold-nil : (want : Text) → SameFold [] want → want ≡ []
unfolding to_upper
SameFold-nil [] h = refl
SameFold-nil (c ∷ want) h = absurd (cc)

pub BeginsFold-nil : (want : Text) → BeginsFold [] want → want ≡ []
BeginsFold-nil want ([], rest, e, h) = SameFold-nil want h
BeginsFold-nil want (c ∷ head, rest, e, h) = absurd (cc)
