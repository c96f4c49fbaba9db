-- ===== src/Config/Valid/Fields.antt =====
-- internal/config/config.go: what the tests of one field accept.
use mqtt_linak.Base.{
  ◌≡◌, refl, sym, ap, ◌≢◌, ◌↔◌, Bool, true, false, none, List, [], ◌∷◌, ◌++◌, All, Text, codes,
  arith, IsBlank, IsTrimmed, Lacks, is_space, is_nil, is_nil_iff, trim, trim_space, trim-nil,
  trim_id, text_eq, text_eq→eq, text_eq_refl, contains_any, contains_any-false, has_suffix,
  has_suffix_iff, eq-false,
}
use mqtt_linak.Config.{
  Desk, reserved_desk_id, valid_topic_base, valid_desk_id, is_seen, valid_matchers,
}
use mqtt_linak.Config.Valid.Spec.{
  IsTopicBase, IsDeskId, HasOneMatcher, by_name, by_prefix, by_peripheral,
}

-- The test for a blank text, and what it means.
pub IsBlank-true : (s : Text) → is_nil (trim_space s) ≡ true → IsBlank s
unfolding trim_space
IsBlank-true s h = (trim-nil is_space s).0 ((is_nil_iff _).0 h)

pub IsBlank-false : (s : Text) → is_nil (trim_space s) ≡ false → ¬ IsBlank s
unfolding trim_space
IsBlank-false s h b = cc ((is_nil_iff _).1 ((trim-nil is_space s).1 b))

pub true_of-blank : (s : Text) → IsBlank s → is_nil (trim_space s) ≡ true
unfolding trim_space
true_of-blank s b = (is_nil_iff _).1 ((trim-nil is_space s).1 b)

pub false_of-blank : (s : Text) → ¬ IsBlank s → is_nil (trim_space s) ≡ false
false_of-blank s n = eq-false _ (λ h. n (IsBlank-true s h))

IsTrimmed-of : (s : Text) → text_eq s (trim_space s) ≡ true → IsTrimmed is_space s
unfolding trim_space
IsTrimmed-of s h = (trim_id is_space s).0 (sym (text_eq→eq s (trim is_space s) h))

of-trimmed : (s : Text) → IsTrimmed is_space s → text_eq s (trim_space s) ≡ true
unfolding trim_space
of-trimmed s h = rw ((trim_id is_space s).1 h) (text_eq_refl s)

not_eq-of : (s t : Text) → text_eq s t ≡ false → s ≢ t
not_eq-of s t h e = cc (text_eq_refl s, ap (text_eq s) e)

of-not_eq : (s t : Text) → s ≢ t → text_eq s t ≡ false
of-not_eq s t h = eq-false _ (λ y. h (text_eq→eq s t y))

-- A topic base is accepted exactly when it is one.
pub valid_topic_base_iff : (v : Text) → (valid_topic_base v ≡ none) ↔ IsTopicBase v
unfolding valid_topic_base
valid_topic_base_iff v = (to, from)
  where
    wild : (contains_any v (codes "+#") ≡ false) ↔ All (λ b. Lacks b v) (codes "+#")
    wild = contains_any-false v (codes "+#")

    slash : (has_suffix v (codes "/") ≡ true) ↔ ((t : Text) × (v ≡ t ++ b'/' ∷ []))
    slash = has_suffix_iff v b'/'

    to : valid_topic_base v ≡ none → IsTopicBase v
    to h = record {
      visible = IsBlank-false v (ground arith);
      no_plus = (wild.0 (ground arith)).0;
      no_hash = (wild.0 (ground arith)).1.0;
      no_slash = λ t e. cc (slash.1 (t, e), plain);
    }
      where
        plain : has_suffix v (codes "/") ≡ false
        plain = ground arith

    from : IsTopicBase v → valid_topic_base v ≡ none
    from h = ground (
      arith,
      false_of-blank v h.visible,
      wild.1 (h.no_plus, (h.no_hash, tt)),
      eq-false (has_suffix v (codes "/")) (λ y. h.no_slash (slash.0 y).0 (slash.0 y).1),
    )

-- An id is accepted exactly when it is a proper one.
pub valid_desk_id_iff : (id : Text) → (valid_desk_id id ≡ none) ↔ IsDeskId id
unfolding valid_desk_id
valid_desk_id_iff id = (to, from)
  where
    wild : (contains_any id (codes "/+#") ≡ false) ↔ All (λ b. Lacks b id) (codes "/+#")
    wild = contains_any-false id (codes "/+#")

    to : valid_desk_id id ≡ none → IsDeskId id
    to h = record {
      visible = IsBlank-false id (ground arith);
      trimmed = IsTrimmed-of id (ground arith);
      no_slash = (wild.0 (ground arith)).0;
      no_plus = (wild.0 (ground arith)).1.0;
      no_hash = (wild.0 (ground arith)).1.1.0;
      not_reserved = not_eq-of id reserved_desk_id (ground arith);
    }

    from : IsDeskId id → valid_desk_id id ≡ none
    from h = ground (
      arith,
      false_of-blank id h.visible,
      wild.1 (h.no_slash, (h.no_plus, (h.no_hash, tt))),
      of-trimmed id h.trimmed,
      of-not_eq id reserved_desk_id h.not_reserved,
    )

pub is_seen-false :
    (id : Text) (seen : List Text) → (is_seen id seen ≡ false) ↔ All (λ s. id ≢ s) seen
unfolding is_seen
is_seen-false id [] = (λ _. tt, λ _. refl)
is_seen-false id (s ∷ seen) =
    let ih = is_seen-false id seen in
    (
      λ h. (not_eq-of id s (ground arith), ih.0 (ground arith)),
      λ h. ground (arith, of-not_eq id s h.0, ih.1 h.1),
    )

matchers-of :
    (d : Desk) (a b c : Bool)
    → is_nil (trim_space d.name) ≡ a
    → is_nil (trim_space d.name_prefix) ≡ b
    → is_nil (trim_space d.peripheral_id) ≡ c
    → valid_matchers d ≡ none
    → HasOneMatcher d
unfolding valid_matchers
matchers-of d false true true p q r h =
    by_name (IsBlank-false _ p) (IsBlank-true _ q) (IsBlank-true _ r)
matchers-of d true false true p q r h =
    by_prefix (IsBlank-true _ p) (IsBlank-false _ q) (IsBlank-true _ r)
matchers-of d true true false p q r h =
    by_peripheral (IsBlank-true _ p) (IsBlank-true _ q) (IsBlank-false _ r)
matchers-of d _ _ _ p q r h = absurd (ground arith)

of-matchers : (d : Desk) → HasOneMatcher d → valid_matchers d ≡ none
unfolding valid_matchers
of-matchers d (by_name n p q) =
    ground (arith, false_of-blank _ n, true_of-blank _ p, true_of-blank _ q)
of-matchers d (by_prefix n p q) =
    ground (arith, true_of-blank _ n, false_of-blank _ p, true_of-blank _ q)
of-matchers d (by_peripheral n p q) =
    ground (arith, true_of-blank _ n, true_of-blank _ p, false_of-blank _ q)

-- The matchers are accepted exactly when one of the three is set.
pub valid_matchers_iff : (d : Desk) → (valid_matchers d ≡ none) ↔ HasOneMatcher d
valid_matchers_iff d = (matchers-of d _ _ _ refl refl refl, of-matchers d)
