-- ===== src/Config/Valid.antt =====
-- internal/config/config.go: what `Validate` accepts, said without its tests.
pub mod Spec
pub mod Fields
use mqtt_linak.Base.{
  ℕ, suc, ◌≤◌, ◌≡◌, refl, sym, ap, ◌≢◌, ◌↔◌, Bool, true, false, Option, none, some, List, [], ◌∷◌,
  ◌++◌, All, All-and, Text, codes, pos, ◌≤ℤ◌, ◌<ℤ◌, arith, IsBlank, IsTrimmed, Lacks, is_space,
  is_nil, is_nil_iff, trim, trim_space, trim-nil, trim_id, text_eq, text_eq→eq, text_eq_refl,
  contains_any, contains_any-false, has_suffix, has_suffix_iff, eq-false,
}
use mqtt_linak.Config.{
  Desk, Config, reserved_desk_id, bad_desk, valid_topic_base, valid_desk_id, is_seen,
  valid_matchers, validate_desks, no_desk, validate, wrap, fail_if, ◌or_else◌,
}
use mqtt_linak.Config.Valid.Spec.{
  IsTopicBase, IsDeskId, HasOneMatcher, by_name, by_prefix, by_peripheral, IsDesk, Distinct,
  IsValid,
}
use mqtt_linak.Config.Valid.Fields.{
  IsBlank-false, false_of-blank, valid_topic_base_iff, valid_desk_id_iff, is_seen-false,
  valid_matchers_iff,
}

-- The id is not among those seen before.
abbrev IsFresh : List Text → Desk → Type 0
IsFresh seen d = All (λ s. d.id ≢ s) seen

or_else-none : {E : Type 0} (a b : Option E) → ((a or_else b) ≡ none) ↔ ((a ≡ none) × (b ≡ none))
or_else-none none b = (λ h. (refl, h), λ h. h.1)
or_else-none (some e) b = (λ h. absurd (cc), λ h. h.0)

wrap-none : {D E : Type 0} (f : D → E) (o : Option D) → (wrap f o ≡ none) ↔ (o ≡ none)
wrap-none f none = (λ _. refl, λ _. refl)
wrap-none f (some d) = (λ h. absurd (cc), λ h. absurd (cc))

fail_if-none : {E : Type 0} (b : Bool) (e : E) → (fail_if b e ≡ none) ↔ (b ≡ false)
fail_if-none true e = (λ h. absurd (cc), λ h. absurd (cc))
fail_if-none false e = (λ _. refl, λ _. refl)

validate_desks_iff :
    (i : ℕ) (seen : List Text) (ds : List Desk)
    → (validate_desks i seen ds ≡ none) ↔ (All IsDesk ds × Distinct ds × All (IsFresh seen) ds)
unfolding validate_desks
validate_desks_iff i seen [] = (λ _. (tt, tt, tt), λ _. refl)
validate_desks_iff i seen (d ∷ ds) =
    let ih = validate_desks_iff (suc i) (d.id ∷ seen) ds in
    let fresh = All-and (λ (e : Desk). e.id ≢ d.id) (IsFresh seen) ds in
    (
      λ h.
          let (a, h₁) = (or_else-none _ _).0 h in
          let (b, h₂) = (or_else-none _ _).0 h₁ in
          let (c, rest) = (or_else-none _ _).0 h₂ in
          let (proper, distinct, unseen) = ih.0 rest in
          (
            (
              record {
                proper_id = (valid_desk_id_iff d.id).0 ((wrap-none (bad_desk i d.id) _).0 a);
                one_matcher = (valid_matchers_iff d).0 ((wrap-none (bad_desk i d.id) _).0 c);
              },
              proper,
            ),
            ((fresh.0 unseen).0, distinct),
            ((is_seen-false d.id seen).0 ((fail_if-none _ _).0 b), (fresh.0 unseen).1),
          ),
      λ h. (or_else-none _ _).1 (
        (wrap-none (bad_desk i d.id) _).1 ((valid_desk_id_iff d.id).1 h.0.0.proper_id),
        (or_else-none _ _).1 (
          (fail_if-none _ _).1 ((is_seen-false d.id seen).1 h.2.0),
          (or_else-none _ _).1 (
            (wrap-none (bad_desk i d.id) _).1 ((valid_matchers_iff d).1 h.0.0.one_matcher),
            ih.1 (h.0.1, h.1.1, fresh.1 (h.1.0, h.2.1)),
          ),
        ),
      ),
    )

unseen-All : (ds : List Desk) → All (IsFresh []) ds
unseen-All [] = tt
unseen-All (d ∷ ds) = (tt, unseen-All ds)

-- The tests of `validate`, one by one.
abbrev Passes : Config → Type 0
Passes c =
    (is_nil (trim_space c.mqtt.broker) ≡ false)
    × (c.mqtt.qos ≤ 2)
    × (valid_topic_base c.mqtt.command_topic_base ≡ none)
    × (valid_topic_base c.mqtt.metric_topic_base ≡ none)
    × (no_desk c.desks ≡ false)
    × (validate_desks 0 [] c.desks ≡ none)
    × (pos 0 <ℤ c.bluetooth.reconnect_min_backoff)
    × (c.bluetooth.reconnect_min_backoff ≤ℤ c.bluetooth.reconnect_max_backoff)
    × (pos 0 <ℤ c.bluetooth.connect_timeout)

validate-Passes : (c : Config) → validate c ≡ none → Passes c
unfolding validate
validate-Passes c h = ground arith

Passes-validate : (c : Config) → Passes c → validate c ≡ none
unfolding validate
Passes-validate c h = ground arith

no_desk_iff : (ds : List Desk) → (no_desk ds ≡ false) ↔ (ds ≢ [])
unfolding no_desk
no_desk_iff [] = (λ h. absurd (cc), λ h. absurd (h refl))
no_desk_iff (d ∷ ds) = (λ h e. absurd (cc), λ h. refl)

validate-IsValid : (c : Config) → validate c ≡ none → IsValid c
validate-IsValid c h =
    let (broker, qos, command, metric, some_desk, desks, low, high, timeout) =
      validate-Passes c h in
    let (proper, distinct, _) = (validate_desks_iff 0 [] c.desks).0 desks in
    record {
      broker = IsBlank-false _ broker;
      qos = qos;
      command_base = (valid_topic_base_iff _).0 command;
      metric_base = (valid_topic_base_iff _).0 metric;
      some_desk = (no_desk_iff _).0 some_desk;
      proper_desks = proper;
      distinct_ids = distinct;
      min_backoff = low;
      max_backoff = high;
      connect_timeout = timeout;
    }

IsValid-validate : (c : Config) → IsValid c → validate c ≡ none
IsValid-validate c v = Passes-validate c (
  false_of-blank _ v.broker,
  v.qos,
  (valid_topic_base_iff _).1 v.command_base,
  (valid_topic_base_iff _).1 v.metric_base,
  (no_desk_iff _).1 v.some_desk,
  (validate_desks_iff 0 [] c.desks).1 (v.proper_desks, v.distinct_ids, unseen-All c.desks),
  v.min_backoff,
  v.max_backoff,
  v.connect_timeout,
)

-- `Validate` reports no problem exactly when the configuration is valid: a broker, a QoS up to 2,
-- two proper topic bases, at least one desk, each desk with a proper id and exactly one matcher, no
-- id twice, and backoffs and timeout that are positive and in order.
pub validate_iff : (c : Config) → (validate c ≡ none) ↔ IsValid c
validate_iff c = (validate-IsValid c, IsValid-validate c)
