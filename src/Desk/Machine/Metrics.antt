-- ===== src/Desk/Machine/Metrics.antt =====
-- internal/bridge/desk.go, internal/bridge/throttle.go: what a manager publishes is what its desk has
-- reported.
use mathlib.Core.Path.{subst}
use mqtt_linak.Base.{
  sym, ℕ, ◌≡◌, refl, ap, ◌∙◌, ◌⊎◌, inl, inr, Bool, true, false, Option, none, some, List, [], ◌∷◌,
  All, All-append, Text, ℤ, pos, arith, if◌then◌else◌, eq_ℤ,
}
use mqtt_linak.Config
use mqtt_linak.Config.{Config}
use mqtt_linak.Throttle.{Throttle, set, flush}
use mqtt_linak.Topics.{
  Numbers, leaf_height, leaf_base_height, leaf_availability, metric_topic, format_tenths_mm,
}
use mqtt_linak.Desk.{
  Ending, Place, owning, reading_base, Manager, Effect, publish, publish_retained, online_payload,
  offline_payload, topic, publish_throttled, on_reference_output, republish_state, submit, enqueue,
  new_desk_manager,
}
use mqtt_linak.Desk.Run.{
  Reply, value, Wake, by_flush, loop_top, serve, replied, finish_round, next_round, announce,
}
use mqtt_linak.Desk.Machine.{
  Event, position, reply, offer_peripheral, receive_peripheral, quit_wait, step, run,
}
use mqtt_linak.Desk.Machine.Rule.{Rule, step-Rule, run-Kept_by}
use mqtt_linak.Desk.Machine.Keeps.{
  Same, are_quiet, first, Quiet, set_values, flush_values, announce-Same, replied-Quiet,
  finish_round-Same, finish_round-first, serve-Quiet, quit_wait-Quiet,
}

-- What is known of the positions and of the base offsets that an event brings.
abbrev pub Brings : (ℤ → Type 0) → (ℤ → Type 0) → Event → Type 0
Brings H B (position x v now) = H x
Brings H B (reply (value v) now) = B v
Brings H B _ = Unit

module _ (c : Config) (d : Config.Desk) (H B : ℤ → Type 0) where
  abbrev pub metric : Text → Text
  metric leaf = metric_topic c.mqtt.metric_topic_base d.id leaf

  -- A publish tells a known height or base height on its topic, or the availability on that.
  abbrev pub Honest : Effect → Type 0
  Honest (publish t p) =
      ((x : ℤ) × (t ≡ metric leaf_height) × (p ≡ format_tenths_mm x) × H x)
      ⊎ ((x : ℤ) × (t ≡ metric leaf_base_height) × (p ≡ format_tenths_mm x) × B x)
  Honest (publish_retained t p) =
      (t ≡ metric leaf_availability) × ((p ≡ online_payload) ⊎ (p ≡ offline_payload))
  Honest _ = Unit

  -- What a manager keeps of its desk is known.
  pub record Knows (m : Manager) : Type 0 where
    pub own : m.cfg ≡ d
    pub height : m.has_height ≡ true → H m.last_height
    pub pending : m.throttle.has_pending ≡ true → H m.throttle.pending
    pub base : m.has_base ≡ true → B m.last_base

  abbrev Reports : Manager × List Effect → Type 0
  Reports s = All Honest s.1 × Knows s.0

  topic-metric : (m : Manager) (leaf : Text) → m.cfg ≡ d → topic c m leaf ≡ metric leaf
  unfolding topic
  topic-metric m leaf e =
      ap (λ (x : Config.Desk). metric_topic c.mqtt.metric_topic_base x.id leaf) e

  publish_throttled-Reports :
      (m : Manager) (t : Throttle) (o : Option ℤ)
      → Knows m
      → (t.has_pending ≡ true → H t.pending)
      → ((x : ℤ) → o ≡ some x → H x)
      → Reports (publish_throttled c m (t, o))
  unfolding publish_throttled
  publish_throttled-Reports m t none k p h =
      (tt, record { own = k.own; height = k.height; pending = p; base = k.base })
  publish_throttled-Reports m t (some x) k p h = (
    (inl (x, topic-metric m leaf_height k.own, refl, h x refl), tt),
    record { own = k.own; height = λ _. h x refl; pending = p; base = k.base },
  )

  set-pending :
      (t : Throttle) (x : ℤ) (force : Bool) (now : ℕ)
      → H x
      → ((set t x force now).0.has_pending ≡ true → H (set t x force now).0.pending)
        × ((y : ℤ) → (set t x force now).1 ≡ some y → H y)
  set-pending t x force now h = (
    λ e. subst H (sym ((set_values t x force now).0 e)) h,
    λ y e. subst H (sym ((set_values t x force now).1 y e)) h,
  )

  flush-pending :
      (t : Throttle) (now : ℕ)
      → (t.has_pending ≡ true → H t.pending)
      → ((flush t now).0.has_pending ≡ true → H (flush t now).0.pending)
        × ((y : ℤ) → (flush t now).1 ≡ some y → H y)
  flush-pending t now h = (
    λ e. let (was, same) = (flush_values t now).0 e in subst H (sym same) (h was),
    λ y e. let (was, same) = (flush_values t now).1 y e in subst H (sym same) (h was),
  )

  if-Honest :
      (b : Bool) (e : Effect) → (b ≡ true → Honest e) → All Honest (if b then e ∷ [] else [])
  if-Honest true e h = (h refl, tt)
  if-Honest false e h = tt

  online-Honest :
      (b : Bool)
      → ((if b then online_payload else offline_payload) ≡ online_payload)
        ⊎ ((if b then online_payload else offline_payload) ≡ offline_payload)
  online-Honest true = inl refl
  online-Honest false = inr refl

  pub republish_state-Honest : (m : Manager) → Knows m → All Honest (republish_state c m)
  unfolding republish_state
  republish_state-Honest m k = (
    (topic-metric m leaf_availability k.own, online-Honest m.online),
    All-append Honest _ _
        (if-Honest m.has_height _
          (λ y. inl (m.last_height, topic-metric m leaf_height k.own, refl, k.height y)))
        (if-Honest m.has_base _
          (λ y. inr (m.last_base, topic-metric m leaf_base_height k.own, refl, k.base y))),
  )

  Knows-Same : (m m' : Manager) → Same m m' → Knows m → Knows m'
  Knows-Same m m' s k = record {
    own = s.own ∙ k.own;
    height = λ e. subst H (sym s.height) (k.height (sym s.has_height ∙ e));
    pending = λ e. let (was, same) = s.pending e in subst H (sym same) (k.pending was);
    base = λ e. subst B (sym s.base) (k.base (sym s.has_base ∙ e));
  }

  is_quiet-Honest : (es : List Effect) → are_quiet es ≡ true → All Honest es
  is_quiet-Honest [] h = tt
  is_quiet-Honest (publish t p ∷ es) h = absurd (cc)
  is_quiet-Honest (publish_retained t p ∷ es) h = absurd (cc)
  is_quiet-Honest (_ ∷ es) h = (tt, is_quiet-Honest es h)

  Quiet-Reports : (m : Manager) (s : Manager × List Effect) → Quiet m s → Knows m → Reports s
  Quiet-Reports m s (quiet, same) k = (is_quiet-Honest s.1 quiet, Knows-Same m s.0 same k)

  first-Honest :
      (es : List Effect) (e : Effect) → Honest e → first es ≡ (some e, true) → All Honest es
  first-Honest [] e h p = absurd (cc)
  first-Honest (x ∷ es) e h p = (subst Honest (cc (p)) h, is_quiet-Honest es (cc (p)))

  announce-Reports : (now : ℕ) (m : Manager) → Knows m → Reports (announce c now m)
  unfolding announce
  announce-Reports now m k = (
    ((topic-metric m leaf_availability k.own, inl refl), (tt, tt)),
    Knows-Same m (announce c now m).0 (announce-Same c now m) k,
  )

  finish_round-Honest :
      (e : Ending) (r : ℤ) (now : ℕ) (m : Manager)
      → Knows m
      → All Honest (finish_round c e r now m).1
  finish_round-Honest e r now m k =
      first-Honest (finish_round c e r now m).1
        (publish_retained (topic c m leaf_availability) offline_payload)
        (topic-metric m leaf_availability k.own, inr refl) (finish_round-first c e r now m)

  replied-Reports :
      (p : Place) (r : Reply) (now : ℕ) (m : Manager)
      → Brings H B (reply r now)
      → Knows m
      → Reports (replied c p r now m)
  unfolding replied
  replied-Reports reading_base (value v) now m b k = (
    (inr (v, topic-metric m leaf_base_height k.own, refl, b), tt),
    record { own = k.own; height = k.height; pending = k.pending; base = λ _. b },
  )
  replied-Reports reading_base r now m b k =
      (tt, record { own = k.own; height = k.height; pending = k.pending; base = k.base })
  replied-Reports owning r now m b k = announce-Reports now m k
  replied-Reports p r now m b k =
      Quiet-Reports m (replied c p r now m) (replied-Quiet c p r now m (λ e. cc) (λ e. cc)) k

  finish_round-Reports :
      (e : Ending) (r : ℤ) (now : ℕ) (m : Manager) → Knows m → Reports (finish_round c e r now m)
  finish_round-Reports e r now m k = (
    finish_round-Honest e r now m k,
    Knows-Same m (finish_round c e r now m).0 (finish_round-Same c e r now m) k,
  )

  serve-Reports : (w : Wake) (now : ℕ) (m : Manager) → Knows m → Reports (serve c w now m)
  unfolding serve
  serve-Reports by_flush now m k =
      let (p, h) = flush-pending m.throttle now k.pending in
      publish_throttled-Reports m (flush m.throttle now).0 (flush m.throttle now).1 k p h
  serve-Reports w now m k = Quiet-Reports m (serve c w now m) (serve-Quiet c w now m (λ e. cc)) k

  on_reference_output-Reports :
      (x speed : ℤ) (now : ℕ) (m : Manager)
      → H x
      → Knows m
      → Reports (on_reference_output c m x speed now)
  unfolding on_reference_output
  on_reference_output-Reports x speed now m h k =
      let s = set m.throttle x (eq_ℤ speed (pos 0)) now in
      let (p, q) = set-pending m.throttle x (eq_ℤ speed (pos 0)) now h in
      publish_throttled-Reports m s.0 s.1 k p q

  abbrev ReportsBy : Event → Manager → Manager × List Effect → Type 0
  ReportsBy e m s = Brings H B e → Knows m → Reports s

  reporting : {F : Type 0} (nums : Numbers F) → Rule c nums ReportsBy
  unfolding submit enqueue offer_peripheral loop_top receive_peripheral next_round
  reporting nums = record {
    stays = λ e m b k. (tt, k);
    cancels = λ m b k. (tt, Knows-Same m _ (ground arith) k);
    drops = λ m b k. (tt, Knows-Same m _ (ground arith) k);
    offers = λ pid m b k. Quiet-Reports m (offer_peripheral pid m) (ground arith) k;
    moves = λ x v now m b k. on_reference_output-Reports x v now m b k;
    submits =
        λ kind payload m b k. Quiet-Reports m (submit nums m kind payload, []) (ground arith) k;
    repeats = λ m b k. (republish_state-Honest m k, k);
    starts = λ m q b k. Quiet-Reports m (loop_top m) (ground arith) k;
    finishes = λ e r now m q b k. finish_round-Reports e r now m k;
    receives = λ m q b k. Quiet-Reports m (receive_peripheral m) (ground arith) k;
    quits = λ p m q y b k. Quiet-Reports m (quit_wait p m) (quit_wait-Quiet c p m) k;
    replies = λ p r now m q b k. replied-Reports p r now m b k;
    serves = λ w now m q b k. serve-Reports w now m k;
    sleeps = λ m q b k. Quiet-Reports m (next_round c m) (ground arith) k;
  }

  module _ {F : Type 0} (nums : Numbers F) where
    pub step-Reports :
        (m : Manager) (e : Event) → Brings H B e → Knows m → All Honest (step c nums m e).1
    step-Reports m e b k = (step-Rule c nums ReportsBy (reporting nums) m e b k).0

    pub run-Knows :
        (m : Manager) (es : List Event) → All (Brings H B) es → Knows m → Knows (run c nums m es).0
    run-Knows =
        run-Kept_by c nums (Brings H B) Knows
          (λ m e b k. (step-Rule c nums ReportsBy (reporting nums) m e b k).1)

  pub new_desk_manager-Knows : Knows (new_desk_manager c d)
  unfolding new_desk_manager
  new_desk_manager-Knows = record {
    own = refl;
    height = λ e. absurd (cc);
    pending = λ e. absurd (cc);
    base = λ e. absurd (cc);
  }
