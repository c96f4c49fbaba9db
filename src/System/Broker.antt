-- ===== src/System/Broker.antt =====
-- internal/bridge/bridge.go, internal/bridge/desk.go: what `republishAll` leaves retained on the broker.
use mathlib.Core.Path.{subst}
use mqtt_linak.Base.{
  ℕ, zero, suc, ◌≡◌, ◌≢◌, refl, sym, ap, ◌∙◌, Bool, true, false, ◌&&◌, Option, some, List, [], ◌∷◌,
  ◌++◌, All, All₂, get_elem?, Text, text_eq, text_eq_refl, text_eq→eq, eq-false, arith,
  if◌then◌else◌,
}
use mqtt_linak.Config
use mqtt_linak.Config.{Config, reserved_desk_id}
use mqtt_linak.Config.Valid.Spec.{IsDesk, Distinct}
use mqtt_linak.Topics.{
  leaf_height, leaf_base_height, leaf_availability, metric_topic, format_tenths_mm,
}
use mqtt_linak.Topics.Names.{metric_topic-injective}
use mqtt_linak.Desk.{
  Manager, Effect, publish, publish_retained, online_payload, offline_payload, topic,
  republish_state,
}
use mqtt_linak.Bridge.Names.{leaf-apart}
use mqtt_linak.Mqttc
use mqtt_linak.Mqttc.{Client, publish_metric, send}
use mqtt_linak.Bridge.Commands.{Handler}
use mqtt_linak.System.{Output, of_client, pass_on, republish_desks}

-- What the broker keeps on a topic: the last payload that was published there to be retained; `r` is
-- what it kept before.
abbrev pub stored : Option Text → Text → List Output → Option Text
stored r t [] = r
stored r t (of_client (Mqttc.publish u qos true p) ∷ out) =
    stored (if text_eq t u then some p else r) t out
stored r t (_ ∷ out) = stored r t out

-- The same of what the desks publish, when metrics are retained or not.
abbrev pub kept : Bool → Option Text → Text → List Effect → Option Text
kept k r t [] = r
kept k r t (publish u p ∷ es) = kept k (if k && text_eq t u then some p else r) t es
kept k r t (publish_retained u p ∷ es) = kept k (if text_eq t u then some p else r) t es
kept k r t (_ ∷ es) = kept k r t es

pub stored-pass_on :
    (q : Client Handler) (k : Bool) (r : Option Text) (t : Text) (es : List Effect)
    → q.is_open ≡ true
    → q.retain ≡ k
    → stored r t (pass_on q 0 es) ≡ kept k r t es
unfolding pass_on publish_metric Mqttc.publish_retained send
stored-pass_on q k r t [] o h = refl
stored-pass_on q true r t (publish u p ∷ es) o h =
    rw (o, h) (stored-pass_on q true (if text_eq t u then some p else r) t es o h)
stored-pass_on q false r t (publish u p ∷ es) o h = rw (o, h) (stored-pass_on q false r t es o h)
stored-pass_on q k r t (publish_retained u p ∷ es) o h =
    rw o (stored-pass_on q k (if text_eq t u then some p else r) t es o h)
stored-pass_on q k r t (_ ∷ es) o h = stored-pass_on q k r t es o h

kept-append :
    (k : Bool) (r : Option Text) (t : Text) (xs ys : List Effect)
    → kept k r t (xs ++ ys) ≡ kept k (kept k r t xs) t ys
kept-append k r t [] ys = refl
kept-append k r t (publish u p ∷ xs) ys =
    kept-append k (if k && text_eq t u then some p else r) t xs ys
kept-append k r t (publish_retained u p ∷ xs) ys =
    kept-append k (if text_eq t u then some p else r) t xs ys
kept-append k r t (_ ∷ xs) ys = kept-append k r t xs ys

pub other : (t u : Text) → t ≢ u → text_eq t u ≡ false
other t u n = eq-false (text_eq t u) (λ y. n (text_eq→eq t u y))

module _ (c : Config) where
  -- The topic of a desk's metric.
  abbrev pub topic_of : Config.Desk → Text → Text
  topic_of d leaf = metric_topic c.mqtt.metric_topic_base d.id leaf

  -- A desk says nothing on the topics of another.
  republish_state-other :
      (m : Manager) (d : Config.Desk) (leaf : Text) (r : Option Text)
      → IsDesk d
      → IsDesk m.cfg
      → d.id ≢ m.cfg.id
      → kept c.mqtt.retain r (topic_of d leaf) (republish_state c m) ≡ r
  unfolding republish_state
  republish_state-other m d leaf r p q n =
      let apart : (l : Text) → text_eq (topic_of d leaf) (topic c m l) ≡ false = λ l.
        unfold topic in
        other (topic_of d leaf) (topic_of m.cfg l) (λ e.
          n
            (metric_topic-injective c.mqtt.metric_topic_base d.id m.cfg.id leaf l
              p.proper_id.no_slash q.proper_id.no_slash e).0) in
      ground (arith, apart leaf_availability, apart leaf_height, apart leaf_base_height)

  -- What the broker keeps of a desk's state, if it kept `before` before: its availability, and, if
  -- metrics are retained, its height and base height as far as they are known.
  pub record Shows (m : Manager) (before last : Text → Option Text) : Type 0 where
    pub availability :
        last (topic_of m.cfg leaf_availability)
        ≡ some (if m.online then online_payload else offline_payload)
    pub position : last (topic_of m.cfg leaf_height) ≡ (
        if c.mqtt.retain && m.has_height
        then some (format_tenths_mm m.last_height)
        else before (topic_of m.cfg leaf_height))
    pub base : last (topic_of m.cfg leaf_base_height) ≡ (
        if c.mqtt.retain && m.has_base
        then some (format_tenths_mm m.last_base)
        else before (topic_of m.cfg leaf_base_height))

  republish_state-Shows :
      (m : Manager) (r : Text → Option Text)
      → IsDesk m.cfg
      → Shows m r (λ t. kept c.mqtt.retain (r t) t (republish_state c m))
  unfolding republish_state topic
  republish_state-Shows m r p =
      let away : (l k : Text) → l ≢ k → text_eq (topic_of m.cfg l) (topic_of m.cfg k) ≡ false =
        λ l k n.
          other (topic_of m.cfg l) (topic_of m.cfg k)
            (leaf-apart c.mqtt.metric_topic_base m.cfg.id l k p.proper_id.no_slash n) in
      let same : (l : Text) → text_eq (topic_of m.cfg l) (topic_of m.cfg l) ≡ true =
        λ l. text_eq_refl (topic_of m.cfg l) in
      let ah = away leaf_availability leaf_height (λ e. cc) in
      let ab = away leaf_availability leaf_base_height (λ e. cc) in
      let ha = away leaf_height leaf_availability (λ e. cc) in
      let hb = away leaf_height leaf_base_height (λ e. cc) in
      let ba = away leaf_base_height leaf_availability (λ e. cc) in
      let bh = away leaf_base_height leaf_height (λ e. cc) in
      record {
        availability = ground (arith, same leaf_availability, ah, ab);
        position = ground (arith, same leaf_height, ha, hb);
        base = ground (arith, same leaf_base_height, ba, bh);
      }

  abbrev pub IsOf : Config.Desk → Manager → Type 0
  IsOf d m = m.cfg ≡ d

  republish_desks-other :
      (d : Config.Desk) (leaf : Text) (ds : List Config.Desk) (ms : List Manager) (r : Option Text)
      → IsDesk d
      → All IsDesk ds
      → All (λ (e : Config.Desk). e.id ≢ d.id) ds
      → All₂ IsOf ds ms
      → kept c.mqtt.retain r (topic_of d leaf) (republish_desks c ms) ≡ r
  unfolding republish_desks
  republish_desks-other d leaf [] [] r p _ _ _ = refl
  republish_desks-other d leaf [] (m ∷ ms) r p _ _ h = absurd h
  republish_desks-other d leaf (e ∷ ds) [] r p _ _ h = absurd h
  republish_desks-other d leaf (e ∷ ds) (m ∷ ms) r p (q, qs) (n, ns) (same, h) =
      kept-append c.mqtt.retain r (topic_of d leaf) (republish_state c m) (republish_desks c ms)
      ∙ (ap (λ x. kept c.mqtt.retain x (topic_of d leaf) (republish_desks c ms))
            (republish_state-other m d leaf r p (subst IsDesk (sym same) q)
              (λ x. n (sym (x ∙ ap (λ y. y.id) same))))
          ∙ republish_desks-other d leaf ds ms r p qs ns h)

  -- The desk at the head has its say, and those behind it do not change that.
  head-Shows :
      (ds : List Config.Desk) (m : Manager) (ms : List Manager) (r : Text → Option Text)
      → IsDesk m.cfg
      → All IsDesk ds
      → All (λ (e : Config.Desk). e.id ≢ m.cfg.id) ds
      → All₂ IsOf ds ms
      → Shows m r (λ t. kept c.mqtt.retain (r t) t (republish_state c m ++ republish_desks c ms))
  head-Shows ds m ms r p ps ns h =
      let own = republish_state-Shows m r p in
      let same : (leaf : Text)
          → kept c.mqtt.retain (r (topic_of m.cfg leaf)) (topic_of m.cfg leaf)
              (republish_state c m ++ republish_desks c ms)
            ≡ kept c.mqtt.retain (r (topic_of m.cfg leaf)) (topic_of m.cfg leaf)
                (republish_state c m) =
        λ leaf.
          kept-append c.mqtt.retain (r (topic_of m.cfg leaf)) (topic_of m.cfg leaf)
            (republish_state c m) (republish_desks c ms)
          ∙ republish_desks-other m.cfg leaf ds ms _ p ps ns h in
      record {
        availability = same leaf_availability ∙ own.availability;
        position = same leaf_height ∙ own.position;
        base = same leaf_base_height ∙ own.base;
      }

  -- It matters neither how the broker came to keep what it keeps, nor what it kept on other topics.
  pub Shows-eq :
      (m : Manager) (before r f g : Text → Option Text)
      → ((t : Text) → f t ≡ g t)
      → ((leaf : Text)
          → leaf ≢ leaf_availability
          → r (topic_of m.cfg leaf) ≡ before (topic_of m.cfg leaf))
      → Shows m r g
      → Shows m before f
  Shows-eq m before r f g e n h = record {
    availability = e _ ∙ h.availability;
    position =
        e _
        ∙ (h.position
            ∙ ap
                (λ x.
                  if c.mqtt.retain && m.has_height
                  then some (format_tenths_mm m.last_height)
                  else x)
                (n leaf_height (λ q. cc)));
    base =
        e _
        ∙ (h.base
            ∙ ap
                (λ x.
                  if c.mqtt.retain && m.has_base then some (format_tenths_mm m.last_base) else x)
                (n leaf_base_height (λ q. cc)));
  }

  pub All-at :
      (P : Config.Desk → Type 0) (ds : List Config.Desk) (ms : List Manager) (i : ℕ) (m : Manager)
      → All P ds
      → All₂ IsOf ds ms
      → get_elem? ms i ≡ some m
      → P m.cfg
  All-at P [] [] i m _ _ at = absurd (cc)
  All-at P [] (x ∷ ms) i m _ h at = absurd h
  All-at P (d ∷ ds) [] i m _ h at = absurd h
  All-at P (d ∷ ds) (x ∷ ms) zero m (p, ps) (same, h) at =
      let e : x ≡ m = cc (at) in subst P (sym same ∙ ap (λ (y : Manager). y.cfg) e) p
  All-at P (d ∷ ds) (x ∷ ms) (suc i) m (p, ps) (same, h) at = All-at P ds ms i m ps h at

  pub republish_desks-Shows :
      (ds : List Config.Desk) (ms : List Manager) (i : ℕ) (m : Manager) (r : Text → Option Text)
      → All IsDesk ds
      → Distinct ds
      → All₂ IsOf ds ms
      → get_elem? ms i ≡ some m
      → Shows m r (λ t. kept c.mqtt.retain (r t) t (republish_desks c ms))
  unfolding republish_desks
  republish_desks-Shows [] [] i m r _ _ _ at = absurd (cc)
  republish_desks-Shows [] (x ∷ ms) i m r _ _ h at = absurd h
  republish_desks-Shows (d ∷ ds) [] i m r _ _ h at = absurd h
  republish_desks-Shows (d ∷ ds) (x ∷ ms) zero m r (p, ps) (n, ns) (same, h) at =
      let e : x ≡ m = cc (at) in
      let is : d ≡ m.cfg = sym same ∙ ap (λ y. y.cfg) e in
      subst
        (λ y.
          Shows m r (λ t. kept c.mqtt.retain (r t) t (republish_state c y ++ republish_desks c ms)))
        (sym e)
        (head-Shows ds m ms r (subst IsDesk is p) ps
          (subst (λ (y : Config.Desk). All (λ (e : Config.Desk). e.id ≢ y.id) ds) is n) h)
  republish_desks-Shows (d ∷ ds) (x ∷ ms) (suc i) m r (p, ps) (n, ns) (same, h) at =
      let here : IsDesk m.cfg = All-at IsDesk ds ms i m ps h at in
      let apart : m.cfg.id ≢ d.id = All-at (λ (e : Config.Desk). e.id ≢ d.id) ds ms i m n h at in
      let r' : Text → Option Text = λ t. kept c.mqtt.retain (r t) t (republish_state c x) in
      Shows-eq m r r' _ _
        (λ t. kept-append c.mqtt.retain (r t) t (republish_state c x) (republish_desks c ms))
        (λ leaf _.
          republish_state-other x m.cfg leaf (r (topic_of m.cfg leaf)) here
            (subst IsDesk (sym same) p) (λ e. apart (e ∙ ap (λ (y : Config.Desk). y.id) same)))
        (republish_desks-Shows ds ms i m r' ps ns h at)
