-- ===== src/Bridge/Names.antt =====
-- internal/bridge/bridge.go, internal/bridge/desk.go: what is published stays apart.
use mqtt_linak.Base.{sym, ◌≢◌, List, [], ◌∷◌, All, All-map, Text, Lacks, arith}
use mqtt_linak.Config
use mqtt_linak.Config.{Config, reserved_desk_id}
use mqtt_linak.Config.Valid.Spec.{IsDesk, Distinct, IsValid}
use mqtt_linak.Topics.{leaf_height, leaf_base_height, leaf_availability, metric_topic}
use mqtt_linak.Topics.Names.{metric_topic-injective}
use mqtt_linak.Bridge.{bridge_availability_topic}

-- The metric topics of the desks: three of each.
abbrev pub desk_topics : Text → List Config.Desk → List Text
desk_topics base [] = []
desk_topics base (d ∷ ds) =
    metric_topic base d.id leaf_height
    ∷ metric_topic base d.id leaf_base_height
    ∷ metric_topic base d.id leaf_availability
    ∷ desk_topics base ds

-- All topics that the program publishes to.
abbrev pub published_topics : Config → List Text
published_topics c = bridge_availability_topic c ∷ desk_topics c.mqtt.metric_topic_base c.desks

-- No text occurs twice.
abbrev pub Unique : List Text → Type 0
Unique [] = Unit
Unique (t ∷ ts) = All (λ u. t ≢ u) ts × Unique ts

desk_topics-apart :
    (base id leaf : Text) (ds : List Config.Desk)
    → Lacks b'/' id
    → All IsDesk ds
    → All (λ (e : Config.Desk). id ≢ e.id) ds
    → All (λ u. metric_topic base id leaf ≢ u) (desk_topics base ds)
desk_topics-apart base id leaf [] l _ _ = tt
desk_topics-apart base id leaf (d ∷ ds) l (p, ps) (n, ns) =
    let other : (m : Text) → metric_topic base id leaf ≢ metric_topic base d.id m =
      λ m e. n (metric_topic-injective base id d.id leaf m l p.proper_id.no_slash e).0 in
    (
      other leaf_height,
      (
        other leaf_base_height,
        (other leaf_availability, desk_topics-apart base id leaf ds l ps ns),
      ),
    )

pub leaf-apart :
    (base id l m : Text) → Lacks b'/' id → l ≢ m → metric_topic base id l ≢ metric_topic base id m
leaf-apart base id l m s n e = n (metric_topic-injective base id id l m s s e).1

desk_topics-Unique :
    (base : Text) (ds : List Config.Desk)
    → All IsDesk ds
    → Distinct ds
    → Unique (desk_topics base ds)
desk_topics-Unique base [] _ _ = tt
desk_topics-Unique base (d ∷ ds) (p, ps) (n, ns) =
    let s = p.proper_id.no_slash in
    let away : (leaf : Text) → All (λ u. metric_topic base d.id leaf ≢ u) (desk_topics base ds) =
      λ leaf. desk_topics-apart base d.id leaf ds s ps (
        All-map (λ (e : Config.Desk). e.id ≢ d.id) (λ (e : Config.Desk). d.id ≢ e.id)
          (λ e m q. m (sym q)) ds n) in
    (
      (
        leaf-apart base d.id _ _ s (λ e. cc),
        (leaf-apart base d.id _ _ s (λ e. cc), away leaf_height),
      ),
      (
        (leaf-apart base d.id _ _ s (λ e. cc), away leaf_base_height),
        (away leaf_availability, desk_topics-Unique base ds ps ns),
      ),
    )

pub reserved-Lacks : Lacks b'/' reserved_desk_id
reserved-Lacks = omega arith

-- With a valid configuration the topics that the bridge and its desks publish to are all different.
pub published_topics-Unique : (c : Config) → IsValid c → Unique (published_topics c)
unfolding bridge_availability_topic
published_topics-Unique c v = (
  desk_topics-apart _ reserved_desk_id leaf_availability c.desks reserved-Lacks v.proper_desks (
      All-map IsDesk (λ (d : Config.Desk). reserved_desk_id ≢ d.id)
        (λ d p q. p.proper_id.not_reserved (sym q)) c.desks v.proper_desks),
  desk_topics-Unique _ c.desks v.proper_desks v.distinct_ids,
)
