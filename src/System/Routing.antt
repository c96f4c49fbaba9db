-- ===== src/System/Routing.antt =====
-- internal/bridge/bridge.go, internal/mqttc/mqttc.go: a command message reaches the desk of its topic.
use mathlib.Core.Path.{subst}
use mqtt_linak.Base.{
  ℕ, zero, suc, ◌+◌, ◌≡◌, ◌≢◌, refl, sym, ap, ◌∙◌, true, false, some, List, [], ◌∷◌, All, Lacks,
  get_elem?, Text, text_eq, text_eq_refl, text_eq→eq, eq-false, arith,
}
use mqtt_linak.Config
use mqtt_linak.Config.{Config}
use mqtt_linak.Config.Valid.Spec.{IsDesk, Distinct}
use mqtt_linak.Topics.{leaf_height, leaf_base_height, Numbers, metric_topic, command_topic}
use mqtt_linak.Topics.Names.{metric_topic-injective}
use mqtt_linak.Desk.{CommandKind, height, base_height, kind_string, Manager}
use mqtt_linak.Desk.Machine.{arrives, step}
use mqtt_linak.Bridge.Commands.{Handler, routes}
use mqtt_linak.Mqttc.{Subscription}
use mqtt_linak.System.{update_at, deliver}

-- Topics of two desks, or of two kinds, differ.
command_topic-apart :
    (base a b l m : Text)
    → Lacks b'/' a
    → Lacks b'/' b
    → ((a ≡ b) → (l ≡ m) → ⊥)
    → text_eq (command_topic base a l) (command_topic base b m) ≡ false
unfolding command_topic metric_topic
command_topic-apart base a b l m h k n =
    eq-false (text_eq (metric_topic base a l) (metric_topic base b m)) (λ y.
      let (same, leaf) =
        metric_topic-injective base a b l m h k
          (text_eq→eq (metric_topic base a l) (metric_topic base b m) y) in
      n same leaf)

All-at :
    {A : Type 0} (P : A → Type 0) (xs : List A) (i : ℕ) (x : A)
    → All P xs
    → get_elem? xs i ≡ some x
    → P x
All-at P [] i x h at = absurd (cc)
All-at P (y ∷ xs) zero x h at = subst P (cc (at)) h.0
All-at P (y ∷ xs) (suc i) x h at = All-at P xs i x h.1 at

module _ (c : Config) {F : Type 0} (nums : Numbers F) (base payload : Text) where
  deliver-pass :
      (s : Subscription Handler) (ss : List (Subscription Handler)) (topic : Text)
      (ms : List Manager)
      → text_eq s.filter topic ≡ false
      → deliver c nums (s ∷ ss) topic payload ms ≡ deliver c nums ss topic payload ms
  unfolding deliver
  deliver-pass s ss topic ms n = rw n refl

  deliver-hit :
      (s : Subscription Handler) (ss : List (Subscription Handler)) (topic : Text)
      (ms : List Manager)
      → text_eq s.filter topic ≡ true
      → deliver c nums (s ∷ ss) topic payload ms
        ≡ deliver c nums ss topic payload
            (update_at (λ m. step c nums m (arrives s.handler.1 payload)) s.handler.0 ms).0
  unfolding deliver
  deliver-hit s ss topic ms y = rw y refl

  -- The two subscriptions of a desk.
  abbrev on_height : ℕ → Config.Desk → Subscription Handler
  on_height k d = record { filter = command_topic base d.id leaf_height; handler = (k, height) }

  abbrev on_base_height : ℕ → Config.Desk → Subscription Handler
  on_base_height k d = record {
    filter = command_topic base d.id leaf_base_height;
    handler = (k, base_height);
  }

  -- The topics of the other desks are passed over.
  deliver-routes_none :
      (id leaf : Text) (k : ℕ) (ds : List Config.Desk) (ms : List Manager)
      → Lacks b'/' id
      → All IsDesk ds
      → All (λ (e : Config.Desk). e.id ≢ id) ds
      → deliver c nums (routes base k ds) (command_topic base id leaf) payload ms ≡ ms
  unfolding deliver
  deliver-routes_none id leaf k [] ms s _ _ = refl
  deliver-routes_none id leaf k (d ∷ ds) ms s (p, ps) (n, ns) =
      let off : (l : Text)
          → text_eq (command_topic base d.id l) (command_topic base id leaf) ≡ false =
        λ l. command_topic-apart base d.id id l leaf p.proper_id.no_slash s (λ e q. n e) in
      deliver-pass (on_height k d) (on_base_height k d ∷ routes base (suc k) ds) _ ms
        (off leaf_height)
      ∙ (deliver-pass (on_base_height k d) (routes base (suc k) ds) _ ms (off leaf_base_height)
          ∙ deliver-routes_none id leaf (suc k) ds ms s ps ns)

  -- The subscriptions of the desk itself.
  deliver-routes_here :
      (kind : CommandKind) (k : ℕ) (d : Config.Desk) (ds : List Config.Desk) (ms : List Manager)
      → Lacks b'/' d.id
      → All IsDesk ds
      → All (λ (e : Config.Desk). e.id ≢ d.id) ds
      → deliver c nums
          (routes base k (d ∷ ds))
          (command_topic base d.id (kind_string kind))
          payload
          ms
        ≡ (update_at (λ m. step c nums m (arrives kind payload)) k ms).0
  unfolding kind_string
  deliver-routes_here height k d ds ms s ps ns =
      deliver-hit (on_height k d) (on_base_height k d ∷ routes base (suc k) ds) _ ms
        (text_eq_refl (command_topic base d.id leaf_height))
      ∙ (deliver-pass (on_base_height k d) (routes base (suc k) ds) _ _
            (command_topic-apart base d.id d.id leaf_base_height leaf_height s s (λ e q. cc (q)))
          ∙ deliver-routes_none d.id leaf_height (suc k) ds _ s ps ns)
  deliver-routes_here base_height k d ds ms s ps ns =
      deliver-pass (on_height k d) (on_base_height k d ∷ routes base (suc k) ds) _ ms
        (command_topic-apart base d.id d.id leaf_height leaf_base_height s s (λ e q. cc (q)))
      ∙ (deliver-hit (on_base_height k d) (routes base (suc k) ds) _ ms
            (text_eq_refl (command_topic base d.id leaf_base_height))
          ∙ deliver-routes_none d.id leaf_base_height (suc k) ds _ s ps ns)

  -- With proper and distinct ids, a message on the topic of a desk for a kind is that command for
  -- this desk, and nothing for the others.
  pub deliver-routes :
      (kind : CommandKind) (k i : ℕ) (ds : List Config.Desk) (d : Config.Desk) (ms : List Manager)
      → All IsDesk ds
      → Distinct ds
      → get_elem? ds i ≡ some d
      → deliver c nums (routes base k ds) (command_topic base d.id (kind_string kind)) payload ms
        ≡ (update_at (λ m. step c nums m (arrives kind payload)) (k + i) ms).0
  deliver-routes kind k i [] d ms _ _ at = absurd (cc)
  deliver-routes kind k zero (x ∷ ds) d ms (p, ps) (n, ns) at =
      let to : Config.Desk → List Manager = λ y.
        deliver c nums (routes base k (x ∷ ds)) (command_topic base y.id (kind_string kind)) payload
          ms in
      let same : d ≡ x = cc (at) in
      ap to same
      ∙ (deliver-routes_here kind k x ds ms p.proper_id.no_slash ps n
          ∙ ap (λ j. (update_at (λ m. step c nums m (arrives kind payload)) j ms).0) (omega arith))
  deliver-routes kind k (suc i) (x ∷ ds) d ms (p, ps) (n, ns) at =
      let q : IsDesk d = All-at IsDesk ds i d ps at in
      let away : d.id ≢ x.id = All-at (λ (e : Config.Desk). e.id ≢ x.id) ds i d n at in
      let topic : Text = command_topic base d.id (kind_string kind) in
      let off : (l : Text) → text_eq (command_topic base x.id l) topic ≡ false = λ l.
        command_topic-apart base x.id d.id l (kind_string kind) p.proper_id.no_slash
          q.proper_id.no_slash (λ e r. away (sym e)) in
      deliver-pass (on_height k x) (on_base_height k x ∷ routes base (suc k) ds) topic ms
        (off leaf_height)
      ∙ (deliver-pass (on_base_height k x) (routes base (suc k) ds) topic ms (off leaf_base_height)
          ∙ (deliver-routes kind (suc k) i ds d ms ps ns at
              ∙ ap (λ j. (update_at (λ m. step c nums m (arrives kind payload)) j ms).0)
                  (omega arith)))
