-- ===== src/Bridge/Commands.antt =====
-- internal/bridge/bridge.go: the command topics that the bridge subscribes to.
use mqtt_linak.Base.{ℕ, suc, ◌≡◌, sym, ◌∙◌, List, [], ◌∷◌, ◌++◌, Text, append-nil, append_assoc}
use mqtt_linak.Config
use mqtt_linak.Config.{Config}
use mqtt_linak.Topics.{leaf_height, leaf_base_height, command_topic}
use mqtt_linak.Desk.{CommandKind, height, base_height}
use mqtt_linak.Mqttc.{Client, Effect, Subscription, add_subscription}

-- A handler hands the payload to a desk, by its place in the list, as a command of one kind.
abbrev pub Handler : Type 0
Handler = ℕ × CommandKind

-- The loop of `subscribeCommands`, from place `i`.
unfoldable pub subscribe_commands :
    Text → ℕ → List Config.Desk → Client Handler → Client Handler × List (Effect Handler)
unfolding add_subscription command_topic
subscribe_commands base i [] q = (q, [])
subscribe_commands base i (d ∷ ds) q =
    let (q₁, first) = add_subscription (command_topic base d.id leaf_height) (i, height) q in
    let (q₂, second) =
      add_subscription (command_topic base d.id leaf_base_height) (i, base_height) q₁ in
    let (q₃, rest) = subscribe_commands base (suc i) ds q₂ in (q₃, first ++ (second ++ rest))

-- What is subscribed to, and for whom.
abbrev pub routes : Text → ℕ → List Config.Desk → List (Subscription Handler)
routes base i [] = []
routes base i (d ∷ ds) =
    record { filter = command_topic base d.id leaf_height; handler = (i, height) }
    ∷ record { filter = command_topic base d.id leaf_base_height; handler = (i, base_height) }
    ∷ routes base (suc i) ds

pub subscribed :
    (base : Text) (i : ℕ) (ds : List Config.Desk) (q : Client Handler)
    → (subscribe_commands base i ds q).0.subs ≡ q.subs ++ routes base i ds
unfolding subscribe_commands add_subscription
subscribed base i [] q = sym (append-nil q.subs)
subscribed base i (d ∷ ds) q =
    let h : Subscription Handler = record {
      filter = command_topic base d.id leaf_height;
      handler = (i, height);
    } in
    let b : Subscription Handler = record {
      filter = command_topic base d.id leaf_base_height;
      handler = (i, base_height);
    } in
    let rest = routes base (suc i) ds in
    subscribed base (suc i) ds _
    ∙ (append_assoc (q.subs ++ h ∷ []) (b ∷ []) rest ∙ append_assoc q.subs (h ∷ []) (b ∷ rest))
