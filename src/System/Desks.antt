-- ===== src/System/Desks.antt =====
-- internal/bridge/bridge.go: what the bridge does to the managers is a history of each.
use mqtt_linak.Base.{
  ℕ, zero, suc, ◌≡◌, refl, ap, ◌∙◌, true, false, Bool-cases, inl, inr, Option, Option-cases, none,
  some, List, [], ◌∷◌, ◌++◌, to_upper, Any, All, All-append, All₂, get_elem?, Text, ◌≢◌,
}
use mqtt_linak.Config
use mqtt_linak.Config.{Config}
use mqtt_linak.Topics.{Numbers, command_topic}
use mqtt_linak.Desk.{CommandKind, kind_string, Manager, new_desk_manager}
use mqtt_linak.Desk.Machine.{Event, cancel, found, lost, arrives, step, run}
use mqtt_linak.Desk.Machine.History.{run-append}
use mqtt_linak.Bridge.{
  Peripheral, Bridge, is_candidate, behind, offer_first, on_discovery, owner, signal,
  on_disconnection,
}
use mqtt_linak.System.{SystemEvent, desk_event, delivered, is_own, update_at, cancel_all}

-- The messages of a history, by topic and payload.
abbrev pub messages : List SystemEvent → List (Text × Text)
messages [] = []
messages (delivered topic payload ∷ es) = (topic, payload) ∷ messages es
messages (_ ∷ es) = messages es

-- A message that is delivered is one of the messages.
pub delivered-messages :
    (topic payload : Text) (es : List SystemEvent)
    → Any (λ e. e ≡ delivered topic payload) es
    → Any (λ r. r ≡ (topic, payload)) (messages es)
delivered-messages topic payload [] h = h
delivered-messages topic payload (delivered t p ∷ es) (inl e) = inl (cc (e))
delivered-messages topic payload (delivered t p ∷ es) (inr h) =
    inr (delivered-messages topic payload es h)
delivered-messages topic payload (_ ∷ es) (inl e) = absurd (cc (e))
delivered-messages topic payload (_ ∷ es) (inr h) = delivered-messages topic payload es h

-- What a desk goes through comes from the history of the program: a command is one of its messages, on
-- the desk's own topic for its kind; an event of the desk's own is one of its events, at that desk.
pub record Heard (c : Config) (all : List SystemEvent) (d : Config.Desk) (e : Event) : Type 0 where
  pub command :
      (kind : CommandKind) (payload : Text)
      → e ≡ arrives kind payload
      → Any
          (λ r. r ≡ (command_topic c.mqtt.command_topic_base d.id (kind_string kind), payload))
          (messages all)
  pub own :
      is_own e ≡ true → (i : ℕ) × (get_elem? c.desks i ≡ some d) × Any (λ x. x ≡ desk_event i e) all

module _ (c : Config) {F : Type 0} (nums : Numbers F) (all : List SystemEvent) where
  -- The manager of a desk has got where it is by events of which each command is a message.
  abbrev pub HasHistory : Config.Desk → Manager → Type 0
  HasHistory d m =
      (es : List Event) × All (Heard c all d) es × ((run c nums (new_desk_manager c d) es).0 ≡ m)

  one_more :
      (d : Config.Desk) (m : Manager) (e : Event)
      → Heard c all d e
      → HasHistory d m
      → HasHistory d (step c nums m e).0
  unfolding run
  one_more d m e heard (es, heard_all, there) = (
    es ++ e ∷ [],
    All-append (Heard c all d) es (e ∷ []) heard_all (heard, tt),
    run-append c nums (new_desk_manager c d) es (e ∷ []) ∙ ap (λ x. (step c nums x e).0) there,
  )

  silent-Heard :
      (d : Config.Desk) (e : Event)
      → is_own e ≡ false
      → ((kind : CommandKind) (payload : Text) → e ≢ arrives kind payload)
      → Heard c all d e
  silent-Heard d e n h = record {
    command = λ kind payload q. absurd (h kind payload q);
    own = λ y. absurd (cc (n, y));
  }

  unfoldable pub Histories : List Config.Desk → List Manager → Type 0
  Histories = All₂ HasHistory

  pub update_at-Histories :
      (ds : List Config.Desk) (ms : List Manager) (i : ℕ) (e : Event)
      → ((d : Config.Desk) → get_elem? ds i ≡ some d → Heard c all d e)
      → Histories ds ms
      → Histories ds (update_at (λ m. step c nums m e) i ms).0
  unfolding Histories update_at
  update_at-Histories [] [] i e heard h = tt
  update_at-Histories [] (m ∷ ms) i e heard h = absurd h
  update_at-Histories (d ∷ ds) [] i e heard h = absurd h
  update_at-Histories (d ∷ ds) (m ∷ ms) zero e heard (one, rest) =
      (one_more d m e (heard d refl) one, rest)
  update_at-Histories (d ∷ ds) (m ∷ ms) (suc i) e heard (one, rest) =
      (one, update_at-Histories ds ms i e heard rest)

  signal-Histories :
      (ds : List Config.Desk) (ms : List Manager) (i : ℕ)
      → Histories ds ms
      → Histories ds (signal i ms)
  unfolding Histories signal step
  signal-Histories [] [] i h = tt
  signal-Histories [] (m ∷ ms) i h = absurd h
  signal-Histories (d ∷ ds) [] i h = absurd h
  signal-Histories (d ∷ ds) (m ∷ ms) zero (one, rest) =
      (one_more d m lost (silent-Heard d lost refl (λ kind payload q. cc)) one, rest)
  signal-Histories (d ∷ ds) (m ∷ ms) (suc i) (one, rest) = (one, signal-Histories ds ms i rest)

  abbrev Offers : List Config.Desk → Option (ℕ × List Manager) → Type 0
  Offers ds none = Unit
  Offers ds (some (i, ms)) = Histories ds ms

  behind-Offers :
      (d : Config.Desk) (ds : List Config.Desk) (m : Manager) (o : Option (ℕ × List Manager))
      → HasHistory d m
      → Offers ds o
      → Offers (d ∷ ds) (behind m o)
  unfolding Histories
  behind-Offers d ds m none one h = tt
  behind-Offers d ds m (some (i, ms)) one h = (one, h)

  offer_first-Offers :
      (p : Peripheral) (i : ℕ) (ds : List Config.Desk) (ms : List Manager)
      → Histories ds ms
      → Offers ds (offer_first p i ms)
  unfolding Histories offer_first step
  offer_first-Offers p i [] [] h = tt
  offer_first-Offers p i [] (m ∷ ms) h = absurd h
  offer_first-Offers p i (d ∷ ds) [] h = absurd h
  offer_first-Offers p i (d ∷ ds) (m ∷ ms) (one, rest) = elim (Bool-cases (is_candidate p m)) [
    | inl y ↦ rw y (
      one_more d m (found p.peripheral_id)
          (silent-Heard d (found p.peripheral_id) refl (λ kind payload q. cc)) one,
      rest,
    )
    | inr n ↦ rw n (
        behind-Offers d ds m (offer_first p (suc i) ms) one
          (offer_first-Offers p (suc i) ds ms rest))
  ]

  pub on_discovery-Histories :
      (ds : List Config.Desk) (p : Peripheral) (b : Bridge)
      → Histories ds b.desks
      → Histories ds (on_discovery p b).desks
  unfolding on_discovery
  on_discovery-Histories ds p b h =
      go (offer_first p 0 b.desks) refl (offer_first-Offers p 0 ds b.desks h)
    where
      go :
          (o : Option (ℕ × List Manager))
          → offer_first p 0 b.desks ≡ o
          → Offers ds o
          → Histories ds (on_discovery p b).desks
      go none e k = rw (on_discovery, e) h
      go (some (i, ms)) e k = rw (on_discovery, e) k

  pub on_disconnection-Histories :
      (ds : List Config.Desk) (id : Text) (b : Bridge)
      → Histories ds b.desks
      → Histories ds (on_disconnection id b).desks
  unfolding on_disconnection
  on_disconnection-Histories ds id b h = elim (Option-cases (owner (to_upper id) b.by_peripheral)) [
    | inl e ↦ rw (on_disconnection, e) h
    | inr (i, e) ↦ rw (on_disconnection, e) (signal-Histories ds b.desks i h)
  ]

  pub cancel_all-Histories :
      (ds : List Config.Desk) (ms : List Manager)
      → Histories ds ms
      → Histories ds (cancel_all c nums ms)
  unfolding Histories cancel_all
  cancel_all-Histories [] [] h = tt
  cancel_all-Histories [] (m ∷ ms) h = absurd h
  cancel_all-Histories (d ∷ ds) [] h = absurd h
  cancel_all-Histories (d ∷ ds) (m ∷ ms) (one, rest) = (
    one_more d m cancel (silent-Heard d cancel refl (λ kind payload q. cc)) one,
    cancel_all-Histories ds ms rest,
  )
