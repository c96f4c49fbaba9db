-- ===== src/System/Alerts.antt =====
-- internal/bridge/bridge.go, internal/bridge/desk.go: whatever changes which desks wait to be found
-- wakes the scan controller.
use mqtt_linak.Base.{
  ℕ, zero, suc, ◌≡◌, refl, sym, ap, ◌∙◌, ◌⊎◌, inl, inr, Bool, true, false, ◌||◌, Bool-cases,
  Option-cases, List, [], ◌∷◌, ◌++◌, Text, text_eq, to_upper, arith, if◌then◌else◌,
}
use mqtt_linak.Config.{Config}
use mqtt_linak.Topics.{Numbers}
use mqtt_linak.Desk.{Manager, Effect, publish, publish_retained, wake_scanner, delete_peripheral}
use mqtt_linak.Desk.Machine.{Event, arrives, step}
use mqtt_linak.Desk.Machine.Wanted.{wakes, step-Wakes, submit-want_resolve}
use mqtt_linak.Mqttc
use mqtt_linak.Mqttc.{Client, Subscription}
use mqtt_linak.Bridge.{
  Peripheral, Bridge, start_scan, start_scan_fails, stop_scan, offer_first, on_discovery, owner,
  signal, on_disconnection, needs_scan, scan_round,
}
use mqtt_linak.Bridge.Commands.{Handler}
use mqtt_linak.System.{
  System, Output, of_desk, of_client, of_scanner, of_clients, update_at, absorb, pass_on, deliver,
  cancel_all, pumped, look,
}

-- Whether the last try to start a scan has failed, with no scan call since.
abbrev pub refused : Bool → List Output → Bool
refused b [] = b
refused b (of_scanner start_scan_fails ∷ os) = refused true os
refused b (of_scanner start_scan ∷ os) = refused false os
refused b (of_scanner stop_scan ∷ os) = refused false os
refused b (of_desk i e ∷ os) = refused b os
refused b (of_client e ∷ os) = refused b os

pub refused-append :
    (b : Bool) (xs ys : List Output) → refused b (xs ++ ys) ≡ refused (refused b xs) ys
refused-append b [] ys = refl
refused-append b (of_scanner start_scan_fails ∷ os) ys = refused-append true os ys
refused-append b (of_scanner start_scan ∷ os) ys = refused-append false os ys
refused-append b (of_scanner stop_scan ∷ os) ys = refused-append false os ys
refused-append b (of_desk i e ∷ os) ys = refused-append b os ys
refused-append b (of_client e ∷ os) ys = refused-append b os ys

refused-of_clients :
    (b : Bool) (es : List (Mqttc.Effect Handler)) (os : List Output)
    → refused b (of_clients es ++ os) ≡ refused b os
refused-of_clients b [] os = refl
refused-of_clients b (e ∷ es) os = refused-of_clients b es os

pub refused-pass_on :
    (b : Bool) (q : Client Handler) (i : ℕ) (es : List Effect) (os : List Output)
    → refused b (pass_on q i es ++ os) ≡ refused b os
unfolding pass_on
refused-pass_on b q i [] os = refl
refused-pass_on b q i (publish topic payload ∷ es) os =
    refused-append b (of_clients (Mqttc.publish_metric q topic payload) ++ pass_on q i es) os
    ∙ (ap (λ x. refused x os)
          (refused-of_clients b (Mqttc.publish_metric q topic payload) (pass_on q i es))
        ∙ (sym (refused-append b (pass_on q i es) os) ∙ refused-pass_on b q i es os))
refused-pass_on b q i (publish_retained topic payload ∷ es) os =
    refused-append b (of_clients (Mqttc.publish_retained q topic payload) ++ pass_on q i es) os
    ∙ (ap (λ x. refused x os)
          (refused-of_clients b (Mqttc.publish_retained q topic payload) (pass_on q i es))
        ∙ (sym (refused-append b (pass_on q i es) os) ∙ refused-pass_on b q i es os))
refused-pass_on b q i (e ∷ es) os = refused-pass_on b q i es os

-- The scan controller has returned, or has a wake-up before it, or the scan is on exactly if a desk
-- waits to be found, or the scan is off and could not be started.
abbrev pub Attentive : Bool → System → Type 0
Attentive b s =
    (s.scanner_over ≡ true)
    ⊎ ((s.bridge.scan_wake ≡ true)
        ⊎ ((s.scanning ≡ needs_scan s.bridge.desks) ⊎ ((s.scanning ≡ false) × (b ≡ true))))

-- A change of the bridge that leaves what the scan controller looks at, or wakes it.
abbrev pub Alerts : Bridge → Bridge → Type 0
Alerts b b' =
    (b'.scan_wake ≡ true)
    ⊎ ((b'.scan_wake ≡ b.scan_wake) × (needs_scan b'.desks ≡ needs_scan b.desks))

pub Alerts-Attentive :
    (x : Bool) (s s' : System)
    → s'.scanner_over ≡ s.scanner_over
    → s'.scanning ≡ s.scanning
    → Alerts s.bridge s'.bridge
    → Attentive x s
    → Attentive x s'
Alerts-Attentive x s s' o sc a h = ground arith

pub absorb-wakes :
    (es : List Effect) (b : Bridge)
    → (wakes es ≡ true) ⊎ (b.scan_wake ≡ true)
    → (absorb es b).scan_wake ≡ true
unfolding absorb
absorb-wakes [] b h = ground arith
absorb-wakes (wake_scanner ∷ es) b h = absorb-wakes es _ (inr refl)
absorb-wakes (delete_peripheral key ∷ es) b h = absorb-wakes es _ h
absorb-wakes (_ ∷ es) b h = absorb-wakes es b h

pub absorb-silent :
    (es : List Effect) (b : Bridge) → wakes es ≡ false → (absorb es b).scan_wake ≡ b.scan_wake
unfolding absorb
absorb-silent [] b h = refl
absorb-silent (wake_scanner ∷ es) b h = absurd (cc)
absorb-silent (delete_peripheral key ∷ es) b h = absorb-silent es _ h
absorb-silent (_ ∷ es) b h = absorb-silent es b h

module _ (c : Config) {F : Type 0} (nums : Numbers F) where
  pub update_at-wakes :
      (e : Event) (i : ℕ) (ms : List Manager)
      → let s = update_at (λ m. step c nums m e) i ms in
        (wakes s.1 ≡ true) ⊎ (needs_scan s.0 ≡ needs_scan ms)
  unfolding update_at needs_scan
  update_at-wakes e i [] = inr refl
  update_at-wakes e zero (m ∷ ms) = elim (step-Wakes c nums m e) [
    | inl w ↦ inl w
    | inr k ↦ inr (ap (λ x. x || needs_scan ms) k)
  ]
  update_at-wakes e (suc i) (m ∷ ms) = elim (update_at-wakes e i ms) [
    | inl w ↦ inl w
    | inr k ↦ inr (ap (λ x. m.want_resolve || x) k)
  ]

  arrives-needs_scan :
      (s : Subscription Handler) (payload : Text) (i : ℕ) (ms : List Manager)
      → needs_scan (update_at (λ m. step c nums m (arrives s.handler.1 payload)) i ms).0
        ≡ needs_scan ms
  unfolding update_at needs_scan step
  arrives-needs_scan s payload i [] = refl
  arrives-needs_scan s payload zero (m ∷ ms) =
      ap (λ x. x || needs_scan ms) (submit-want_resolve c nums s.handler.1 payload m)
  arrives-needs_scan s payload (suc i) (m ∷ ms) =
      ap (λ x. m.want_resolve || x) (arrives-needs_scan s payload i ms)

  pub deliver-needs_scan :
      (ss : List (Subscription Handler)) (topic payload : Text) (ms : List Manager)
      → needs_scan (deliver c nums ss topic payload ms) ≡ needs_scan ms
  unfolding deliver
  deliver-needs_scan [] topic payload ms = refl
  deliver-needs_scan (s ∷ ss) topic payload ms = elim (Bool-cases (text_eq s.filter topic)) [
    | inr n ↦ rw n (deliver-needs_scan ss topic payload ms)
    | inl y ↦
        rw y (deliver-needs_scan ss topic payload _ ∙ arrives-needs_scan s payload s.handler.0 ms)
  ]

  pub cancel_all-needs_scan :
      (ms : List Manager) → needs_scan (cancel_all c nums ms) ≡ needs_scan ms
  unfolding cancel_all needs_scan step
  cancel_all-needs_scan [] = refl
  cancel_all-needs_scan (m ∷ ms) = ap (λ x. m.want_resolve || x) (cancel_all-needs_scan ms)

signal-needs_scan : (i : ℕ) (ms : List Manager) → needs_scan (signal i ms) ≡ needs_scan ms
unfolding signal needs_scan
signal-needs_scan i [] = refl
signal-needs_scan zero (m ∷ ms) = refl
signal-needs_scan (suc i) (m ∷ ms) = ap (λ x. m.want_resolve || x) (signal-needs_scan i ms)

pub on_discovery-Alerts : (p : Peripheral) (b : Bridge) → Alerts b (on_discovery p b)
unfolding on_discovery
on_discovery-Alerts p b = elim (Option-cases (offer_first p 0 b.desks)) [
  | inl e ↦ rw (on_discovery, e) (inr (refl, refl))
  | inr (x, e) ↦ rw (on_discovery, e) (inl refl)
]

pub on_disconnection-Alerts : (id : Text) (b : Bridge) → Alerts b (on_disconnection id b)
unfolding on_disconnection
on_disconnection-Alerts id b = elim (Option-cases (owner (to_upper id) b.by_peripheral)) [
  | inl e ↦ rw (on_disconnection, e) (inr (refl, refl))
  | inr (i, e) ↦ rw (on_disconnection, e) (inr (refl, signal-needs_scan i b.desks))
]

pub adapter_state-Alerts :
    (on : Bool) (b : Bridge) → Alerts b (if on then record b { scan_wake = true } else b)
adapter_state-Alerts true b = inl refl
adapter_state-Alerts false b = inr (refl, refl)

pub pumped-Attentive :
    (x : Bool) (b : Bridge) (s : System)
    → Alerts s.bridge b
    → Attentive x s
    → Attentive x (pumped b s)
unfolding pumped
pumped-Attentive x b s a h = go s.pump_over
  where
    go : (y : Bool) → Attentive x (if y then s else record s { bridge = b })
    go true = h
    go false = Alerts-Attentive x s (record s { bridge = b }) refl refl a h

-- Behind a look of the scan controller the scan is as it should be, or could not be started.
pub look-Attentive :
    (x : Bool) (works : Bool) (s : System) → Attentive (refused x (look works s).1) (look works s).0
unfolding look scan_round
look-Attentive x works s = ground arith
