-- ===== src/Run/Ways.antt =====
-- internal/bridge/bridge.go: the ways in which `Run` ends, and what it has asked for then.
use mqtt_linak.Base.{
  ℕ, suc, ◌≡◌, refl, ap, ◌∙◌, ◌⊎◌, inl, inr, Bool, true, false, Bool-cases, Option, Option-cases,
  none, some, List, [], ◌∷◌, ◌++◌, All, Text, if◌then◌else◌,
}
use mqtt_linak.Config
use mqtt_linak.Config.{Config}
use mqtt_linak.Topics.{Numbers, command_topic, leaf_height, leaf_base_height}
use mqtt_linak.Desk.{height, base_height}
use mqtt_linak.Mqttc
use mqtt_linak.Mqttc.{Client, new, add_subscription}
use mqtt_linak.Mqttc.Options.{silent, wire_paho_logging, client_options, new_client}
use mqtt_linak.Bridge.{bridge_availability_topic}
use mqtt_linak.Bridge.Commands.{Handler, subscribe_commands}
use mqtt_linak.System.{
  System, SystemEvent, Output, of_client, of_desk, of_scanner, pass_on, new_system, system_run,
}
use mqtt_linak.Run.{
  RunCall, start_helper, ask_state, make_client, close_helper, waits, fails, gives, RunError, call,
  ◌>>◌, starting_helper, Job, deferred, scan_uuids, calls_of, launch, serve, run_bridge,
}

-- The client is not connected: what is subscribed to is only remembered.
subscribe_commands-closed :
    (base : Text) (i : ℕ) (ds : List Config.Desk) (q : Client Handler)
    → q.is_open ≡ false
    → let r = subscribe_commands base i ds q in (r.1 ≡ []) × (r.0.is_open ≡ false)
unfolding subscribe_commands add_subscription
subscribe_commands-closed base i [] q h = (refl, h)
subscribe_commands-closed base i (d ∷ ds) q h =
    let q₁ = (add_subscription (command_topic base d.id leaf_height) (i, height) q).0 in
    let q₂ = (add_subscription (command_topic base d.id leaf_base_height) (i, base_height) q₁).0 in
    let (nothing, closed) = subscribe_commands-closed base (suc i) ds q₂ h in
    (rw (nothing, h) refl, closed)

-- Before its goroutines start, `Run` sends nothing to the broker: the client that it has made is not
-- connected, so its subscriptions are only remembered and its first "online" is dropped.
launch-new : (c : Config) → launch c (new c.mqtt) ≡ (new_system c, [])
unfolding launch new_system new pass_on Mqttc.publish_retained Mqttc.send
launch-new c =
    let (none_asked, closed) =
      subscribe_commands-closed c.mqtt.command_topic_base 0 c.desks (new c.mqtt) refl in
    rw (none_asked, closed) refl

-- The helper is not closed by this call.
abbrev pub KeepsHelper : RunCall → Type 0
KeepsHelper close_helper = ⊥
KeepsHelper _ = Unit

calls_of-KeepsHelper : (uuids : List Text) (os : List Output) → All KeepsHelper (calls_of uuids os)
unfolding calls_of
calls_of-KeepsHelper uuids [] = tt
calls_of-KeepsHelper uuids (of_scanner x ∷ os) = (tt, calls_of-KeepsHelper uuids os)
calls_of-KeepsHelper uuids (of_desk i x ∷ os) = (tt, calls_of-KeepsHelper uuids os)
calls_of-KeepsHelper uuids (of_client x ∷ os) = (tt, calls_of-KeepsHelper uuids os)

module _ (c : Config) {F E : Type 0} (nums : Numbers F) (start : Text → Option E) where
  -- The calls of `Run` once the helper is there, up to its end.
  abbrev pub served : List SystemEvent → List RunCall
  served es =
      ask_state
      ∷ make_client (wire_paho_logging c.mqtt.debug silent)
          (client_options c.mqtt (bridge_availability_topic c))
      ∷ calls_of (scan_uuids c.bluetooth) (system_run c nums (new_system c) es).1

  -- The ways of `Run`, with its calls and how it ends.
  abbrev pub Ways : List SystemEvent → Job (RunError E) (Unit {0}) → Type 0
  Ways es r =
      ((e : E) × (start c.bluetooth.helper_path ≡ some e)
        × (r ≡ (start_helper c.bluetooth.helper_path ∷ [], fails (starting_helper e))))
      ⊎ ((start c.bluetooth.helper_path ≡ none)
          × All KeepsHelper (served es)
          × ((((system_run c nums (new_system c) es).0.returned ≡ false)
                × (r ≡ (start_helper c.bluetooth.helper_path ∷ served es, waits)))
              ⊎ (((system_run c nums (new_system c) es).0.returned ≡ true)
                  × (r ≡ (
                    start_helper c.bluetooth.helper_path ∷ served es ++ close_helper ∷ [],
                    gives tt,
                  )))))

  serve-new :
      (es : List SystemEvent)
      → serve c nums {E = RunError E} (new c.mqtt) es ≡ (
        calls_of (scan_uuids c.bluetooth) (system_run c nums (new_system c) es).1,
        if (system_run c nums (new_system c) es).0.returned then gives tt else waits,
      )
  unfolding serve
  serve-new es =
      ap
        (λ (l : System × List Output).
          let r = system_run c nums l.0 es in
          (
            calls_of (scan_uuids c.bluetooth) (l.1 ++ r.1),
            if r.0.returned then gives tt else waits,
          ))
        (launch-new c)

  -- What is left of `Run` when the helper has started.
  abbrev behind_helper : Job (RunError E) (Unit {0}) → Job (RunError E) (Unit {0})
  behind_helper r =
      call (start_helper c.bluetooth.helper_path)
      >> deferred close_helper (do
        call ask_state
        call (
            make_client (wire_paho_logging c.mqtt.debug silent)
              (client_options c.mqtt (bridge_availability_topic c)))
        r)

  run_bridge-behind_helper :
      (es : List SystemEvent)
      → start c.bluetooth.helper_path ≡ none
      → run_bridge c nums start es ≡ behind_helper (serve c nums (new c.mqtt) es)
  unfolding run_bridge new_client
  run_bridge-behind_helper es p = rw p refl

  -- Over any history of the program `Run` takes one of three ways. If the helper does not start, it
  -- fails with the error of that, and has asked for nothing else. If the helper starts, it asks for
  -- the state of the adapter, makes the client and serves, and closes the helper nowhere in that: it
  -- waits if the program has not got to its end in that history, and if it has, then it has closed
  -- the helper behind all other calls and returns without an error.
  pub run_bridge-Ways : (es : List SystemEvent) → Ways es (run_bridge c nums start es)
  unfolding run_bridge deferred
  run_bridge-Ways es = elim (Option-cases (start c.bluetooth.helper_path)) [
    | inr (e, p) ↦ inl (e, p, rw p refl)
    | inl p ↦
        let calls = calls_of (scan_uuids c.bluetooth) (system_run c nums (new_system c) es).1 in
        let ends : Bool → Job (RunError E) (Unit {0}) =
          λ b. behind_helper (calls, if b then gives tt else waits) in
        let now = run_bridge-behind_helper es p ∙ ap behind_helper (serve-new es) in
        inr (
          p,
          (tt, (tt, calls_of-KeepsHelper (scan_uuids c.bluetooth) _)),
          elim (Bool-cases (system_run c nums (new_system c) es).0.returned) [
            | inl y ↦ inr (y, now ∙ ap ends y)
            | inr n ↦ inl (n, now ∙ ap ends n)
          ],
        )
  ]
