-- ===== src/System/Metrics.antt =====
-- internal/bridge/bridge.go, internal/bridge/desk.go: what the program publishes.
use mqtt_linak.Base.{
  member₂, All-places, ◌++◌, ℕ, zero, suc, ◌≡◌, refl, ap, inl, inr, Bool, Bool-cases, not, ◌&&◌,
  some, List, [], ◌∷◌, All, All-append, All-map, All₂, Any-append_left, Any-append_right, get_elem?,
}
use mathlib.Core.Path.{subst}
use mqtt_linak.Config
use mqtt_linak.Config.{Config}
use mqtt_linak.Topics.{Numbers, leaf_availability, metric_topic}
use mqtt_linak.Desk.{Manager, Effect, new_desk_manager, republish_state}
use mqtt_linak.Desk.Run.{value}
use mqtt_linak.Desk.Machine.{Event, position, reply, step}
use mqtt_linak.Desk.Machine.Metrics.{
  Brings, Honest, Knows, step-Reports, run-Knows, new_desk_manager-Knows, republish_state-Honest,
}
use mqtt_linak.Mqttc
use mqtt_linak.Mqttc.{Client, send}
use mqtt_linak.Mqttc.Machine as ClientMachine
use mqtt_linak.Bridge.Commands.{Handler}
use mqtt_linak.System.{
  System, SystemEvent, desk_event, mqtt_event, farewell, hang_up, scan_by, ScanWait, by_wake,
  by_ticker, by_end, look, scanner_step, session_step, is_waited, is_own, update_at,
  republish_desks, republish_all, goodbye, new_system, system_step, system_run,
}
use mqtt_linak.System.Desks.{Heard, HasHistory}
use mqtt_linak.System.Histories.{system_run-HasHistory}
use mqtt_linak.System.Told.{
  of_bridge, of_availability, Truthful, At, Replied, Speaks, of_scans-Truthful, pass_on-Truthful,
  Honest-Speaks,
}

module _ (c : Config) {F : Type 0} (nums : Numbers F) (es zs : List SystemEvent) where
  -- What has come to a desk brings what the history has of it.
  Heard-Brings :
      (d : Config.Desk) (e : Event)
      → Heard c es d e
      → Brings (At c (es ++ zs) d) (Replied c (es ++ zs) d) e
  Heard-Brings d (position x speed now) h =
      let (i, at, here) = h.own refl in
      (i, speed, now, at, Any-append_left (λ z. z ≡ desk_event i (position x speed now)) es zs here)
  Heard-Brings d (reply (value x) now) h =
      let (i, at, here) = h.own refl in
      (i, now, at, Any-append_left (λ z. z ≡ desk_event i (reply (value x) now)) es zs here)
  Heard-Brings d e h = tt

  HasHistory-Knows :
      (d : Config.Desk) (m : Manager)
      → HasHistory c nums es d m
      → Knows c d (At c (es ++ zs) d) (Replied c (es ++ zs) d) m
  HasHistory-Knows d m (own, heard, there) =
      let H = At c (es ++ zs) d in
      let B = Replied c (es ++ zs) d in
      subst (Knows c d H B) there (
        run-Knows c d H B nums (new_desk_manager c d) own
          (All-map (Heard c es d) (Brings H B) (Heard-Brings d) own heard)
          (new_desk_manager-Knows c d H B))

  All-Speaks :
      (d : Config.Desk) (i : ℕ) (out : List Effect)
      → get_elem? c.desks i ≡ some d
      → All (Honest c d (At c (es ++ zs) d) (Replied c (es ++ zs) d)) out
      → All (Speaks c (es ++ zs)) out
  All-Speaks d i out at =
      All-map (Honest c d (At c (es ++ zs) d) (Replied c (es ++ zs) d)) (Speaks c (es ++ zs))
        (Honest-Speaks c (es ++ zs) d i at) out

  abbrev IsPlaced : Config.Desk → Type 0
  IsPlaced d = (i : ℕ) × (get_elem? c.desks i ≡ some d)

  republish_desks-Speaks :
      (ds : List Config.Desk) (ms : List Manager)
      → All IsPlaced ds
      → All₂ (HasHistory c nums es) ds ms
      → All (Speaks c (es ++ zs)) (republish_desks c ms)
  unfolding republish_desks
  republish_desks-Speaks [] [] _ h = tt
  republish_desks-Speaks [] (m ∷ ms) _ h = absurd h
  republish_desks-Speaks (d ∷ ds) [] _ h = absurd h
  republish_desks-Speaks (d ∷ ds) (m ∷ ms) ((i, at), places) (h, hs) =
      All-append (Speaks c (es ++ zs)) (republish_state c m) (republish_desks c ms)
        (All-Speaks d i (republish_state c m) at (
          republish_state-Honest c d (At c (es ++ zs) d) (Replied c (es ++ zs) d) m
            (HasHistory-Knows d m h)))
        (republish_desks-Speaks ds ms places hs)

  goodbye-Speaks :
      (ds : List Config.Desk) (ms : List Manager)
      → All IsPlaced ds
      → All₂ (HasHistory c nums es) ds ms
      → All (Speaks c (es ++ zs)) (goodbye c ms)
  unfolding goodbye
  goodbye-Speaks [] [] _ h = (of_bridge refl refl (inr refl), tt)
  goodbye-Speaks [] (m ∷ ms) _ h = absurd h
  goodbye-Speaks (d ∷ ds) [] _ h = absurd h
  goodbye-Speaks (d ∷ ds) (m ∷ ms) ((i, at), places) (h, hs) = (
    of_availability d i at
        (ap (λ (x : Config.Desk). metric_topic c.mqtt.metric_topic_base x.id leaf_availability)
          (HasHistory-Knows d m h).own)
        refl (inr refl),
    goodbye-Speaks ds ms places hs,
  )

module _ (c : Config) {F : Type 0} (nums : Numbers F) (es : List SystemEvent) where
  abbrev now_is : System
  now_is = (system_run c nums (new_system c) es).0

  own-Brings :
      (d : Config.Desk) (j : ℕ) (e : Event)
      → get_elem? c.desks j ≡ some d
      → let all = es ++ desk_event j e ∷ [] in Brings (At c all d) (Replied c all d) e
  own-Brings d j (position x speed now) at = (
    j,
    speed,
    now,
    at,
    Any-append_right (λ z. z ≡ desk_event j (position x speed now)) es _ (inl refl),
  )
  own-Brings d j (reply (value x) now) at =
      (j, now, at, Any-append_right (λ z. z ≡ desk_event j (reply (value x) now)) es _ (inl refl))
  own-Brings d j e at = tt

  step-Speaks :
      (j : ℕ) (e : Event) (m : Manager)
      → get_elem? now_is.bridge.desks j ≡ some m
      → All (Speaks c (es ++ desk_event j e ∷ [])) (step c nums m e).1
  step-Speaks j e m at =
      let all = es ++ desk_event j e ∷ [] in
      let (d, place, own) =
        member₂ (HasHistory c nums es) c.desks now_is.bridge.desks j m
          (system_run-HasHistory c nums es) at in
      All-Speaks c nums es (desk_event j e ∷ []) d j (step c nums m e).1 place (
        step-Reports c d (At c all d) (Replied c all d) nums m e (own-Brings d j e place)
          (HasHistory-Knows c nums es (desk_event j e ∷ []) d m own))

  update_at-All :
      (P : Effect → Type 0) (f : Manager → Manager × List Effect) (i : ℕ) (ms : List Manager)
      → ((m : Manager) → get_elem? ms i ≡ some m → All P (f m).1)
      → All P (update_at f i ms).1
  unfolding update_at
  update_at-All P f i [] h = tt
  update_at-All P f zero (m ∷ ms) h = h m refl
  update_at-All P f (suc i) (m ∷ ms) h = update_at-All P f i ms h

  desk_event-Truthful :
      (j : ℕ) (e : Event)
      → All (Truthful c (es ++ desk_event j e ∷ [])) (system_step c nums now_is (desk_event j e)).1
  unfolding system_step
  desk_event-Truthful j e = elim (Bool-cases (is_own e)) [
    | inr n ↦ rw n tt
    | inl y ↦ rw y (
        pass_on-Truthful c _ now_is.session.client j _ (
          update_at-All (Speaks c (es ++ desk_event j e ∷ [])) (λ m. step c nums m e) j
            now_is.bridge.desks (step-Speaks j e)))
  ]

  mqtt_event-Truthful :
      (e : ClientMachine.Event Handler)
      → All (Truthful c (es ++ mqtt_event e ∷ [])) (system_step c nums now_is (mqtt_event e)).1
  unfolding system_step republish_all
  mqtt_event-Truthful e =
      let q = session_step now_is.session e in
      elim (Bool-cases (not now_is.session.handled && q.handled)) [
        | inr n ↦ rw n tt
        | inl y ↦ rw y (
            pass_on-Truthful c (es ++ mqtt_event e ∷ []) q.client 0
              (republish_all c now_is.bridge.desks)
              (
                of_bridge refl refl (inl refl),
                republish_desks-Speaks c nums es (mqtt_event e ∷ []) c.desks now_is.bridge.desks
                    (All-places c.desks) (system_run-HasHistory c nums es),
              ))
      ]

  scanner_step-Truthful :
      (all : List SystemEvent) (s : System) (w : ScanWait) (works : Bool)
      → All (Truthful c all) (scanner_step w works s).1
  unfolding scanner_step look
  scanner_step-Truthful all s by_wake works = elim (Bool-cases s.bridge.scan_wake) [
    | inr n ↦ rw (scanner_step, n) tt
    | inl y ↦ rw (scanner_step, y) (of_scans-Truthful c all _)
  ]
  scanner_step-Truthful all s by_ticker works = of_scans-Truthful c all _
  scanner_step-Truthful all s by_end works = elim (Bool-cases s.cancelled) [
    | inr n ↦ rw (scanner_step, n) tt
    | inl y ↦ rw (scanner_step, y) (of_scans-Truthful c all _)
  ]

  farewell-Truthful : All (Truthful c (es ++ farewell ∷ [])) (system_step c nums now_is farewell).1
  unfolding system_step
  farewell-Truthful = elim (Bool-cases (is_waited now_is)) [
    | inr n ↦ rw (system_step, n) tt
    | inl y ↦
        rw (system_step, y)
          (pass_on-Truthful c _ now_is.session.client 0 (goodbye c now_is.bridge.desks) (
            goodbye-Speaks c nums es (farewell ∷ []) c.desks now_is.bridge.desks
              (All-places c.desks) (system_run-HasHistory c nums es)))
  ]

  hang_up-Truthful : All (Truthful c (es ++ hang_up ∷ [])) (system_step c nums now_is hang_up).1
  unfolding system_step Mqttc.close
  hang_up-Truthful = elim (Bool-cases (now_is.parting && not now_is.returned)) [
    | inr n ↦ rw (system_step, n) tt
    | inl y ↦ rw (system_step, y) (tt, tt)
  ]

module _ (c : Config) {F : Type 0} (nums : Numbers F) where
  -- After any history of the program, whatever it publishes by its next event is true of the history
  -- with that event: it is the availability of the bridge or of a configured desk, retained and in
  -- one of its two words; or, on the height topic of a configured desk, a position which that desk
  -- has reported; or, on its base-height topic, a value which that desk has replied.
  pub system_run-Told :
      (es : List SystemEvent) (e : SystemEvent)
      → let s = (system_run c nums (new_system c) es).0 in
        All (Truthful c (es ++ e ∷ [])) (system_step c nums s e).1
  unfolding system_step
  system_run-Told es (desk_event j e) = desk_event-Truthful c nums es j e
  system_run-Told es (mqtt_event e) = mqtt_event-Truthful c nums es e
  system_run-Told es (scan_by w works) =
      let s = (system_run c nums (new_system c) es).0 in
      elim (Bool-cases s.scanner_over) [
        | inl y ↦ rw y tt
        | inr n ↦ rw n (scanner_step-Truthful c nums es (es ++ scan_by w works ∷ []) s w works)
      ]
  system_run-Told es farewell = farewell-Truthful c nums es
  system_run-Told es hang_up = hang_up-Truthful c nums es
  system_run-Told es _ = tt
