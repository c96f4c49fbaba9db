-- ===== src/Mqttc/Machine.antt =====
-- internal/mqttc/mqttc.go: `Run`, the two handlers that paho calls, and callers of `Subscribe`, in
-- any order. Of paho it is assumed that a Connect token succeeds only after the broker has accepted
-- the connection, and that the connect handler runs once for each accepted connection, later.
use mqtt_linak.Base.{
  ◌≤◌, ◌≡◌, refl, ◌⊎◌, Bool, true, false, not, ◌&&◌, ◌||◌, List, [], ◌∷◌, ◌++◌, Text, if◌then◌else◌,
  arith,
}
use mqtt_linak.Config.{Mqtt}
use mqtt_linak.Mqttc.{
  min_backoff, max_backoff, Place, top, dialling, up, asleep, over, Client, Effect, new,
  add_subscription, on_connect, on_connection_lost, loop_top, dialled, next_round,
}

pub data Event (H : Type 0) : Type 0 where
  go_on : Event H
  accepted : Event H
  token : Bool → Event H
  greeted : Event H
  dropped : Event H
  lost_seen : Event H
  timer : Event H
  quit : Event H
  cancel : Event H
  subscribes : Text → H → Event H

-- A client with what has happened on its connection: whether the connect handler has run, and which
-- filters have been asked for.
pub record Session (H : Type 0) : Type 0 where
  pub client : Client H
  pub handled : Bool
  pub asked : List (Effect H)

module _ {H : Type 0} where
  -- An effect of the client on the connection that is open.
  abbrev pub ask : Session H → Client H × List (Effect H) → Session H
  ask s (c, out) = record s { client = c; asked = s.asked ++ out }

  abbrev put : Session H → Client H → Session H
  put s c = record s { client = c }

  unfoldable pub step_at : Place → Event H → Session H → Session H
  unfolding loop_top dialled next_round on_connection_lost on_connect add_subscription
  step_at top go_on s = put s (loop_top s.client).0
  step_at dialling accepted s = record s {
    client = record s.client { is_open = true };
    handled = false;
    asked = [];
  }
  step_at dialling (token true) s =
      if s.client.is_open || s.client.lost then put s (dialled true s.client).0 else s
  step_at dialling (token false) s = put s (dialled false s.client).0
  step_at up lost_seen s =
      if s.client.lost then put s (record s.client { lost = false; place = top }) else s
  step_at up quit s = if s.client.cancelled then put s (record s.client { place = over }) else s
  step_at asleep quit s = if s.client.cancelled then put s (record s.client { place = over }) else s
  step_at asleep timer s = put s (next_round s.client)
  step_at p greeted s =
      if s.client.is_open && not s.handled
      then record s { handled = true; asked = s.asked ++ on_connect s.client }
      else s
  step_at p dropped s = if s.client.is_open then put s (on_connection_lost s.client) else s
  step_at p cancel s = put s (record s.client { cancelled = true })
  step_at p (subscribes filter h) s = ask s (add_subscription filter h s.client)
  step_at p e s = s

  unfoldable pub step : Session H → Event H → Session H
  unfolding step_at
  step s e = step_at s.client.place e s

  unfoldable pub run : Session H → List (Event H) → Session H
  unfolding step
  run s [] = s
  run s (e ∷ es) = run (step s e) es

  abbrev pub start : Mqtt → Session H
  start cfg = record { client = new cfg; handled = false; asked = [] }

  -- What holds of a client between any two events.
  pub record Inv (s : Session H) : Type 0 where
    pub awake : s.client.place ≡ up → (s.client.is_open ≡ true) ⊎ (s.client.lost ≡ true)
    pub low : min_backoff ≤ s.client.backoff
    pub high : s.client.backoff ≤ max_backoff

  step_at-Inv :
      (p : Place) (e : Event H) (s : Session H) → s.client.place ≡ p → Inv s → Inv (step_at p e s)
  unfolding step_at
  step_at-Inv top go_on s q h = ground arith
  step_at-Inv dialling (token true) s q h = ground arith
  step_at-Inv _ e s q h = ground arith

  run-Inv : (s : Session H) (es : List (Event H)) → Inv s → Inv (run s es)
  unfolding run
  run-Inv s [] h = h
  run-Inv s (e ∷ es) h = run-Inv (step s e) es (step_at-Inv s.client.place e s refl h)

  -- After any history of a new client, the loop never waits for the end of a connection that is
  -- gone with no signal of it pending, and its backoff lies between two seconds and a minute.
  pub run-new-Inv : (cfg : Mqtt) (es : List (Event H)) → Inv (run (start cfg) es)
  unfolding new
  run-new-Inv cfg es = run-Inv (start cfg) es (ground arith)
