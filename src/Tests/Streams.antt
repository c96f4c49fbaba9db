-- ===== src/Tests/Streams.antt =====
-- internal/bridge/throttle.go, internal/mqttc/mqttc.go: histories of a throttle and of the client.
use mqtt_linak.Base.{
  ℕ, ◌+◌, ◌*◌, ◌≤◌, ◌≡◌, refl, true, false, none, some, List, [], ◌∷◌, length, codes, pos, arith,
  All, ◌++◌,
}
use mqtt_linak.Throttle.{Throttle, set, flush, new_throttle}
use mqtt_linak.Throttle.Trace.{
  Call, sets, flushes, step, run, last_sent, start, latest, run-settles,
}
use mqtt_linak.Throttle.Rate.{run-rate}
use mqtt_linak.Throttle.Race.{half_run, overtaken, half_run-overtaken}
use mqtt_linak.Mqttc
use mqtt_linak.Mqttc.{resubscribe, up}
use mqtt_linak.Mqttc.Machine.{go_on, accepted, token, greeted, dropped, lost_seen, subscribes}
use mqtt_linak.Mqttc.Machine
use mqtt_linak.Mqttc.Subscriptions.{registered, IsAsked, run-resubscribes}
use mqtt_linak.Mqttc.Recovery.{recovery, run-recovers}
use mqtt_linak.Tests.Data.{sample}

abbrev readings : List Call
readings =
    sets (pos 1000) false 0
    ∷ sets (pos 1100) false 100
    ∷ sets (pos 1200) false 200
    ∷ flushes 300
    ∷ []

coalesced : (run (start (pos 1000)) readings).1 ≡ pos 1000 ∷ []
unfolding run set flush new_throttle
coalesced = refl

run-settles_example :
    last_sent (step (run (start (pos 1000)) readings) (flushes 1100)).1 ≡ some (pos 1200)
unfolding run latest set flush new_throttle
run-settles_example = run-settles (pos 1000) readings (pos 1200) 1100 refl (omega arith)

run-rate_example : 1000 * length (run (start (pos 1000)) readings).1 + 0 ≤ 300 + 1000
run-rate_example = run-rate 1000 0 300 readings (ground arith)

abbrev holding : Throttle
holding = record {
  min = pos 1000;
  pending = pos 3;
  has_pending = true;
  last = pos 2;
  has_last = true;
  last_at = 0;
}

half_run-overtaken_example :
    let r =
      half_run
        (record { throttle = holding; set_holds = none; flush_holds = none; sent = [] })
        (overtaken (pos 4) 1000 1001) in
    (r.throttle.last ≡ pos 4) × (r.throttle.has_pending ≡ false) × (last_sent r.sent ≡ some (pos 3))
half_run-overtaken_example = half_run-overtaken holding (pos 4) 1000 1001 [] refl (omega arith) (cc)

abbrev connects : List (Machine.Event ℕ)
connects =
    subscribes (codes "cmd/linak/office/height") 7 ∷ go_on ∷ accepted ∷ token true ∷ greeted ∷ []

run-resubscribes_example :
    let s = Machine.run (Machine.start sample.mqtt) connects in
    All (IsAsked sample.mqtt.qos s.asked) (registered connects)
unfolding Machine.run Mqttc.new
run-resubscribes_example = run-resubscribes sample.mqtt connects refl refl

-- The connection is lost, and the first attempt at a new one fails.
abbrev drops : List (Machine.Event ℕ)
drops = connects ++ (dropped ∷ lost_seen ∷ go_on ∷ token false ∷ [])

run-recovers_example :
    let s = Machine.run (Machine.start sample.mqtt) (drops ++ recovery) in
    (s.client.place ≡ up)
    × (s.client.is_open ≡ true)
    × (s.client.lost ≡ false)
    × All (IsAsked sample.mqtt.qos s.asked) (registered drops)
unfolding Machine.run Mqttc.new
run-recovers_example = run-recovers sample.mqtt drops refl
