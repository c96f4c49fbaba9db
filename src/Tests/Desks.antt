-- ===== src/Tests/Desks.antt =====
-- internal/bridge/desk.go: histories of a desk manager.
use mqtt_linak.Base.{
  ℕ, ◌⊎◌, false, ◌+◌, ◌^◌, ◌≤◌, ◌≡◌, refl, inl, true, none, List, [], ◌∷◌, ◌++◌, codes, pos, ◌<ℤ◌,
  arith, is_nil, trim_space, digits_value,
}
use mqtt_linak.Desk.Machine.Heights.{run-settled}
use mqtt_linak.Topics.{leaf_height, format_tenths_mm, max_tenths_mm, parse_tenths_mm}
use mqtt_linak.Desk.{publish, topic, height, Command, serving, new_desk_manager}
use mqtt_linak.Desk.Run.{
  Reply, error, done, value, by_command, by_disconnect, double_backoff, jitter,
}
use mqtt_linak.Desk.Machine.{
  Event, go_on, end_round, receive, reply, woken, timer, found, lost, position, arrives, step, run,
}
use mqtt_linak.Desk.Machine.Order.{written, all_accepted, run-order}
use mqtt_linak.Desk.Machine.Shape.{Shape, run-new-Shape}
use mqtt_linak.Desk.Machine.Writes.{Heads, run-Writes}
use mqtt_linak.Desk.Machine.Count.{callbacks, disconnects, bit}
use mqtt_linak.Desk.Machine.Sessions.{is_linked, openings, run-callbacks, run-disconnects}
use mqtt_linak.Desk.Machine.Availability.{Tells, announced, run-Tells}
use mqtt_linak.Desk.Machine.Backoff.{InRange, run-backoff, double_backoff-overflow}
use mqtt_linak.Desk.Machine.Recovery.{help, run-help}
use mqtt_linak.Tests.Data.{office, sample, naturals}

-- The answers of the desk controller to a connect that succeeds.
abbrev pub connects : List Event
connects =
    reply done 10
    ∷ reply done 11
    ∷ reply done 12
    ∷ reply done 13
    ∷ reply done 14
    ∷ reply done 15
    ∷ reply done 16
    ∷ reply done 17
    ∷ reply (value (pos 620)) 18
    ∷ []

abbrev first_session : List Event
first_session =
    (go_on ∷ found (codes "1E2D") ∷ receive ∷ connects) ++ (arrives height (codes "7350") ∷ [])

abbrev second_session : List Event
second_session =
    first_session
    ++ (lost
        ∷ woken by_disconnect 20
        ∷ reply done 21
        ∷ end_round (pos 5) 22
        ∷ timer
        ∷ go_on
        ∷ connects)

session_serves :
    (run sample naturals (new_desk_manager sample office) first_session).0.place ≡ serving
unfolding run step parse_tenths_mm is_nil trim_space digits_value new_desk_manager
session_serves = refl

run-Writes_example :
    let m = (run sample naturals (new_desk_manager sample office) first_session).0 in
    let cmd : Command = record { kind = height; value = 7350 } in
    (m.place ≡ serving)
    × Heads cmd m.commands
    × (m.online ≡ true)
    × (m.subs_set ≡ true)
    × (7350 ≤ max_tenths_mm)
unfolding run step parse_tenths_mm is_nil trim_space digits_value new_desk_manager
run-Writes_example =
    run-Writes sample naturals office first_session (woken by_command 30)
      (record { kind = height; value = 7350 }) (inl (refl, refl))

run-order_example :
    let m₀ = new_desk_manager sample office in
    let r = run sample naturals m₀ second_session in
    written r.1 ++ r.0.commands ≡ all_accepted sample naturals m₀ second_session
run-order_example = run-order sample naturals office second_session

run-new-Shape_example :
    Shape (run sample naturals (new_desk_manager sample office) second_session).0
run-new-Shape_example = run-new-Shape sample naturals office second_session

run-callbacks_example :
    let s = run sample naturals (new_desk_manager sample office) second_session in
    callbacks s.1 ≡ bit s.0.subs_set
run-callbacks_example = run-callbacks sample naturals office second_session

run-disconnects_example :
    let s = run sample naturals (new_desk_manager sample office) second_session in
    disconnects s.1 + bit (is_linked s.0.place)
    ≡ openings sample naturals (new_desk_manager sample office) second_session
run-disconnects_example = run-disconnects sample naturals office second_session

run-Tells_example :
    let s = run sample naturals (new_desk_manager sample office) second_session in
    Tells (announced none s.1) s.0.online
run-Tells_example = run-Tells sample naturals office second_session

run-backoff_example :
    InRange sample (run sample naturals (new_desk_manager sample office) second_session).0.backoff
run-backoff_example = run-backoff sample naturals office second_session (omega arith)

double_backoff-overflow_example :
    (double_backoff (pos (2 ^ 62)) (pos (2 ^ 62)) <ℤ pos 0)
    × (jitter (double_backoff (pos (2 ^ 62)) (pos (2 ^ 62))) (pos 0)
        ≡ double_backoff (pos (2 ^ 62)) (pos (2 ^ 62)))
double_backoff-overflow_example =
    double_backoff-overflow (2 ^ 62) (2 ^ 62) (pos 0) (omega arith) (omega arith) (omega arith)

-- Whatever the desk is asked for fails.
abbrev pub refusals : List (Reply × ℕ)
refusals =
    (error, 40)
    ∷ (error, 41)
    ∷ (error, 42)
    ∷ (error, 43)
    ∷ (error, 44)
    ∷ (error, 45)
    ∷ (error, 46)
    ∷ (error, 47)
    ∷ (error, 48)
    ∷ (error, 49)
    ∷ (error, 50)
    ∷ (error, 51)
    ∷ (error, 52)
    ∷ []

-- The desk has just dropped the connection.
abbrev dropped_session : List Event
dropped_session = first_session ++ (lost ∷ woken by_disconnect 20 ∷ [])

run-help_example :
    let m = (run sample naturals (new_desk_manager sample office) dropped_session).0 in
    let m' =
      (run sample naturals
        (new_desk_manager sample office)
        (dropped_session ++ help sample naturals 15 m)).0 in
    (m'.place ≡ serving) × (m'.online ≡ true)
unfolding run step parse_tenths_mm is_nil trim_space digits_value new_desk_manager
run-help_example = run-help sample naturals office dropped_session refl

run-settled_example :
    let m = (run sample naturals (new_desk_manager sample office) first_session).0 in
    let s = step sample naturals m (position (pos 7350) (pos 0) 31) in
    (s.0.has_height ≡ true)
    × (s.0.last_height ≡ pos 7350)
    × (s.0.throttle.has_pending ≡ false)
    × ((s.1 ≡ publish (topic sample m leaf_height) (format_tenths_mm (pos 7350)) ∷ [])
        ⊎ ((s.1 ≡ []) × (m.has_height ≡ true) × (m.last_height ≡ pos 7350)))
run-settled_example = run-settled sample naturals office first_session (pos 7350) 31
