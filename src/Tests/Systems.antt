-- ===== src/Tests/Systems.antt =====
-- internal/bridge/bridge.go: histories of the whole program.
use mqtt_linak.Base.{
  ℕ, ◌≢◌, ◌≤◌, ◌≡◌, refl, inl, ◌⊎◌, true, false, none, some, List, [], ◌∷◌, ◌++◌, map, codes, Any,
  All, All₂, pos, get_elem?, is_nil, trim_space, digits_value, text_eq, equal_fold,
}
use mqtt_linak.Config
use mqtt_linak.Config.{Config}
use mqtt_linak.Topics.{command_topic, max_tenths_mm, parse_tenths_mm}
use mqtt_linak.Desk.{kind_string, height, Command, Manager}
use mqtt_linak.Desk.Run.{by_command}
use mqtt_linak.Desk.Machine.{go_on, receive, woken, position}
use mqtt_linak.Bridge.{needs_scan}
use mqtt_linak.System.{
  of_desk, System, SystemEvent, desk_event, discovered, delivered, scan_by, by_wake, by_end,
  mqtt_event, finish, farewell, hang_up, by_ticker, pump_ends, is_waited, new_system, system_step,
  system_run,
}
use mqtt_linak.System.Desks.{messages, HasHistory}
use mqtt_linak.System.Histories.{system_run-HasHistory}
use mqtt_linak.System.Obeys.{write_of, system_run-obeys}
use mqtt_linak.System.Told.{Truthful}
use mqtt_linak.System.Metrics.{system_run-Told}
use mqtt_linak.System.Alerts.{refused}
use mqtt_linak.System.Wakeups.{system_run-Attentive}
use mqtt_linak.System.Silence.{client_calls, last_words}
use mqtt_linak.System.Farewell.{farewell-last_words}
use mqtt_linak.Mqttc.Machine as ClientMachine
use mqtt_linak.System.Quiet.{Says}
use mqtt_linak.System.Safety.{system_run-Says}
use mqtt_linak.System.Broker.{stored, Shows}
use mqtt_linak.System.Retained.{republish_all-Shows}
use mqtt_linak.Tests.Data.{office, lab, sample, naturals}
use mqtt_linak.Tests.Configs.{sample-IsValid}
use mqtt_linak.Tests.Desks.{connects}
use mqtt_linak.Tests.Bridges.{nearby}

-- The first desk is found and connected, and a message moves it.
abbrev pub office_moves : List SystemEvent
office_moves =
    (desk_event 0 go_on ∷ discovered nearby ∷ desk_event 0 receive ∷ [])
    ++ (map (desk_event 0) connects
        ++ (delivered (codes "cmd/linak/office/height") (codes "7350") ∷ []))

abbrev moved : System
moved = (system_run sample naturals (new_system sample) office_moves).0

system_run-HasHistory_example :
    All₂ (HasHistory sample naturals office_moves) (office ∷ lab ∷ []) moved.bridge.desks
system_run-HasHistory_example = system_run-HasHistory sample naturals office_moves

-- The first desk waits for commands.
abbrev office_serves : List SystemEvent
office_serves =
    (desk_event 0 go_on ∷ discovered nearby ∷ desk_event 0 receive ∷ [])
    ++ map (desk_event 0) connects

serving_office :
    (m : Manager) × (get_elem?
        (system_run sample naturals (new_system sample) office_serves).0.bridge.desks
        0
      ≡ some m)
unfolding system_run system_step new_system text_eq is_nil trim_space equal_fold
serving_office = (_, refl)

system_run-obeys_example :
    let before = (system_run sample naturals (new_system sample) office_serves).0 in
    let s =
      (system_step sample naturals before (
        delivered
          (command_topic (codes "cmd/linak") (codes "office") (kind_string height))
          (codes "7350"))).0 in
    ((system_step sample naturals s (desk_event 0 (woken by_command 30))).1
      ≡ of_desk 0 (write_of height 7350) ∷ [])
    × ((j : ℕ) → j ≢ 0 → get_elem? s.bridge.desks j ≡ get_elem? before.bridge.desks j)
unfolding system_run system_step new_system text_eq is_nil trim_space equal_fold parse_tenths_mm
    digits_value serving_office
system_run-obeys_example =
    system_run-obeys sample naturals office_serves 0 office serving_office.0 height (codes "7350")
      7350 30 sample-IsValid refl serving_office.1 refl refl refl

up_by_735mm : Command
up_by_735mm = record { kind = height; value = 7350 }

system_run-Says_example :
    (d : Config.Desk) × (get_elem? (office ∷ lab ∷ []) 0 ≡ some d)
    × Any (Says naturals (codes "cmd/linak") d.id up_by_735mm) (messages office_moves)
    × (7350 ≤ max_tenths_mm)
unfolding system_run system_step new_system text_eq is_nil trim_space equal_fold up_by_735mm
    parse_tenths_mm digits_value
system_run-Says_example =
    system_run-Says sample naturals office_moves (desk_event 0 (woken by_command 30)) 0 up_by_735mm
      (inl (refl, (refl, refl)))

-- The broker has accepted a connection, and the connect handler has not run.
abbrev accepts : List SystemEvent
accepts = mqtt_event ClientMachine.go_on ∷ mqtt_event ClientMachine.accepted ∷ office_moves

accepted_lab :
    (m : Manager) × (get_elem?
        (system_run sample naturals (new_system sample) accepts).0.bridge.desks
        1
      ≡ some m)
unfolding system_run system_step new_system text_eq is_nil trim_space equal_fold
accepted_lab = (_, refl)

republish_all-Shows_example :
    let s = (system_run sample naturals (new_system sample) accepts).0 in
    Shows sample accepted_lab.0
      (λ t. none)
      (λ t. stored none t (system_step sample naturals s (mqtt_event ClientMachine.greeted)).1)
unfolding system_run system_step new_system
republish_all-Shows_example =
    republish_all-Shows sample naturals accepts 1 accepted_lab.0 (λ t. none) sample-IsValid refl
      refl accepted_lab.1

-- The desk has reported a height, and the client has connected.
abbrev office_reports : List SystemEvent
office_reports =
    mqtt_event ClientMachine.go_on
    ∷ mqtt_event ClientMachine.accepted
    ∷ mqtt_event (ClientMachine.token true)
    ∷ office_moves

system_run-Told_example :
    All
      (Truthful sample (office_reports ++ desk_event 0 (position (pos 7350) (pos 0) 40) ∷ []))
      (system_step sample naturals
        (system_run sample naturals (new_system sample) office_reports).0
        (desk_event 0 (position (pos 7350) (pos 0) 40))).1
system_run-Told_example =
    system_run-Told sample naturals office_reports (desk_event 0 (position (pos 7350) (pos 0) 40))

-- A desk begins to look, and a scan is started for it.
abbrev looking : List SystemEvent
looking = desk_event 0 go_on ∷ scan_by by_wake true ∷ []

system_run-Attentive_example :
    let s = system_run sample naturals (new_system sample) looking in
    (s.0.scanning ≡ needs_scan s.0.bridge.desks)
    ⊎ ((s.0.scanning ≡ false) × (refused false s.1 ≡ true))
unfolding system_run system_step new_system is_nil
system_run-Attentive_example = system_run-Attentive sample naturals looking refl refl

-- The client connects, the context ends, and all goroutines return.
abbrev ending : List SystemEvent
ending =
    mqtt_event ClientMachine.go_on
    ∷ mqtt_event ClientMachine.accepted
    ∷ mqtt_event (ClientMachine.token true)
    ∷ mqtt_event ClientMachine.greeted
    ∷ finish
    ∷ desk_event 0 go_on
    ∷ desk_event 1 go_on
    ∷ pump_ends false
    ∷ scan_by by_end true
    ∷ mqtt_event ClientMachine.quit
    ∷ []

abbrev ended : System
ended = (system_run sample naturals (new_system sample) ending).0

-- While `Run` sleeps, the connection is lost.
abbrev asleep : List SystemEvent
asleep = scan_by by_ticker true ∷ mqtt_event ClientMachine.dropped ∷ []

farewell-last_words_example :
    client_calls (system_run sample naturals ended (farewell ∷ (asleep ++ hang_up ∷ looking))).1
    ≡ last_words sample ended.session.client.qos ended.bridge.desks
unfolding system_run system_step new_system is_waited
farewell-last_words_example =
    farewell-last_words sample naturals ended asleep looking refl refl (refl, (refl, tt))
