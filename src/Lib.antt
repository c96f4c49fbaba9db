-- ===== src/Lib.antt =====
-- mqtt-linak: a daemon that drives LINAK DPG desks over Bluetooth LE and is itself driven over
-- MQTT. This is a model of its Go code with proofs about it; paths are from the repository's root.
--
-- The parts, and how they interact. `config` gives the whole program one validated configuration.
-- The bridge runs one desk manager per desk, an event pump that tells the managers what the
-- Bluetooth helper sees, and the MQTT client. A manager is a loop: it waits until its desk has been
-- seen, connects, prepares the session, announces the desk, and serves commands until the
-- connection ends, then waits and tries again. MQTT messages reach it by `submit`, positions of the
-- desk by the callbacks of the subscription, and it publishes through the bridge. A throttle stands
-- between the positions and the publishes.
--
-- Which file models what:
--   Base          lists, texts, integers of 64 bits, decimal numerals, results
--   Config        internal/config/config.go: the sections, `Default`, `Validate`; Config/Env
--                 `applyEnv`; Config/Load `Load`, `Parse`, `LoadBluetooth`; Config/Valid and the
--                 `Laws` are proofs
--   Throttle      internal/bridge/throttle.go: `Set`, `Flush`, `Reset`; Throttle/Race their halves
--   Topics        internal/bridge/topics.go: names of topics, `parseTenthsMM`, `formatTenthsMM`
--   Desk          internal/bridge/desk.go: the state of a manager and the calls of the other
--                 goroutines; Desk/Run the pieces of `run` and `session` between two waits;
--                 Desk/Machine the step on an event, and below it the proofs about histories
--   Bridge        internal/bridge/bridge.go: `matchesDesk`, the handlers of the event pump, a round
--                 of the scan controller; Bridge/Fold, Advertised, Matching, Routing, Scanner and
--                 Names are proofs; Bridge/Commands `subscribeCommands`; Bridge/LineWriter `lineWriter`; Bridge/Scan
--                 internal/bridge/scan.go: `Inventory`, behind `-scan`, and in Bridge/Scan/Table
--                 `PrintInventory`
--   Mqttc         internal/mqttc/mqttc.go: the client, its loop and paho's handlers; Mqttc/Machine
--                 the step on an event; Mqttc/Options what `New` asks of paho, `connectOnce` and
--                 paho's loggers; Mqttc/Subscriptions and Recovery are proofs
--   System        internal/bridge/bridge.go: `New`, `Run`, `eventPump`, `scanController`,
--                 `republishAll`: the desks, the bridge and the client as one program, with its
--                 state and pieces in System/State; below it Desks, Histories, Quiet, Safety,
--                 Routing and Obeys are proofs about commands, Alerts and Wakeups about the scan,
--                 Broker, Retained, Told, Metrics, Silence, Parting and Farewell about what the
--                 broker is told, Closing and Shutdown about the end
--   Run           internal/bridge/bridge.go: `Run` as a whole, with what it asks of the packages
--                 before the goroutines start and behind them; below it proofs
--   CommandLine   cmd/mqtt-linak/main.go: `main`, `runScan`, `newLogger`; the files below it are
--                 proofs
--   Tests         runs of the model and instances of the results
--
-- How the code is modelled. A text is the list of its bytes, and case folding, trimming and spaces
-- are those of ASCII. An instant is a number of nanoseconds, a Duration an integer, wrapped to 64
-- bits where the code computes with it. A goroutine's place between two waits is a field of its
-- state; a step takes an event (an answer of the desk controller with the clock, a case of a
-- select, a call of another goroutine) and gives the next state with the effects in their order, so
-- that a history is any interleaving of the goroutines in which what happens between two waits is
-- not interrupted. That is too coarse where the code publishes outside of a lock: Throttle/Race
-- steps through the halves of `Set` and `Flush`; the manager takes `Set` with its publish, and
-- `republishState` with its publishes, as one step. In System a step is one of a desk's, the
-- event pump's, the scan controller's or the client's, and a message is delivered to the
-- subscriptions whose filter is its topic, as MQTT does for filters without wildcards. A channel of
-- capacity one is a flag or an Option, the command queue a list with the channel's capacity.
-- Recursion is on lists of events, and the one fuel, for the digits of a number, is the number
-- itself, which has fewer digits.
--
-- Parameters, since they are not code of this repository: the YAML decoder (record Yaml), reading
-- the file, the environment, `strconv.ParseFloat`, rounding, the conversion to int of what int64
-- does not have and the JSON decoder (record Numbers), Base64, the random number of the jitter, what
-- the start of the helper answers, and every answer of the desk controller and of the broker, which
-- come as events. Nothing is assumed of them, but in the results that say so.
--
-- Not modelled: log output, but for the texts that it derives from the configuration and the lines
-- of the helper; what the MQTT client's own calls (dialling, subscribing, its sleep) do, which are
-- kept in its session or left out there; paho, the Bluetooth package and the helper's process, which
-- are not code of this repository; the goroutines that watch the tokens of publishes and
-- subscriptions, which only log.
pub mod Base
pub mod Bridge
pub mod Throttle
pub mod Config
pub mod Topics
pub mod Desk
pub mod Mqttc
pub mod System
pub mod Run
pub mod CommandLine
pub mod Tests
