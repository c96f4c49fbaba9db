-- ===== src/Bridge.antt =====
-- internal/bridge/bridge.go: which desk a peripheral is, whom a discovery and a disconnection reach,
-- and when the scan runs.
pub mod Fold
pub mod Advertised
pub mod Matching
pub mod Routing
pub mod Scanner
pub mod Names
pub mod LineWriter
pub mod Scan
pub mod Commands
use mqtt_linak.Base.{
  ℕ, zero, suc, Bool, true, false, not, ◌&&◌, ◌||◌, Option, none, some, List, [], ◌∷◌, ◌++◌, Text,
  leb, length, take, if◌then◌else◌, is_nil, trim_space, text_eq, to_upper, equal_fold,
}
use mqtt_linak.Config
use mqtt_linak.Config.{Config, reserved_desk_id, is_seen}
use mqtt_linak.Topics.{metric_topic, leaf_availability}
use mqtt_linak.Desk.{Manager}
use mqtt_linak.Desk.Machine.{offer_peripheral}

-- What the code reads of a `ble.DiscoveredPeripheral`; a nil pointer is `none`.
pub record Peripheral : Type 0 where
  pub peripheral_id : Text
  pub name : Option Text
  pub local_name : Option Text

-- The part of `advertisedNames` for the peripheral's own name.
unfoldable pub own_name : Option Text → List Text
own_name none = []
own_name (some s) = let n = trim_space s in if is_nil n then [] else n ∷ []

-- `len(names) == 0 || !strings.EqualFold(names[0], n)`
unfoldable pub is_news : List Text → Text → Bool
is_news [] n = true
is_news (m ∷ ms) n = not (equal_fold m n)

unfoldable pub with_local_name : Option Text → List Text → List Text
unfolding is_news
with_local_name none names = names
with_local_name (some s) names =
    let n = trim_space s in if not (is_nil n) && is_news names n then names ++ n ∷ [] else names

unfoldable pub advertised_names : Peripheral → List Text
unfolding own_name with_local_name
advertised_names p = with_local_name p.local_name (own_name p.name)

-- `len(got) >= len(want) && strings.EqualFold(got[:len(want)], want)`
unfoldable pub starts_fold : Text → Text → Bool
starts_fold got want = leb (length want) (length got) && equal_fold (take (length want) got) want

-- One round of the loop over the names.
unfoldable pub matches_name : Config.Desk → Text → Bool
unfolding starts_fold
matches_name d got =
    let want = trim_space d.name in
    let prefix = trim_space d.name_prefix in
    (not (is_nil want) && equal_fold got want) || (not (is_nil prefix) && starts_fold got prefix)

unfoldable pub matches_some : Config.Desk → List Text → Bool
unfolding matches_name
matches_some d [] = false
matches_some d (got ∷ names) = matches_name d got || matches_some d names

unfoldable pub matches_desk : Config.Desk → Peripheral → Bool
unfolding matches_some advertised_names
matches_desk d p =
    let id = trim_space d.peripheral_id in
    if not (is_nil id) then equal_fold id p.peripheral_id else matches_some d (advertised_names p)

-- The desks, the owner of each peripheral by its upper-case ID (a desk's place in the list, the
-- latest entry first), the IDs that have been logged, and the signal to the scan controller.
pub record Bridge : Type 0 where
  pub desks : List Manager
  pub by_peripheral : List (Text × ℕ)
  pub seen : List Text
  pub scan_wake : Bool

-- A waiting desk that matches.
unfoldable pub is_candidate : Peripheral → Manager → Bool
unfolding matches_desk
is_candidate p m = m.want_resolve && matches_desk m.cfg p

abbrev pub behind : Manager → Option (ℕ × List Manager) → Option (ℕ × List Manager)
behind m none = none
behind m (some (i, ms)) = some (i, m ∷ ms)

-- The loop over the desks, from place `i`: the first candidate gets the peripheral.
unfoldable pub offer_first : Peripheral → ℕ → List Manager → Option (ℕ × List Manager)
unfolding is_candidate offer_peripheral
offer_first p i [] = none
offer_first p i (m ∷ ms) =
    let rest = behind m (offer_first p (suc i) ms) in
    if is_candidate p m then some (i, (offer_peripheral p.peripheral_id m).0 ∷ ms) else rest

-- `b.seen.LoadOrStore`
unfoldable pub mark_seen : Text → List Text → List Text
mark_seen key seen = if is_seen key seen then seen else key ∷ seen

unfoldable pub on_discovery : Peripheral → Bridge → Bridge
unfolding offer_first mark_seen
on_discovery p b =
    let key = to_upper p.peripheral_id in
    let b₁ = record b { seen = mark_seen key b.seen } in
    elim (offer_first p 0 b.desks) [
      | none ↦ b₁
      | some found ↦ record b₁ {
        desks = found.1;
        by_peripheral = (key, found.0) ∷ b.by_peripheral;
        scan_wake = true;
      }
    ]

unfoldable pub owner : Text → List (Text × ℕ) → Option ℕ
owner key [] = none
owner key (e ∷ es) = if text_eq key e.0 then some e.1 else owner key es

-- The send to `m.disconnected` of the desk at a place.
unfoldable pub signal : ℕ → List Manager → List Manager
signal i [] = []
signal zero (m ∷ ms) = record m { disconnected = true } ∷ ms
signal (suc i) (m ∷ ms) = m ∷ signal i ms

unfoldable pub on_disconnection : Text → Bridge → Bridge
unfolding owner signal
on_disconnection id b = elim (owner (to_upper id) b.by_peripheral) [
  | none ↦ b
  | some i ↦ record b { desks = signal i b.desks }
]

-- The loop of `scanController` that looks for a waiting desk.
unfoldable pub needs_scan : List Manager → Bool
needs_scan [] = false
needs_scan (m ∷ ms) = m.want_resolve || needs_scan ms

pub data ScanCall : Type 0 where
  start_scan_fails start_scan stop_scan : ScanCall

-- A round of `scanController` behind its select; `works` says whether `StartScan` succeeds.
unfoldable pub scan_round : Bool → List Manager → Bool → Bool × List ScanCall
unfolding needs_scan
scan_round works ms scanning =
    if needs_scan ms && not scanning
    then (if works then (true, start_scan ∷ []) else (false, start_scan_fails ∷ []))
    else if not (needs_scan ms) && scanning
    then (false, stop_scan ∷ [])
    else (scanning, [])

-- The way out of `scanController` when the context ends.
unfoldable pub scan_end : Bool → Bool × List ScanCall
scan_end scanning = if scanning then (false, stop_scan ∷ []) else (scanning, [])

unfoldable pub bridge_availability_topic : Config → Text
unfolding metric_topic
bridge_availability_topic c =
    metric_topic c.mqtt.metric_topic_base reserved_desk_id leaf_availability
