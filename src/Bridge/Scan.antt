-- ===== src/Bridge/Scan.antt =====
-- internal/bridge/scan.go: the inventory of `-scan`. Base64 is a parameter.
pub mod Laws
pub mod Inventory
pub mod Table
use mqtt_linak.Base.{
  ℕ, ◌+◌, ◌/◌, ◌%◌, ◌-◌, Bool, true, false, not, ◌&&◌, Option, none, some, List, [], ◌∷◌, ◌++◌,
  Text, codes, ltb, ℤ, ltb_ℤ, if◌then◌else◌, is_nil, text_eq, to_upper,
}
use mqtt_linak.Bridge.{Peripheral}

pub record Sighting : Type 0 where
  pub peripheral_id : Text
  pub name : Text
  pub rssi : ℤ
  pub services : List Text
  pub manufacturer : Text
  pub connectable : Bool

-- The rest of what the code reads of a `ble.DiscoveredPeripheral`.
pub record Advertisement : Type 0 where
  pub peripheral : Peripheral
  pub rssi : ℤ
  pub services : List Text
  pub manufacturer_data : Option Text
  pub is_connectable : Option Bool

unfoldable pub or_empty : Option Text → Text
or_empty none = []
or_empty (some s) = s

unfoldable pub peripheral_name : Peripheral → Text
unfolding or_empty
peripheral_name p =
    if not (is_nil (or_empty p.name)) then or_empty p.name else or_empty p.local_name

unfoldable pub hex_digit : ℕ → ℕ
hex_digit n = if ltb n 10 then b'0' + n else b'A' + (n - 10)

-- `%02X`, with a space between two bytes
unfoldable pub hex_bytes : List ℕ → Text
unfolding hex_digit
hex_bytes [] = []
hex_bytes (b ∷ []) = hex_digit (b / 16) ∷ hex_digit (b % 16) ∷ []
hex_bytes (b ∷ c ∷ bs) = hex_digit (b / 16) ∷ hex_digit (b % 16) ∷ b' ' ∷ hex_bytes (c ∷ bs)

unfoldable pub is_set : Option Bool → Bool
is_set none = false
is_set (some b) = b

abbrev pub is_named : Sighting → Bool
is_named s = not (is_nil s.name)

-- Whether a device comes before another in the list.
unfoldable pub comes_first : Sighting → Sighting → Bool
comes_first s t =
    if is_named s
    then (if is_named t then ltb_ℤ t.rssi s.rssi else true)
    else (if is_named t then false else ltb_ℤ t.rssi s.rssi)

-- The entry of a peripheral when it is seen again.
unfoldable pub better : Sighting → Sighting → Sighting
better prev s = if is_nil prev.name && is_named s then s else prev

-- The map of what has been found, by upper-case ID.
unfoldable pub keep : Text → Sighting → List (Text × Sighting) → List (Text × Sighting)
unfolding better
keep key s [] = (key, s) ∷ []
keep key s ((k, prev) ∷ found) =
    let rest = keep key s found in
    if text_eq key k then (k, better prev s) ∷ found else (k, prev) ∷ rest

module _ (decode_base64 : Text → Option (List ℕ)) where
  unfoldable pub decoded : Option Text → Option (List ℕ)
  decoded none = none
  decoded (some data_base64) = decode_base64 data_base64

  unfoldable pub manufacturer_hex : Option Text → Text
  unfolding hex_bytes decoded
  manufacturer_hex m = elim (decoded m) [ none ↦ [] | some raw ↦ hex_bytes raw ]

  unfoldable pub sighting : Advertisement → Sighting
  unfolding manufacturer_hex peripheral_name is_set
  sighting a = record {
    peripheral_id = a.peripheral.peripheral_id;
    name = peripheral_name a.peripheral;
    rssi = a.rssi;
    services = a.services;
    manufacturer = manufacturer_hex a.manufacturer_data;
    connectable = is_set a.is_connectable;
  }

  -- The loop of `Inventory`, over the advertisements that come before the deadline.
  unfoldable pub gather : List Advertisement → List (Text × Sighting) → List (Text × Sighting)
  unfolding keep sighting
  gather [] found = found
  gather (a ∷ ads) found =
      gather ads (keep (to_upper a.peripheral.peripheral_id) (sighting a) found)

-- The values of the map, in some order.
unfoldable pub entries : List (Text × Sighting) → List Sighting
entries [] = []
entries ((k, s) ∷ found) = s ∷ entries found

-- What the Bluetooth package answers to `Inventory`: whether its helper starts, what it says of the
-- adapter if it says anything, whether a scan starts, what is heard, and whether the context ends
-- before the deadline.
pub record Radio : Type 0 where
  pub helper : Bool
  pub powered_on : Option Bool
  pub scan_starts : Bool
  pub heard : List Advertisement
  pub interrupted : Bool

pub data InventoryError : Type 0 where
  no_helper adapter_off no_scan was_interrupted : InventoryError

pub data RadioCall : Type 0 where
  start_helper ask_state start_scan stop_scan close_helper : RadioCall

-- `state, err := client.State(ctx); err == nil && state != ble.StatePoweredOn`
unfoldable pub is_off : Option Bool → Bool
is_off none = false
is_off (some on) = not on

-- `sort` is `sort.Slice` by `comes_first`. The deferred calls stand behind the others.
module _ (decode_base64 : Text → Option (List ℕ)) (sort : List Sighting → List Sighting) where
  unfoldable pub inventory : Radio → List Sighting × (Option InventoryError × List RadioCall)
  unfolding is_off gather entries
  inventory r =
      if not r.helper
      then ([], (some no_helper, start_helper ∷ []))
      else if is_off r.powered_on
      then ([], (some adapter_off, start_helper ∷ ask_state ∷ close_helper ∷ []))
      else if not r.scan_starts
      then ([], (some no_scan, start_helper ∷ ask_state ∷ start_scan ∷ close_helper ∷ []))
      else (
        sort (entries (gather decode_base64 r.heard [])),
        (
          if r.interrupted then some was_interrupted else none,
          start_helper ∷ ask_state ∷ start_scan ∷ stop_scan ∷ close_helper ∷ [],
        ),
      )
