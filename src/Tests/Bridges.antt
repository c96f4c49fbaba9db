-- ===== src/Tests/Bridges.antt =====
-- internal/bridge/bridge.go: peripherals, discoveries and scans.
use mqtt_linak.Base.{
  Any, ◌↔◌, Option, pos, ℕ, Text, ◌+◌, ◌≡◌, refl, ◌↔◌, true, false, none, some, List, [], ◌∷◌,
  codes, is_nil, trim_space,
}
use mqtt_linak.Config.{valid_matchers}
use mqtt_linak.Config.Valid.Fields.{valid_matchers_iff}
use mqtt_linak.Config.Valid.Spec.{HasOneMatcher}
use mqtt_linak.Desk.{Manager, new_desk_manager}
use mqtt_linak.Bridge.{Peripheral, Bridge, matches_desk, scan_end}
use mqtt_linak.Bridge.Matching.{Fits, matches_desk_iff}
use mqtt_linak.Bridge.Scanner.{ScanEvent, round, scan_run, starts, stops, scan_run-scan_end}
use mqtt_linak.Bridge.Scan.{Sighting, Advertisement, Radio, is_off, sighting, inventory}
use mqtt_linak.Bridge.Scan.Laws.{preferred, sightings_of}
use mqtt_linak.Bridge.Scan.Inventory.{inventory-preferred}
use mqtt_linak.Tests.Data.{office, lab, sample}

abbrev pub nearby : Peripheral
nearby = record {
  peripheral_id = codes "1e2d";
  name = some (codes "desk 8802 ");
  local_name = none;
}

office-HasOneMatcher : HasOneMatcher office
unfolding valid_matchers is_nil trim_space
office-HasOneMatcher = (valid_matchers_iff office).0 refl

matches_desk_iff_example : (matches_desk office nearby ≡ true) ↔ Fits office nearby
matches_desk_iff_example = matches_desk_iff office nearby office-HasOneMatcher

-- The second desk waits; its prefix fits the peripheral.
abbrev idle : Manager
idle = new_desk_manager sample office

abbrev waiting : Manager
waiting = record (new_desk_manager sample lab) { want_resolve = true }

abbrev two_desks : Bridge
two_desks = record { desks = idle ∷ waiting ∷ []; by_peripheral = []; seen = []; scan_wake = false }

-- Another peripheral, found in between.
abbrev stranger : Peripheral
stranger = record { peripheral_id = codes "77AB"; name = some (codes "lamp"); local_name = none }

abbrev rounds : List ScanEvent
rounds =
    round false (waiting ∷ [])
    ∷ round true (waiting ∷ [])
    ∷ round true (idle ∷ [])
    ∷ round true (idle ∷ waiting ∷ [])
    ∷ []

scan_run-scan_end_example :
    let r = scan_run false rounds in starts r.1 ≡ stops r.1 + stops (scan_end r.0).1
scan_run-scan_end_example = scan_run-scan_end rounds

-- The second advertisement of the device has its name.
abbrev nameless : Advertisement
nameless = record {
  peripheral = record { peripheral_id = codes "1E2D"; name = none; local_name = none };
  rssi = pos 40;
  services = [];
  manufacturer_data = none;
  is_connectable = some true;
}

abbrev nearer : Advertisement
nearer = record nameless { peripheral = nearby; rssi = pos 50 }

abbrev no_base64 : Text → Option (List ℕ)
no_base64 s = none

abbrev radio : Radio
radio = record {
  helper = true;
  powered_on = some true;
  scan_starts = true;
  heard = nameless ∷ nearer ∷ [];
  interrupted = false;
}

-- A sort that has nothing to do.
abbrev as_it_is : List Sighting → List Sighting
as_it_is ss = ss

inventory-preferred_example :
    Any (λ x. x ≡ sighting no_base64 nearer) (inventory no_base64 as_it_is radio).0 ↔ (
      (key : Text) × (preferred (sightings_of no_base64 key (nameless ∷ nearer ∷ []))
        ≡ some (sighting no_base64 nearer)))
unfolding is_off
inventory-preferred_example =
    inventory-preferred no_base64 as_it_is radio (λ ss s. (λ h. h, λ h. h)) refl refl refl
      (sighting no_base64 nearer)
