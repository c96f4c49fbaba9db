-- ===== src/Bridge/Routing.antt =====
-- internal/bridge/bridge.go: the desk that gets a discovered peripheral gets its disconnection too.
use mqtt_linak.Base.{ℕ, suc, ◌≡◌, refl, false, none, some, List, [], ◌∷◌, All, get_elem?}
use mqtt_linak.Config
use mqtt_linak.Desk.{Manager}
use mqtt_linak.Desk.Machine.{offer_peripheral}
use mqtt_linak.Bridge.{Peripheral, Bridge, is_candidate, offer_first, on_discovery}

-- Some discoveries, one behind the other.
unfoldable pub discover : List Peripheral → Bridge → Bridge
unfolding on_discovery
discover [] b = b
discover (p ∷ ps) b = discover ps (on_discovery p b)

-- No desk of the list waits for the peripheral.
abbrev pub NoneWaits : Peripheral → List Manager → Type 0
NoneWaits p = All (λ (m : Manager). is_candidate p m ≡ false)

abbrev pub offered : Peripheral → Manager → Manager
offered p m = (offer_peripheral p.peripheral_id m).0

offer_first-none :
    (p : Peripheral) (i : ℕ) (ms : List Manager) → NoneWaits p ms → offer_first p i ms ≡ none
unfolding offer_first
offer_first-none p i [] _ = refl
offer_first-none p i (m ∷ ms) (n, ns) = rw (n, offer_first-none p (suc i) ms ns) refl

-- At that place of the list is the desk of this section of the configuration.
HasDesk : ℕ → Config.Desk → List Manager → Type 0
HasDesk i d ms = (x : Manager) × (get_elem? ms i ≡ some x) × (x.cfg ≡ d)

-- A discovery that no desk waits for changes no desk, no owner and not the scan.
on_discovery-ignored :
    (p : Peripheral) (b : Bridge)
    → NoneWaits p b.desks
    → let b' = on_discovery p b in
      (b'.desks ≡ b.desks) × (b'.by_peripheral ≡ b.by_peripheral) × (b'.scan_wake ≡ b.scan_wake)
unfolding on_discovery
on_discovery-ignored p b n = rw (on_discovery, offer_first-none p 0 b.desks n) (refl, refl, refl)
