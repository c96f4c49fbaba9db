-- ===== src/System/Absorb.antt =====
-- internal/bridge/bridge.go: what a desk does to the bridge leaves the desks as they are.
use mqtt_linak.Base.{◌≡◌, refl, true, List, [], ◌∷◌}
use mqtt_linak.Desk.{Effect, wake_scanner, delete_peripheral}
use mqtt_linak.Bridge.{Bridge}
use mqtt_linak.System.{absorb}

pub absorb-desks : (es : List Effect) (b : Bridge) → (absorb es b).desks ≡ b.desks
unfolding absorb
absorb-desks [] b = refl
absorb-desks (wake_scanner ∷ es) b = absorb-desks es (record b { scan_wake = true })
absorb-desks (delete_peripheral key ∷ es) b = absorb-desks es _
absorb-desks (_ ∷ es) b = absorb-desks es b
