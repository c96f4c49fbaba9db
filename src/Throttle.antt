-- ===== src/Throttle.antt =====
-- internal/bridge/throttle.go: rate limiting of a stream of readings. The clock reading and the
-- value that goes to the `publish` callback are explicit; an instant is a number of nanoseconds.
pub mod Trace
pub mod Rate
pub mod Race
use mqtt_linak.Base.{
  ℕ, ◌≡◌, refl, Bool, true, false, ◌&&◌, ◌||◌, not, Option, none, some, ℤ, pos, sub_ℕ, ltb_ℤ, leb_ℤ,
  eq_ℤ, if◌then◌else◌,
}

pub record Throttle : Type 0 where
  pub min : ℤ
  pub pending : ℤ
  pub has_pending : Bool
  pub last : ℤ
  pub has_last : Bool
  pub last_at : ℕ

unfoldable pub new_throttle : ℤ → Throttle
new_throttle min = record {
  min = min;
  pending = pos 0;
  has_pending = false;
  last = pos 0;
  has_last = false;
  last_at = 0;
}

-- `now.Sub(t.lastAt)`
abbrev pub elapsed : Throttle → ℕ → ℤ
elapsed t now = sub_ℕ now t.last_at

-- The second component is the value handed to `publish`, if any.
unfoldable pub set : Throttle → ℤ → Bool → ℕ → Throttle × Option ℤ
unfolding eq_ℤ
set t v force now =
    if t.has_last && eq_ℤ t.last v
    then (record t { has_pending = false }, none)
    else if force || (not t.has_last || leb_ℤ t.min (elapsed t now))
    then (record t { last = v; has_last = true; last_at = now; has_pending = false }, some v)
    else (record t { pending = v; has_pending = true }, none)

unfoldable pub flush : Throttle → ℕ → Throttle × Option ℤ
flush t now =
    if not t.has_pending
    then (t, none)
    else if t.has_last && ltb_ℤ (elapsed t now) t.min
    then (t, none)
    else (
      record t {
        pending = pos 0;
        has_pending = false;
        last = t.pending;
        has_last = true;
        last_at = now;
      },
      some t.pending,
    )

unfoldable pub reset : Throttle → Throttle
reset t = record t { has_last = false; has_pending = false }
