-- ===== src/Throttle/Race.antt =====
-- internal/bridge/throttle.go: `Set` and `Flush` decide under the lock and call `publish` after
-- they have released it, so the two halves of calls from two goroutines can interleave.
use mqtt_linak.Base.{
  ℕ, ◌≡◌, ◌≢◌, Bool, true, false, Option, none, some, List, [], ◌∷◌, ℤ, ◌≤ℤ◌, eq_ℤ→eq, arith,
}
use mqtt_linak.Throttle.{Throttle, elapsed, set, flush}
use mqtt_linak.Throttle.Trace.{send, last_sent}

-- What the callback goroutine (`Set`) and the serve loop (`Flush`) hold back between the two
-- halves, beside the throttle and what has been published, the latest first.
pub record Race : Type 0 where
  pub throttle : Throttle
  pub set_holds : Option ℤ
  pub flush_holds : Option ℤ
  pub sent : List ℤ

pub data Half : Type 0 where
  set_locked : ℤ → Bool → ℕ → Half
  set_publishes : Half
  flush_locked : ℕ → Half
  flush_publishes : Half

pub half_step : Race → Half → Race
half_step r (set_locked v force now) =
    let (t, p) = set r.throttle v force now in record r { throttle = t; set_holds = p }
half_step r set_publishes = record r { set_holds = none; sent = send r.set_holds r.sent }
half_step r (flush_locked now) =
    let (t, p) = flush r.throttle now in record r { throttle = t; flush_holds = p }
half_step r flush_publishes = record r { flush_holds = none; sent = send r.flush_holds r.sent }

pub half_run : Race → List Half → Race
half_run r [] = r
half_run r (h ∷ hs) = half_run (half_step r h) hs

-- One call of each whose first half is the flush's and whose last half is the flush's too.
abbrev pub overtaken : ℤ → ℕ → ℕ → List Half
overtaken v now then =
    flush_locked now ∷ set_locked v true then ∷ set_publishes ∷ flush_publishes ∷ []

-- From any throttle that holds back a reading whose interval is over, a forced reading that differs
-- from it can be overtaken by a flush: the throttle then takes the forced reading for the one
-- published last, has nothing pending, and the value published last is the older reading.
pub half_run-overtaken :
    (t : Throttle) (v : ℤ) (now then : ℕ) (out : List ℤ)
    → t.has_pending ≡ true
    → t.min ≤ℤ elapsed t now
    → v ≢ t.pending
    → let r =
        half_run
          (record { throttle = t; set_holds = none; flush_holds = none; sent = out })
          (overtaken v now then) in
      (r.throttle.last ≡ v) × (r.throttle.has_pending ≡ false) × (last_sent r.sent ≡ some t.pending)
unfolding half_run half_step set flush
half_run-overtaken t v now then out p late ne = ground (arith, eq_ℤ→eq t.pending v)
