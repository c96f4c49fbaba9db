-- ===== src/Desk/Machine/Backoff.antt =====
-- internal/bridge/desk.go: the backoff between two rounds of `run`.
use mqtt_linak.Base.{
  ℕ, ◌+◌, ◌≤◌, ◌/◌, ◌<◌, ◌≡◌, refl, List, [], ◌∷◌, Text, ℤ, pos, arith, if◌then◌else◌, ◌^◌, ◌≤ℤ◌,
  ◌<ℤ◌, ◌+ℤ◌, pos_part, wrap64, ltb_ℤ,
}
use mqtt_linak.Config
use mqtt_linak.Config.{Config, Duration}
use mqtt_linak.Topics.{Numbers}
use mqtt_linak.Desk.{
  CommandKind, Ending, stopped, dropped, failed, Place, top, resolving, serving, sleeping, returned,
  Manager, Effect, new_desk_manager, on_reference_output, enqueue, submit,
}
use mqtt_linak.Desk.Run.{
  Reply, Wake, by_context, by_command, serve, replied, finish_round, jitter, double_backoff,
}
use mqtt_linak.Desk.Machine.{
  Event, go_on, end_round, receive, quit, reply, woken, timer, cancel, found, lost, position,
  arrives, reconnected, offer_peripheral, run_step, step, run,
}

-- Backoffs in order, and so far from the end of int64 (146 years) that doubling fits.
pub record Pacing (c : Config) : Type 0 where
  pub positive : pos 0 <ℤ c.bluetooth.reconnect_min_backoff
  pub ordered : c.bluetooth.reconnect_min_backoff ≤ℤ c.bluetooth.reconnect_max_backoff
  pub small : pos_part c.bluetooth.reconnect_max_backoff < 2 ^ 62

abbrev pub InRange : Config → Duration → Type 0
InRange c d = (c.bluetooth.reconnect_min_backoff ≤ℤ d) × (d ≤ℤ c.bluetooth.reconnect_max_backoff)

-- A positive duration below 2 ^ 62 is doubled exactly, up to the limit.
pub double_backoff-exact :
    (n k : ℕ)
    → n < 2 ^ 62
    → double_backoff (pos n) (pos k) ≡ (if ltb_ℤ (pos k) (pos (n + n)) then pos k else pos (n + n))
unfolding double_backoff wrap64 ◌+ℤ◌
double_backoff-exact n k h = ground arith

double-InRange :
    (c : Config) (d : Duration)
    → Pacing c
    → InRange c d
    → InRange c (double_backoff d c.bluetooth.reconnect_max_backoff)
unfolding double_backoff wrap64 ◌+ℤ◌
double-InRange c d p h = ground arith

-- A backoff of 2 ^ 62 nanoseconds or more, which a limit as large admits, is doubled to a negative
-- one, and a negative one is slept as it is: the wait between two attempts is gone.
pub double_backoff-overflow :
    (n k : ℕ) (r : ℤ)
    → 2 ^ 62 ≤ n
    → n ≤ k
    → k < 2 ^ 63
    → (double_backoff (pos n) (pos k) <ℤ pos 0)
      × (jitter (double_backoff (pos n) (pos k)) r ≡ double_backoff (pos n) (pos k))
unfolding double_backoff jitter wrap64 ◌+ℤ◌
double_backoff-overflow n k r low le high = (ground arith, ground arith)

-- Jitter adds to a duration below 2 ^ 62 nanoseconds at most a quarter of it, if the random number
-- is at most that quarter, and takes nothing away.
jitter-bounds :
    (n k : ℕ)
    → n < 2 ^ 62
    → k ≤ n / 4
    → (pos n ≤ℤ jitter (pos n) (pos k)) × (jitter (pos n) (pos k) ≤ℤ pos (n + n / 4))
unfolding jitter wrap64 ◌+ℤ◌
jitter-bounds n k h q = (ground arith, ground arith)

-- The backoff is left alone.
abbrev Steady : Manager → Manager × List Effect → Type 0
Steady m s = s.0.backoff ≡ m.backoff

module _ (c : Config) where
  replied-Steady : (p : Place) (r : Reply) (now : ℕ) (m : Manager) → Steady m (replied c p r now m)
  unfolding replied
  replied-Steady top r now m = refl
  replied-Steady _ r now m = ground arith

  serve-Steady : (w : Wake) (now : ℕ) (m : Manager) → Steady m (serve c w now m)
  unfolding serve
  serve-Steady by_context now m = ground arith
  serve-Steady by_command now m = ground arith
  serve-Steady _ now m = ground arith

  finish_round-InRange :
      (e : Ending) (r : ℤ) (now : ℕ) (m : Manager)
      → Pacing c
      → InRange c m.backoff
      → InRange c (finish_round c e r now m).0.backoff
  unfolding finish_round
  finish_round-InRange stopped r now m p h = ground arith
  finish_round-InRange dropped r now m p h = ground arith
  finish_round-InRange failed r now m p h = ground arith

  still : {d e : Duration} → e ≡ d → InRange c d → InRange c e
  still q h = rw q h

  quit-Steady : (p : Place) (m : Manager) → Steady m (run_step c p quit m)
  unfolding run_step
  quit-Steady resolving m = ground arith
  quit-Steady _ m = ground arith

  run_step-InRange :
      (p : Place) (e : Event) (m : Manager)
      → Pacing c
      → InRange c m.backoff
      → InRange c (run_step c p e m).0.backoff
  unfolding run_step
  run_step-InRange top go_on m p h = ground arith
  run_step-InRange (returned e) (end_round r now) m p h = finish_round-InRange e r now m p h
  run_step-InRange resolving receive m p h = ground arith
  run_step-InRange q quit m p h = still (quit-Steady q m) h
  run_step-InRange q (reply r now) m p h = still (replied-Steady q r now m) h
  run_step-InRange serving (woken w now) m p h = still (serve-Steady w now m) h
  run_step-InRange sleeping timer m p h = double-InRange c m.backoff p h
  run_step-InRange q e m p h = h

module _ (c : Config) {F : Type 0} (nums : Numbers F) where
  position-Steady :
      (extension speed : ℤ) (now : ℕ) (m : Manager)
      → Steady m (on_reference_output c m extension speed now)
  unfolding on_reference_output
  position-Steady extension speed now m = ground arith

  submit-backoff :
      (kind : CommandKind) (payload : Text) (m : Manager)
      → (submit nums m kind payload).backoff ≡ m.backoff
  unfolding submit enqueue
  submit-backoff kind payload m = ground arith

  offer-Steady : (pid : Text) (m : Manager) → Steady m (offer_peripheral pid m)
  unfolding offer_peripheral
  offer-Steady pid m = ground arith

  step-InRange :
      (m : Manager) (e : Event)
      → Pacing c
      → InRange c m.backoff
      → InRange c (step c nums m e).0.backoff
  unfolding step
  step-InRange m cancel p h = h
  step-InRange m (found pid) p h = still c (offer-Steady pid m) h
  step-InRange m lost p h = h
  step-InRange m (position extension speed now) p h =
      still c (position-Steady extension speed now m) h
  step-InRange m (arrives kind payload) p h = still c (submit-backoff kind payload m) h
  step-InRange m reconnected p h = h
  step-InRange m e p h = run_step-InRange c m.place e m p h

  run-InRange :
      (m : Manager) (es : List Event)
      → Pacing c
      → InRange c m.backoff
      → InRange c (run c nums m es).0.backoff
  unfolding run
  run-InRange m [] p h = h
  run-InRange m (e ∷ es) p h = run-InRange (step c nums m e).0 es p (step-InRange m e p h)

  -- If the configured backoffs are positive, in order and below 2 ^ 62 nanoseconds, the backoff lies
  -- between them after any history of a new manager.
  pub run-backoff :
      (d : Config.Desk) (es : List Event)
      → Pacing c
      → InRange c (run c nums (new_desk_manager c d) es).0.backoff
  unfolding new_desk_manager
  run-backoff d es p = run-InRange (new_desk_manager c d) es p (ground arith)
