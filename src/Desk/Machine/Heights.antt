-- ===== src/Desk/Machine/Heights.antt =====
-- internal/bridge/desk.go, internal/bridge/throttle.go: the height that a manager remembers and
-- publishes follows the positions that its desk reports.
use mqtt_linak.Base.{ℕ, ◌≡◌, true, false, List, [], ◌∷◌, ℤ, pos, eq_ℤ→eq, arith, ◌⊎◌}
use mqtt_linak.Config
use mqtt_linak.Config.{Config}
use mqtt_linak.Topics.{Numbers, leaf_height, format_tenths_mm}
use mqtt_linak.Desk.{
  Ending, stopped, Place, top, resolving, Manager, Effect, publish, topic, new_desk_manager,
  on_reference_output, enqueue, submit,
}
use mqtt_linak.Desk.Run.{
  Reply, Wake, by_context, by_disconnect, by_flush, by_keep_alive, by_command, serve, replied,
  finish_round, loop_top, next_round,
}
use mqtt_linak.Desk.Machine.{
  Event, position, offer_peripheral, receive_peripheral, quit_wait, step, run,
}
use mqtt_linak.Desk.Machine.Rule.{Rule, step-Rule, run-Kept}

-- What the throttle takes for published is what the manager remembers.
record Remembers (m : Manager) : Type 0 where
  known : m.throttle.has_last ≡ true → m.has_height ≡ true
  same : m.throttle.has_last ≡ true → m.last_height ≡ m.throttle.last

module _ (c : Config) where
  replied-Remembers :
      (p : Place) (r : Reply) (now : ℕ) (m : Manager)
      → Remembers m
      → Remembers (replied c p r now m).0
  unfolding replied
  replied-Remembers top r now m h = h
  replied-Remembers _ r now m h = ground arith

  finish_round-Remembers :
      (e : Ending) (r : ℤ) (now : ℕ) (m : Manager)
      → Remembers m
      → Remembers (finish_round c e r now m).0
  unfolding finish_round
  finish_round-Remembers stopped r now m h = ground arith
  finish_round-Remembers _ r now m h = ground arith

  serve-Remembers : (w : Wake) (now : ℕ) (m : Manager) → Remembers m → Remembers (serve c w now m).0
  unfolding serve
  serve-Remembers by_context now m h = ground arith
  serve-Remembers by_disconnect now m h = ground arith
  serve-Remembers by_flush now m h = ground arith
  serve-Remembers by_keep_alive now m h = ground arith
  serve-Remembers by_command now m h = ground arith

  quit_wait-Remembers : (p : Place) (m : Manager) → Remembers m → Remembers (quit_wait p m).0
  unfolding quit_wait
  quit_wait-Remembers resolving m h = ground arith
  quit_wait-Remembers _ m h = ground arith

abbrev KeepsMemory : Manager → Manager × List Effect → Type 0
KeepsMemory m s = Remembers m → Remembers s.0

module _ (c : Config) {F : Type 0} (nums : Numbers F) where
  remembering : Rule c nums (λ _. KeepsMemory)
  unfolding submit enqueue on_reference_output offer_peripheral loop_top receive_peripheral
      next_round
  remembering = record {
    stays = λ e m h. h;
    cancels = λ m h. ground arith;
    drops = λ m h. ground arith;
    offers = λ pid m h. ground arith;
    moves = λ x v now m h. ground arith;
    submits = λ kind payload m h. ground arith;
    repeats = λ m h. h;
    starts = λ m q h. ground arith;
    finishes = λ e r now m q h. finish_round-Remembers c e r now m h;
    receives = λ m q h. ground arith;
    quits = λ p m q y h. quit_wait-Remembers c p m h;
    replies = λ p r now m q h. replied-Remembers c p r now m h;
    serves = λ w now m q h. serve-Remembers c w now m h;
    sleeps = λ m q h. ground arith;
  }

  run-Remembers : (m : Manager) (es : List Event) → Remembers m → Remembers (run c nums m es).0
  run-Remembers m es h =
      run-Kept c nums Remembers (step-Rule c nums (λ _. KeepsMemory) remembering) m es h

  new_desk_manager-Remembers : (d : Config.Desk) → Remembers (new_desk_manager c d)
  unfolding new_desk_manager
  new_desk_manager-Remembers d = ground arith

  settled :
      (m : Manager) (x : ℤ) (now : ℕ)
      → Remembers m
      → let s = step c nums m (position x (pos 0) now) in
        (s.0.has_height ≡ true)
        × (s.0.last_height ≡ x)
        × (s.0.throttle.has_pending ≡ false)
        × ((s.1 ≡ publish (topic c m leaf_height) (format_tenths_mm x) ∷ [])
            ⊎ ((s.1 ≡ []) × (m.has_height ≡ true) × (m.last_height ≡ x)))
  unfolding step on_reference_output
  settled m x now h = ground (arith, eq_ℤ→eq m.throttle.last x)

  -- After any history of a new manager in which each reading is published by the step that takes it
  -- in (`Set` and `Flush` publish behind their locks, and nothing comes in between), a position at
  -- which the desk stands still is the height that the manager remembers, with nothing pending: it
  -- is published at once, unless it is the height that the manager remembers already.
  pub run-settled :
      (d : Config.Desk) (es : List Event) (x : ℤ) (now : ℕ)
      → let m = (run c nums (new_desk_manager c d) es).0 in
        let s = step c nums m (position x (pos 0) now) in
        (s.0.has_height ≡ true)
        × (s.0.last_height ≡ x)
        × (s.0.throttle.has_pending ≡ false)
        × ((s.1 ≡ publish (topic c m leaf_height) (format_tenths_mm x) ∷ [])
            ⊎ ((s.1 ≡ []) × (m.has_height ≡ true) × (m.last_height ≡ x)))
  run-settled d es x now =
      settled (run c nums (new_desk_manager c d) es).0 x now
        (run-Remembers (new_desk_manager c d) es (new_desk_manager-Remembers d))
