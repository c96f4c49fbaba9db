-- ===== src/Desk/Machine/Sessions.antt =====
-- internal/bridge/desk.go: what a manager asks for over a history: one callback, and a Disconnect
-- for each connection.
use mqtt_linak.Base.{ℕ, ◌+◌, ◌≡◌, refl, Bool, true, false, List, [], ◌∷◌, Text, ℤ, arith}
use mqtt_linak.Config
use mqtt_linak.Config.{Config}
use mqtt_linak.Topics.{Numbers}
use mqtt_linak.Desk.{
  CommandKind, Ending, stopped, Place, top, resolving, connecting, creating, waking, stopping,
  owning, serving, discovering, rearming, moving, writing_base, reading_base, keeping_alive,
  sleeping, returned, Manager, Effect, republish_state, new_desk_manager, on_reference_output,
  enqueue, submit,
}
use mqtt_linak.Desk.Run.{
  Reply, done, Wake, by_context, serve, replied, finish_round, loop_top, next_round,
}
use mqtt_linak.Desk.Machine.{
  Event, go_on, end_round, receive, quit, reply, woken, timer, cancel, found, lost, position,
  arrives, reconnected, offer_peripheral, receive_peripheral, quit_wait, run_step, step, run,
}
use mqtt_linak.Desk.Machine.Shape.{Shape, step-Shape, new_desk_manager-Shape}
use mqtt_linak.Desk.Machine.Rule.{Rule, step-Rule}
use mqtt_linak.Desk.Machine.Count.{
  count, count-append, is_callback, is_disconnect, bit, callbacks, disconnects,
}

-- A step registers the callback exactly when it first sets up the subscriptions.
abbrev Registers : Manager → Manager × List Effect → Type 0
Registers m s = callbacks s.1 + bit m.subs_set ≡ bit s.0.subs_set

abbrev RegistersOnce : Manager → Manager × List Effect → Type 0
RegistersOnce m s = Shape m → Registers m s

-- The places at which a connection is open that has not been given up.
abbrev pub is_linked : Place → Bool
is_linked creating = true
is_linked waking = true
is_linked stopping = true
is_linked owning = true
is_linked serving = true
is_linked (discovering w) = true
is_linked (rearming w) = true
is_linked moving = true
is_linked writing_base = true
is_linked reading_base = true
is_linked keeping_alive = true
is_linked _ = false

-- A reply that opens a connection.
abbrev pub opens : Event → Place → ℕ
opens (reply done now) connecting = 1
opens _ _ = 0

abbrev Balanced : ℕ → Manager → Manager × List Effect → Type 0
Balanced opened m s = disconnects s.1 + bit (is_linked s.0.place) ≡ opened + bit (is_linked m.place)

module _ (c : Config) where
  replied-Registers :
      (p : Place) (r : Reply) (now : ℕ) (m : Manager)
      → m.place ≡ p
      → Shape m
      → Registers m (replied c p r now m)
  unfolding replied count
  replied-Registers top r now m e h = ground arith
  replied-Registers _ r now m e h = ground arith

  serve-Registers : (w : Wake) (now : ℕ) (m : Manager) → Registers m (serve c w now m)
  unfolding serve count
  serve-Registers by_context now m = ground arith
  serve-Registers _ now m = ground arith

  finish_round-Registers :
      (e : Ending) (r : ℤ) (now : ℕ) (m : Manager) → Registers m (finish_round c e r now m)
  unfolding finish_round count
  finish_round-Registers stopped r now m = ground arith
  finish_round-Registers _ r now m = ground arith

  replied-Balanced :
      (p : Place) (r : Reply) (now : ℕ) (m : Manager)
      → m.place ≡ p
      → Balanced (opens (reply r now) p) m (replied c p r now m)
  unfolding replied count
  replied-Balanced top r now m e = ground arith
  replied-Balanced connecting done now m e = ground arith
  replied-Balanced _ r now m e = ground arith

  serve-Balanced :
      (w : Wake) (now : ℕ) (m : Manager) → m.place ≡ serving → Balanced 0 m (serve c w now m)
  unfolding serve count
  serve-Balanced by_context now m e = ground arith
  serve-Balanced _ now m e = ground arith

  finish_round-Balanced :
      (e : Ending) (r : ℤ) (now : ℕ) (m : Manager)
      → m.place ≡ returned e
      → Balanced 0 m (finish_round c e r now m)
  unfolding finish_round count
  finish_round-Balanced stopped r now m q = ground arith
  finish_round-Balanced _ r now m q = ground arith

  quit_wait-Registers : (p : Place) (m : Manager) → Registers m (quit_wait p m)
  unfolding quit_wait count
  quit_wait-Registers resolving m = ground arith
  quit_wait-Registers _ m = ground arith

  quit-Balanced :
      (p : Place) (m : Manager) → m.place ≡ p → Balanced (opens quit p) m (run_step c p quit m)
  unfolding run_step count
  quit-Balanced connecting m q = ground arith
  quit-Balanced resolving m q = ground arith
  quit-Balanced _ m q = ground arith

  run_step-Balanced :
      (p : Place) (e : Event) (m : Manager)
      → m.place ≡ p
      → Balanced (opens e p) m (run_step c p e m)
  unfolding run_step count
  run_step-Balanced top go_on m q = ground arith
  run_step-Balanced (returned e) (end_round r now) m q = finish_round-Balanced e r now m q
  run_step-Balanced resolving receive m q = ground arith
  run_step-Balanced p quit m q = quit-Balanced p m q
  run_step-Balanced p (reply r now) m q = replied-Balanced p r now m q
  run_step-Balanced serving (woken w now) m q = serve-Balanced w now m q
  run_step-Balanced sleeping timer m q = ground arith
  run_step-Balanced p e m q = ground arith

module _ (c : Config) {F : Type 0} (nums : Numbers F) where
  position-plain :
      (extension speed : ℤ) (now : ℕ) (m : Manager)
      → Registers m (on_reference_output c m extension speed now)
        × Balanced 0 m (on_reference_output c m extension speed now)
  unfolding on_reference_output count
  position-plain extension speed now m = ground arith

  submit-plain :
      (kind : CommandKind) (payload : Text) (m : Manager)
      → Registers m (submit nums m kind payload, []) × Balanced 0 m (submit nums m kind payload, [])
  unfolding submit enqueue count
  submit-plain kind payload m = ground arith

  republish-plain :
      (m : Manager)
      → (callbacks (republish_state c m) ≡ 0) × (disconnects (republish_state c m) ≡ 0)
  unfolding republish_state count
  republish-plain m = ground arith

  offer-plain :
      (pid : Text) (m : Manager)
      → Registers m (offer_peripheral pid m) × Balanced 0 m (offer_peripheral pid m)
  unfolding offer_peripheral count
  offer-plain pid m = ground arith

  registering : Rule c nums (λ _. RegistersOnce)
  unfolding loop_top receive_peripheral next_round count
  registering = record {
    stays = λ e m h. ground arith;
    cancels = λ m h. ground arith;
    drops = λ m h. ground arith;
    offers = λ pid m h. (offer-plain pid m).0;
    moves = λ x v now m h. (position-plain x v now m).0;
    submits = λ kind payload m h. (submit-plain kind payload m).0;
    repeats = λ m h. omega (arith, (republish-plain m).0);
    starts = λ m q h. ground arith;
    finishes = λ e r now m q h. finish_round-Registers c e r now m;
    receives = λ m q h. ground arith;
    quits = λ p m q y h. quit_wait-Registers c p m;
    replies = λ p r now m q h. replied-Registers c p r now m q h;
    serves = λ w now m q h. serve-Registers c w now m;
    sleeps = λ m q h. ground arith;
  }

  step-Balanced : (m : Manager) (e : Event) → Balanced (opens e m.place) m (step c nums m e)
  unfolding step count
  step-Balanced m cancel = ground arith
  step-Balanced m (found pid) = (offer-plain pid m).1
  step-Balanced m lost = ground arith
  step-Balanced m (position extension speed now) = (position-plain extension speed now m).1
  step-Balanced m (arrives kind payload) = (submit-plain kind payload m).1
  step-Balanced m reconnected = omega (arith, (republish-plain m).1)
  step-Balanced m e = run_step-Balanced c m.place e m refl

  run-Registers :
      (m : Manager) (es : List Event)
      → Shape m
      → callbacks (run c nums m es).1 + bit m.subs_set ≡ bit (run c nums m es).0.subs_set
  unfolding run count
  run-Registers m [] h = omega arith
  run-Registers m (e ∷ es) h =
      let s = step c nums m e in
      omega (
        arith,
        step-Rule c nums (λ _. RegistersOnce) registering m e h,
        run-Registers s.0 es (step-Shape c nums m e h),
        count-append is_callback s.1 (run c nums s.0 es).1,
      )

  -- Over any history of a new manager, however often it reconnects, the position callback is
  -- registered once if the subscriptions have been set up, and never before.
  pub run-callbacks :
      (d : Config.Desk) (es : List Event)
      → let s = run c nums (new_desk_manager c d) es in callbacks s.1 ≡ bit s.0.subs_set
  unfolding new_desk_manager
  run-callbacks d es =
      omega (arith, run-Registers (new_desk_manager c d) es (new_desk_manager-Shape c d))

  -- How many connections a history opens.
  unfoldable pub openings : Manager → List Event → ℕ
  openings m [] = 0
  openings m (e ∷ es) = opens e m.place + openings (step c nums m e).0 es

  run-Balanced :
      (m : Manager) (es : List Event)
      → disconnects (run c nums m es).1 + bit (is_linked (run c nums m es).0.place)
        ≡ openings m es + bit (is_linked m.place)
  unfolding run count openings
  run-Balanced m [] = omega arith
  run-Balanced m (e ∷ es) =
      let s = step c nums m e in
      omega (
        arith,
        step-Balanced m e,
        run-Balanced s.0 es,
        count-append is_disconnect s.1 (run c nums s.0 es).1,
      )

  -- Over any history of a new manager there is one Disconnect for each connection that was opened,
  -- but for the one that is open.
  pub run-disconnects :
      (d : Config.Desk) (es : List Event)
      → let s = run c nums (new_desk_manager c d) es in
        disconnects s.1 + bit (is_linked s.0.place) ≡ openings (new_desk_manager c d) es
  unfolding new_desk_manager
  run-disconnects d es = omega (arith, run-Balanced (new_desk_manager c d) es)
