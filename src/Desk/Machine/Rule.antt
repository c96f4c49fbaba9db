-- ===== src/Desk/Machine/Rule.antt =====
-- internal/bridge/desk.go: what holds of each piece of a manager's code holds of each of its steps.
use mqtt_linak.Base.{ℕ, ℤ, ◌≡◌, refl, Bool, true, false, List, [], ◌∷◌, All, Text, if◌then◌else◌}
use mqtt_linak.Config.{Config}
use mqtt_linak.Topics.{Numbers}
use mqtt_linak.Desk.{
  CommandKind, Ending, Place, top, resolving, sleeping, serving, returned, Manager, Effect,
  on_reference_output, republish_state, submit,
}
use mqtt_linak.Desk.Run.{Reply, Wake, loop_top, serve, replied, finish_round, next_round}
use mqtt_linak.Desk.Machine.{
  Event, go_on, end_round, receive, quit, reply, woken, timer, cancel, found, lost, position,
  arrives, reconnected, offer_peripheral, receive_peripheral, quit_wait, run_step, step, run,
}

module _ (c : Config) {F : Type 0} (nums : Numbers F) where
  -- A relation between an event, a manager and what a piece makes of it, for every piece.
  pub record Rule (P : Event → Manager → Manager × List Effect → Type 0) : Type 0 where
    pub stays : (e : Event) (m : Manager) → P e m (m, [])
    pub cancels : (m : Manager) → P cancel m (record m { cancelled = true }, [])
    pub drops : (m : Manager) → P lost m (record m { disconnected = true }, [])
    pub offers : (pid : Text) (m : Manager) → P (found pid) m (offer_peripheral pid m)
    pub moves :
        (extension speed : ℤ) (now : ℕ) (m : Manager)
        → P (position extension speed now) m (on_reference_output c m extension speed now)
    pub submits :
        (kind : CommandKind) (payload : Text) (m : Manager)
        → P (arrives kind payload) m (submit nums m kind payload, [])
    pub repeats : (m : Manager) → P reconnected m (m, republish_state c m)
    pub starts : (m : Manager) → m.place ≡ top → P go_on m (loop_top m)
    pub finishes :
        (e : Ending) (r : ℤ) (now : ℕ) (m : Manager)
        → m.place ≡ returned e
        → P (end_round r now) m (finish_round c e r now m)
    pub receives : (m : Manager) → m.place ≡ resolving → P receive m (receive_peripheral m)
    pub quits :
        (p : Place) (m : Manager) → m.place ≡ p → m.cancelled ≡ true → P quit m (quit_wait p m)
    pub replies :
        (p : Place) (r : Reply) (now : ℕ) (m : Manager)
        → m.place ≡ p
        → P (reply r now) m (replied c p r now m)
    pub serves :
        (w : Wake) (now : ℕ) (m : Manager) → m.place ≡ serving → P (woken w now) m (serve c w now m)
    pub sleeps : (m : Manager) → m.place ≡ sleeping → P timer m (next_round c m)

  module _ (P : Event → Manager → Manager × List Effect → Type 0) (rule : Rule P) where
    if-Rule :
        (e : Event) (m : Manager) (b : Bool) (x y : Manager × List Effect)
        → (b ≡ true → P e m x)
        → P e m y
        → P e m (if b then x else y)
    if-Rule e m true x y h k = h refl
    if-Rule e m false x y h k = k

    quit-Rule : (p : Place) (m : Manager) → m.place ≡ p → P quit m (run_step c p quit m)
    unfolding run_step
    quit-Rule resolving m q =
        if-Rule quit m m.cancelled (quit_wait resolving m) (m, []) (rule.quits resolving m q)
          (rule.stays quit m)
    quit-Rule p m q =
        if-Rule quit m m.cancelled (quit_wait p m) (m, []) (rule.quits p m q) (rule.stays quit m)

    run_step-Rule : (p : Place) (e : Event) (m : Manager) → m.place ≡ p → P e m (run_step c p e m)
    unfolding run_step
    run_step-Rule top go_on m q = rule.starts m q
    run_step-Rule (returned x) (end_round r now) m q = rule.finishes x r now m q
    run_step-Rule resolving receive m q = rule.receives m q
    run_step-Rule p quit m q = quit-Rule p m q
    run_step-Rule p (reply r now) m q = rule.replies p r now m q
    run_step-Rule serving (woken w now) m q = rule.serves w now m q
    run_step-Rule sleeping timer m q = rule.sleeps m q
    run_step-Rule p e m q = rule.stays e m

    pub step-Rule : (m : Manager) (e : Event) → P e m (step c nums m e)
    unfolding step
    step-Rule m cancel = rule.cancels m
    step-Rule m (found pid) = rule.offers pid m
    step-Rule m lost = rule.drops m
    step-Rule m (position extension speed now) = rule.moves extension speed now m
    step-Rule m (arrives kind payload) = rule.submits kind payload m
    step-Rule m reconnected = rule.repeats m
    step-Rule m e = run_step-Rule m.place e m refl

  -- What every step keeps, a history keeps.
  pub run-Kept :
      (K : Manager → Type 0)
      → ((m : Manager) (e : Event) → K m → K (step c nums m e).0)
      → (m : Manager) (es : List Event) → K m
      → K (run c nums m es).0
  unfolding run
  run-Kept K h m [] k = k
  run-Kept K h m (e ∷ es) k = run-Kept K h (step c nums m e).0 es (h m e k)

  -- What every step keeps by an event of a kind, a history of such events keeps.
  pub run-Kept_by :
      (A : Event → Type 0) (K : Manager → Type 0)
      → ((m : Manager) (e : Event) → A e → K m → K (step c nums m e).0)
      → (m : Manager) (es : List Event) → All A es
      → K m
      → K (run c nums m es).0
  unfolding run
  run-Kept_by A K h m [] _ k = k
  run-Kept_by A K h m (e ∷ es) (a, rest) k =
      run-Kept_by A K h (step c nums m e).0 es rest (h m e a k)
