-- ===== src/Desk/Machine/History.antt =====
-- internal/bridge/desk.go: a history in two parts, and what no history changes.
use mqtt_linak.Base.{◌≡◌, refl, ◌∙◌, ℕ, ℤ, List, [], ◌∷◌, ◌++◌, arith}
use mqtt_linak.Config.{Config}
use mqtt_linak.Topics.{Numbers}
use mqtt_linak.Desk.{
  Ending, stopped, Place, top, resolving, Manager, Effect, on_reference_output, submit, enqueue,
}
use mqtt_linak.Desk.Run.{
  Reply, Wake, by_command, by_context, loop_top, serve, replied, finish_round, next_round,
}
use mqtt_linak.Desk.Machine.{Event, offer_peripheral, receive_peripheral, quit_wait, step, run}
use mqtt_linak.Desk.Machine.Rule.{Rule, step-Rule, run-Kept}

abbrev SameDesk : Manager → Manager × List Effect → Type 0
SameDesk m s = s.0.cfg ≡ m.cfg

module _ (c : Config) where
  replied-cfg :
      (p : Place) (r : Reply) (now : ℕ) (m : Manager) → (replied c p r now m).0.cfg ≡ m.cfg
  unfolding replied
  replied-cfg top r now m = refl
  replied-cfg _ r now m = ground arith

  finish_round-cfg :
      (e : Ending) (r : ℤ) (now : ℕ) (m : Manager) → (finish_round c e r now m).0.cfg ≡ m.cfg
  unfolding finish_round
  finish_round-cfg stopped r now m = ground arith
  finish_round-cfg _ r now m = ground arith

  serve-cfg : (w : Wake) (now : ℕ) (m : Manager) → (serve c w now m).0.cfg ≡ m.cfg
  unfolding serve
  serve-cfg by_context now m = ground arith
  serve-cfg by_command now m = ground arith
  serve-cfg _ now m = ground arith

  quit_wait-cfg : (p : Place) (m : Manager) → (quit_wait p m).0.cfg ≡ m.cfg
  unfolding quit_wait
  quit_wait-cfg resolving m = refl
  quit_wait-cfg _ m = ground arith

module _ (c : Config) {F : Type 0} (nums : Numbers F) where
  pub run-append :
      (m : Manager) (es fs : List Event)
      → (run c nums m (es ++ fs)).0 ≡ (run c nums (run c nums m es).0 fs).0
  unfolding run
  run-append m [] fs = refl
  run-append m (e ∷ es) fs = run-append (step c nums m e).0 es fs

  same_desk : Rule c nums (λ _. SameDesk)
  unfolding submit enqueue on_reference_output offer_peripheral loop_top receive_peripheral
      next_round
  same_desk = record {
    stays = λ e m. refl;
    cancels = λ m. refl;
    drops = λ m. refl;
    offers = λ pid m. ground arith;
    moves = λ x v now m. ground arith;
    submits = λ kind payload m. ground arith;
    repeats = λ m. refl;
    starts = λ m q. ground arith;
    finishes = λ e r now m q. finish_round-cfg c e r now m;
    receives = λ m q. ground arith;
    quits = λ p m q h. quit_wait-cfg c p m;
    replies = λ p r now m q. replied-cfg c p r now m;
    serves = λ w now m q. serve-cfg c w now m;
    sleeps = λ m q. refl;
  }

  -- A manager keeps its desk's configuration.
  pub run-cfg : (m : Manager) (es : List Event) → (run c nums m es).0.cfg ≡ m.cfg
  run-cfg m es =
      run-Kept c nums (λ x. x.cfg ≡ m.cfg)
        (λ x e h. step-Rule c nums (λ _. SameDesk) same_desk x e ∙ h) m es refl
