-- ===== src/Desk/Machine/Wanted.antt =====
-- internal/bridge/desk.go: a manager that starts or stops to look for its desk wakes the scan
-- controller.
use mqtt_linak.Base.{◌≡◌, refl, ◌⊎◌, inr, ℕ, ℤ, Bool, true, false, List, [], ◌∷◌, Text, arith}
use mqtt_linak.Config.{Config}
use mqtt_linak.Topics.{Numbers}
use mqtt_linak.Desk.{
  CommandKind, Ending, stopped, Place, top, resolving, Manager, Effect, wake_scanner,
  on_reference_output, submit, enqueue,
}
use mqtt_linak.Desk.Run.{
  Reply, Wake, by_command, by_context, loop_top, serve, replied, finish_round, next_round,
}
use mqtt_linak.Desk.Machine.{Event, offer_peripheral, receive_peripheral, quit_wait, step}
use mqtt_linak.Desk.Machine.Rule.{Rule, step-Rule}

-- Whether the scan controller is woken.
abbrev pub wakes : List Effect → Bool
wakes [] = false
wakes (wake_scanner ∷ es) = true
wakes (_ ∷ es) = wakes es

-- Whether a desk is wanted changes only with a wake-up.
abbrev pub Wakes : Manager → Manager × List Effect → Type 0
Wakes m s = (wakes s.1 ≡ true) ⊎ (s.0.want_resolve ≡ m.want_resolve)

module _ (c : Config) where
  replied-Wakes : (p : Place) (r : Reply) (now : ℕ) (m : Manager) → Wakes m (replied c p r now m)
  unfolding replied
  replied-Wakes top r now m = inr refl
  replied-Wakes _ r now m = ground arith

  finish_round-Wakes :
      (e : Ending) (r : ℤ) (now : ℕ) (m : Manager) → Wakes m (finish_round c e r now m)
  unfolding finish_round
  finish_round-Wakes stopped r now m = ground arith
  finish_round-Wakes _ r now m = ground arith

  serve-Wakes : (w : Wake) (now : ℕ) (m : Manager) → Wakes m (serve c w now m)
  unfolding serve
  serve-Wakes by_context now m = ground arith
  serve-Wakes by_command now m = ground arith
  serve-Wakes _ now m = ground arith

  quit_wait-Wakes : (p : Place) (m : Manager) → Wakes m (quit_wait p m)
  unfolding quit_wait
  quit_wait-Wakes resolving m = inr refl
  quit_wait-Wakes _ m = ground arith

module _ (c : Config) {F : Type 0} (nums : Numbers F) where
  waking : Rule c nums (λ _. Wakes)
  unfolding submit enqueue on_reference_output offer_peripheral loop_top receive_peripheral
      next_round
  waking = record {
    stays = λ e m. inr refl;
    cancels = λ m. inr refl;
    drops = λ m. inr refl;
    offers = λ pid m. ground arith;
    moves = λ x v now m. ground arith;
    submits = λ kind payload m. ground arith;
    repeats = λ m. inr refl;
    starts = λ m q. ground arith;
    finishes = λ e r now m q. finish_round-Wakes c e r now m;
    receives = λ m q. ground arith;
    quits = λ p m q h. quit_wait-Wakes c p m;
    replies = λ p r now m q. replied-Wakes c p r now m;
    serves = λ w now m q. serve-Wakes c w now m;
    sleeps = λ m q. inr refl;
  }

  pub step-Wakes : (m : Manager) (e : Event) → Wakes m (step c nums m e)
  step-Wakes m e = step-Rule c nums (λ _. Wakes) waking m e

  pub submit-want_resolve :
      (kind : CommandKind) (payload : Text) (m : Manager)
      → (submit nums m kind payload).want_resolve ≡ m.want_resolve
  unfolding submit enqueue
  submit-want_resolve kind payload m = ground arith
