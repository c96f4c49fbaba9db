-- ===== src/Desk/Machine/Keeps.antt =====
-- internal/bridge/desk.go, internal/bridge/throttle.go: the steps that publish nothing and keep what is
-- known of the desk.
use mqtt_linak.Base.{
  ◌≢◌, ℕ, ◌≡◌, refl, Bool, true, false, Option, none, some, List, [], ◌∷◌, ℤ, arith,
}
use mqtt_linak.Config.{Config}
use mqtt_linak.Throttle.{Throttle, set, flush}
use mqtt_linak.Topics.{leaf_availability}
use mqtt_linak.Desk.{
  Ending, stopped, dropped, failed, Place, top, resolving, owning, reading_base, Manager, Effect,
  publish, publish_retained, offline_payload, topic,
}
use mqtt_linak.Desk.Run.{Reply, Wake, by_command, by_flush, serve, replied, finish_round, announce}
use mqtt_linak.Desk.Machine.{quit_wait}

-- A manager that keeps the same of its desk, or less.
pub record Same (m m' : Manager) : Type 0 where
  pub own : m'.cfg ≡ m.cfg
  pub has_height : m'.has_height ≡ m.has_height
  pub height : m'.last_height ≡ m.last_height
  pub pending :
      m'.throttle.has_pending ≡ true
      → (m.throttle.has_pending ≡ true) × (m'.throttle.pending ≡ m.throttle.pending)
  pub has_base : m'.has_base ≡ m.has_base
  pub base : m'.last_base ≡ m.last_base

-- Nothing is published.
abbrev pub are_quiet : List Effect → Bool
are_quiet [] = true
are_quiet (publish t p ∷ es) = false
are_quiet (publish_retained t p ∷ es) = false
are_quiet (_ ∷ es) = are_quiet es

-- The first effect, and whether the others publish nothing.
abbrev pub first : List Effect → Option Effect × Bool
first [] = (none, true)
first (e ∷ es) = (some e, are_quiet es)

abbrev pub Quiet : Manager → Manager × List Effect → Type 0
Quiet m s = (are_quiet s.1 ≡ true) × Same m s.0

pub set_values :
    (t : Throttle) (x : ℤ) (force : Bool) (now : ℕ)
    → ((set t x force now).0.has_pending ≡ true → (set t x force now).0.pending ≡ x)
      × ((y : ℤ) → (set t x force now).1 ≡ some y → y ≡ x)
unfolding set
set_values t x force now = (λ e. ground arith, λ y e. ground arith)

pub flush_values :
    (t : Throttle) (now : ℕ)
    → ((flush t now).0.has_pending ≡ true
        → (t.has_pending ≡ true) × ((flush t now).0.pending ≡ t.pending))
      × ((y : ℤ) → (flush t now).1 ≡ some y → (t.has_pending ≡ true) × (y ≡ t.pending))
unfolding flush
flush_values t now = (λ e. ground arith, λ y e. ground arith)

module _ (c : Config) where
  pub announce-Same : (now : ℕ) (m : Manager) → Same m (announce c now m).0
  unfolding announce
  announce-Same now m = ground arith

  pub replied-Quiet :
      (p : Place) (r : Reply) (now : ℕ) (m : Manager)
      → p ≢ reading_base
      → p ≢ owning
      → Quiet m (replied c p r now m)
  unfolding replied
  replied-Quiet reading_base r now m n k = absurd (n refl)
  replied-Quiet owning r now m n k = absurd (k refl)
  replied-Quiet top r now m n k = ground arith
  replied-Quiet _ r now m n k = ground arith

  pub finish_round-Same :
      (e : Ending) (r : ℤ) (now : ℕ) (m : Manager) → Same m (finish_round c e r now m).0
  unfolding finish_round
  finish_round-Same stopped r now m = ground arith
  finish_round-Same _ r now m = ground arith

  pub finish_round-first :
      (e : Ending) (r : ℤ) (now : ℕ) (m : Manager)
      → first (finish_round c e r now m).1
        ≡ (some (publish_retained (topic c m leaf_availability) offline_payload), true)
  unfolding finish_round
  finish_round-first stopped r now m = ground arith
  finish_round-first dropped r now m = ground arith
  finish_round-first failed r now m = ground arith

  pub serve-Quiet : (w : Wake) (now : ℕ) (m : Manager) → w ≢ by_flush → Quiet m (serve c w now m)
  unfolding serve
  serve-Quiet by_flush now m n = absurd (n refl)
  serve-Quiet by_command now m n = ground arith
  serve-Quiet _ now m n = ground arith

  pub quit_wait-Quiet : (p : Place) (m : Manager) → Quiet m (quit_wait p m)
  unfolding quit_wait
  quit_wait-Quiet resolving m = ground arith
  quit_wait-Quiet _ m = ground arith
