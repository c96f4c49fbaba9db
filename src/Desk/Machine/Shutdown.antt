-- ===== src/Desk/Machine/Shutdown.antt =====
-- internal/bridge/desk.go: the goroutine of a desk comes to its end when the context does.
use mqtt_linak.Base.{ℕ, ◌-◌, ◌≤◌, ◌≡◌, refl, ap, ◌∙◌, true, List, [], ◌∷◌, ◌++◌, pos, arith, length}
use mqtt_linak.Config
use mqtt_linak.Config.{Config}
use mqtt_linak.Topics.{Numbers}
use mqtt_linak.Desk.{
  Place, top, resolving, connecting, creating, waking, stopping, owning, serving, discovering,
  rearming, reference_output, reference_input, desk_panel, moving, writing_base, reading_base,
  keeping_alive, sleeping, over, disconnecting, returned, Manager,
}
use mqtt_linak.Desk.Run.{Reply, by_context, replied}
use mqtt_linak.Desk.Machine.{
  Event, go_on, end_round, quit, reply, woken, cancel, run_step, step, run,
}

-- The next event of the goroutine once its context has ended: a call that it waits for ends as it
-- may, at the time given, and a select with the context among its cases takes that case.
abbrev pub closing_event : Place → Reply → ℕ → Event
closing_event top r now = go_on
closing_event resolving r now = quit
closing_event sleeping r now = quit
closing_event over r now = quit
closing_event serving r now = woken by_context now
closing_event (returned e) r now = end_round (pos 0) now
closing_event p r now = reply r now

-- An upper bound of the events that are left.
abbrev pub rank : Place → ℕ
rank over = 0
rank top = 1
rank resolving = 1
rank sleeping = 1
rank (returned e) = 1
rank (disconnecting e) = 2
rank serving = 3
rank moving = 4
rank keeping_alive = 4
rank reading_base = 4
rank writing_base = 5
rank owning = 5
rank stopping = 6
rank waking = 7
rank creating = 8
rank (rearming reference_output) = 9
rank (rearming w) = 8
rank (discovering desk_panel) = 10
rank (discovering reference_input) = 11
rank (discovering reference_output) = 12
rank connecting = 13

module _ (c : Config) where
  replied-cancelled :
      (p : Place) (r : Reply) (now : ℕ) (m : Manager)
      → (replied c p r now m).0.cancelled ≡ m.cancelled
  unfolding replied
  replied-cancelled top r now m = refl
  replied-cancelled _ r now m = ground arith

  closing-rank :
      (p : Place) (r : Reply) (now : ℕ) (m : Manager)
      → m.place ≡ p
      → m.cancelled ≡ true
      → let m' = (run_step c p (closing_event p r now) m).0 in
        (m'.cancelled ≡ true) × (rank m'.place ≤ rank p - 1)
  unfolding run_step replied
  closing-rank top r now m e h = ground arith
  closing-rank resolving r now m e h = ground arith
  closing-rank sleeping r now m e h = ground arith
  closing-rank over r now m e h = ground arith
  closing-rank serving r now m e h = ground arith
  closing-rank (returned x) r now m e h = ground arith
  closing-rank _ r now m e h = ground arith

-- The history of a new manager up to the end of its context.
abbrev pub cancelled_after : List Event → List Event
cancelled_after es = es ++ cancel ∷ []

module _ (c : Config) {F : Type 0} (nums : Numbers F) where
  -- The events of a manager whose context has ended, one for each answer.
  unfoldable pub closing : List (Reply × ℕ) → Manager → List Event
  closing [] m = []
  closing ((r, now) ∷ answers) m =
      let e = closing_event m.place r now in e ∷ closing answers (step c nums m e).0

  step-closing :
      (p : Place) (r : Reply) (now : ℕ) (m : Manager)
      → m.place ≡ p
      → step c nums m (closing_event p r now) ≡ run_step c p (closing_event p r now) m
  unfolding step
  step-closing top r now m e = rw e refl
  step-closing resolving r now m e = rw e refl
  step-closing sleeping r now m e = rw e refl
  step-closing over r now m e = rw e refl
  step-closing serving r now m e = rw e refl
  step-closing (returned x) r now m e = rw e refl
  step-closing _ r now m e = rw e refl

  rank-over : (p : Place) → rank p ≤ 0 → p ≡ over
  rank-over over h = refl
  rank-over (rearming reference_output) h = absurd (omega arith)
  rank-over (discovering desk_panel) h = absurd (omega arith)
  rank-over _ h = absurd (omega arith)

  pub closing-over :
      (answers : List (Reply × ℕ)) (m : Manager)
      → m.cancelled ≡ true
      → rank m.place ≤ length answers
      → (run c nums m (closing answers m)).0.place ≡ over
  unfolding run closing
  closing-over [] m h short = rank-over m.place short
  closing-over ((r, now) ∷ answers) m h short =
      let (h', falls) = closing-rank c m.place r now m refl h in
      let same = step-closing m.place r now m refl in
      closing-over answers (step c nums m (closing_event m.place r now)).0
        (ap (λ s. s.0.cancelled) same ∙ h') (rw same (omega arith))

  pub rank-le : (p : Place) → rank p ≤ 13
  rank-le (rearming reference_output) = omega arith
  rank-le (discovering desk_panel) = omega arith
  rank-le _ = omega arith
