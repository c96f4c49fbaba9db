-- ===== src/Desk/Machine/Recovery.antt =====
-- internal/bridge/desk.go: from wherever a manager has got to, its desk can be served again.
use mqtt_linak.Base.{
  ℕ, zero, suc, ◌-◌, ◌≤◌, ◌≡◌, refl, ap, ◌∙◌, Bool, true, false, ◌||◌, Option, none, some, List, [],
  ◌∷◌, ◌++◌, Text, codes, ℤ, pos, arith,
}
use mqtt_linak.Config
use mqtt_linak.Config.{Config}
use mqtt_linak.Topics.{Numbers}
use mqtt_linak.Desk.{
  Ending, stopped, Place, top, resolving, connecting, creating, waking, stopping, owning, serving,
  discovering, rearming, reference_output, reference_input, desk_panel, moving, writing_base,
  reading_base, keeping_alive, sleeping, over, disconnecting, returned, Manager, Effect,
  new_desk_manager, submit, enqueue, on_reference_output,
}
use mqtt_linak.Desk.Run.{
  Reply, done, Wake, by_context, by_command, serve, replied, finish_round, loop_top, next_round,
}
use mqtt_linak.Desk.Machine.{
  Event, go_on, end_round, receive, reply, timer, found, offer_peripheral, receive_peripheral,
  quit_wait, run_step, step, run,
}
use mqtt_linak.Desk.Machine.History.{run-append}
use mqtt_linak.Desk.Machine.Shape.{is_served, run-new-Shape}
use mqtt_linak.Desk.Machine.Rule.{Rule, step-Rule, run-Kept}

abbrev has_some : Option Text → Bool
has_some none = false
has_some (some pid) = true

-- A manager that looks for its desk can be told of it, and only one whose context has ended is over.
record Awake (m : Manager) : Type 0 where
  looking : m.place ≡ resolving → (m.want_resolve || has_some m.resolved) ≡ true
  ended : m.place ≡ over → m.cancelled ≡ true

module _ (c : Config) where
  replied-Awake :
      (p : Place) (r : Reply) (now : ℕ) (m : Manager)
      → m.place ≡ p
      → Awake m
      → Awake (replied c p r now m).0
  unfolding replied
  replied-Awake top r now m e h = h
  replied-Awake _ r now m e h = ground arith

  finish_round-Awake :
      (e : Ending) (r : ℤ) (now : ℕ) (m : Manager) → Awake m → Awake (finish_round c e r now m).0
  unfolding finish_round
  finish_round-Awake stopped r now m h = ground arith
  finish_round-Awake _ r now m h = ground arith

  serve-Awake :
      (w : Wake) (now : ℕ) (m : Manager) → m.place ≡ serving → Awake m → Awake (serve c w now m).0
  unfolding serve
  serve-Awake by_context now m e h = ground arith
  serve-Awake by_command now m e h = ground arith
  serve-Awake _ now m e h = ground arith

  quit_wait-Awake :
      (p : Place) (m : Manager) → m.cancelled ≡ true → Awake m → Awake (quit_wait p m).0
  unfolding quit_wait
  quit_wait-Awake resolving m y h = ground arith
  quit_wait-Awake sleeping m y h = ground arith
  quit_wait-Awake _ m y h = ground arith

abbrev KeepsAwake : Manager → Manager × List Effect → Type 0
KeepsAwake m s = Awake m → Awake s.0

-- What helps a manager on when all goes well: its desk is found, and each call succeeds.
abbrev pub helping : Place → List Event
helping top = go_on ∷ []
helping resolving = found (codes "1E2D") ∷ receive ∷ []
helping sleeping = timer ∷ []
helping (returned e) = end_round (pos 0) 0 ∷ []
helping serving = []
helping over = []
helping p = reply done 0 ∷ []

-- An upper bound of the rounds of help that are left.
abbrev pub distance : Place → ℕ
distance serving = 0
distance over = 0
distance moving = 1
distance keeping_alive = 1
distance reading_base = 1
distance writing_base = 2
distance owning = 2
distance stopping = 3
distance waking = 4
distance creating = 5
distance (rearming reference_output) = 6
distance (rearming w) = 5
distance (discovering desk_panel) = 7
distance (discovering reference_input) = 8
distance (discovering reference_output) = 9
distance connecting = 10
distance resolving = 11
distance top = 12
distance sleeping = 13
distance (returned e) = 14
distance (disconnecting e) = 15

module _ (c : Config) {F : Type 0} (nums : Numbers F) where
  waking_up : Rule c nums (λ _. KeepsAwake)
  unfolding submit enqueue on_reference_output offer_peripheral loop_top receive_peripheral
      next_round
  waking_up = record {
    stays = λ e m h. h;
    cancels = λ m h. ground arith;
    drops = λ m h. ground arith;
    offers = λ pid m h. ground arith;
    moves = λ x v now m h. ground arith;
    submits = λ kind payload m h. ground arith;
    repeats = λ m h. h;
    starts = λ m q h. ground arith;
    finishes = λ e r now m q h. finish_round-Awake c e r now m h;
    receives = λ m q h. ground arith;
    quits = λ p m q y h. quit_wait-Awake c p m y h;
    replies = λ p r now m q h. replied-Awake c p r now m q h;
    serves = λ w now m q h. serve-Awake c w now m q h;
    sleeps = λ m q h. ground arith;
  }

  run-Awake : (m : Manager) (es : List Event) → Awake m → Awake (run c nums m es).0
  run-Awake = run-Kept c nums Awake (step-Rule c nums (λ _. KeepsAwake) waking_up)

  new_desk_manager-Awake : (d : Config.Desk) → Awake (new_desk_manager c d)
  unfolding new_desk_manager
  new_desk_manager-Awake d = ground arith

  helping-closer :
      (p : Place) (m : Manager)
      → m.place ≡ p
      → m.cancelled ≡ false
      → Awake m
      → let m' = (run c nums m (helping p)).0 in
        (m'.cancelled ≡ false) × (distance m'.place ≤ distance p - 1)
  unfolding run step run_step replied offer_peripheral finish_round
  helping-closer top m e n h = ground arith
  helping-closer resolving m e n h = ground arith
  helping-closer sleeping m e n h = ground arith
  helping-closer (returned stopped) m e n h = ground arith
  helping-closer (returned x) m e n h = ground arith
  helping-closer serving m e n h = ground arith
  helping-closer over m e n h = ground arith
  helping-closer _ m e n h = ground arith

  -- Rounds of help.
  unfoldable pub help : ℕ → Manager → List Event
  help zero m = []
  help (suc k) m = helping m.place ++ help k (run c nums m (helping m.place)).0

  distance-serving :
      (m : Manager) → m.cancelled ≡ false → Awake m → distance m.place ≤ 0 → m.place ≡ serving
  distance-serving m n h d = go m.place refl d
    where
      go : (p : Place) → m.place ≡ p → distance p ≤ 0 → p ≡ serving
      go serving e d = refl
      go over e d = absurd (ground arith)
      go (rearming reference_output) e d = absurd (omega arith)
      go (discovering desk_panel) e d = absurd (omega arith)
      go _ e d = absurd (omega arith)

  help-serving :
      (k : ℕ) (m : Manager)
      → m.cancelled ≡ false
      → Awake m
      → distance m.place ≤ k
      → (run c nums m (help k m)).0.place ≡ serving
  unfolding help run
  help-serving zero m n h d = distance-serving m n h d
  help-serving (suc k) m n h d =
      let m' = (run c nums m (helping m.place)).0 in
      let (n', closer) = helping-closer m.place m refl n h in
      ap (λ (x : Manager). x.place) (run-append c nums m (helping m.place) (help k m'))
      ∙ help-serving k m' n' (run-Awake m (helping m.place) h) (omega arith)

  distance-le : (p : Place) → distance p ≤ 15
  distance-le (rearming reference_output) = omega arith
  distance-le (discovering desk_panel) = omega arith
  distance-le _ = omega arith

  -- From wherever a new manager has got to, if its context has not ended, fifteen rounds of events
  -- in which its desk is found and calls succeed bring it to the serve loop with the desk online:
  -- no history leaves it stuck.
  pub run-help :
      (d : Config.Desk) (es : List Event)
      → (run c nums (new_desk_manager c d) es).0.cancelled ≡ false
      → let m = (run c nums (new_desk_manager c d) es).0 in
        let m' = (run c nums (new_desk_manager c d) (es ++ help 15 m)).0 in
        (m'.place ≡ serving) × (m'.online ≡ true)
  run-help d es n =
      let m₀ = new_desk_manager c d in
      let m = (run c nums m₀ es).0 in
      let there : (run c nums m₀ (es ++ help 15 m)).0.place ≡ serving =
        ap (λ (x : Manager). x.place) (run-append c nums m₀ es (help 15 m))
        ∙ help-serving 15 m n (run-Awake m₀ es (new_desk_manager-Awake d)) (distance-le m.place) in
      (there, (run-new-Shape c nums d (es ++ help 15 m)).served (ap is_served there))
