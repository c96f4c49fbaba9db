-- ===== src/System/Closing.antt =====
-- internal/bridge/bridge.go, internal/bridge/desk.go: once the context has ended, the goroutines of
-- the desks return.
use mqtt_linak.Base.{
  ℕ, suc, ◌≤◌, ◌≡◌, refl, sym, ap, ◌∙◌, true, List, [], ◌∷◌, ◌++◌, map, All, length, length-append,
  append_assoc, append-nil, arith,
}
use mathlib.Core.Path.{subst}
use mqtt_linak.Config.{Config}
use mqtt_linak.Topics.{Numbers}
use mqtt_linak.Desk
use mqtt_linak.Desk.{Manager, Effect}
use mqtt_linak.Desk.Run.{Reply}
use mqtt_linak.Desk.Machine.{Event, step, run}
use mqtt_linak.Desk.Machine.Shutdown.{closing_event, closing, closing-over, rank-le}
use mqtt_linak.System.{
  System, SystemEvent, desk_event, is_own, all_over, update_at, system_step, system_run,
}
use mqtt_linak.System.Absorb.{absorb-desks}

abbrev pub IsCancelled : Manager → Type 0
IsCancelled m = m.cancelled ≡ true

-- Everything but the bridge is the same.
pub record SameRest (s s' : System) : Type 0 where
  pub session : s'.session ≡ s.session
  pub cancelled : s'.cancelled ≡ s.cancelled
  pub returned : s'.returned ≡ s.returned

SameRest-refl : (s : System) → SameRest s s
SameRest-refl s = record { session = refl; cancelled = refl; returned = refl }

SameRest-trans : (s t u : System) → SameRest s t → SameRest t u → SameRest s u
SameRest-trans s t u h k = record {
  session = k.session ∙ h.session;
  cancelled = k.cancelled ∙ h.cancelled;
  returned = k.returned ∙ h.returned;
}

closing_event-is_own :
    (p : Desk.Place) (r : Reply) (now : ℕ) → is_own (closing_event p r now) ≡ true
closing_event-is_own Desk.top r now = refl
closing_event-is_own _ r now = refl

module _ (c : Config) {F : Type 0} (nums : Numbers F) where
  pub system_run-append :
      (s : System) (xs ys : List SystemEvent)
      → (system_run c nums s (xs ++ ys)).0 ≡ (system_run c nums (system_run c nums s xs).0 ys).0
  unfolding system_run
  system_run-append s [] ys = refl
  system_run-append s (e ∷ es) ys = system_run-append (system_step c nums s e).0 es ys

  closing-own :
      (answers : List (Reply × ℕ)) (m : Manager)
      → All (λ e. is_own e ≡ true) (closing c nums answers m)
  unfolding closing
  closing-own [] m = tt
  closing-own ((r, now) ∷ answers) m = (closing_event-is_own m.place r now, closing-own answers _)

  update_at-there :
      (e : Event) (before : List Manager) (m : Manager) (after : List Manager)
      → (update_at (λ x. step c nums x e) (length before) (before ++ m ∷ after)).0
        ≡ before ++ (step c nums m e).0 ∷ after
  unfolding update_at
  update_at-there e [] m after = refl
  update_at-there e (x ∷ before) m after = ap (λ ms. x ∷ ms) (update_at-there e before m after)

  -- What the goroutine of one desk does is done to that desk, and to nothing but the bridge.
  record Alone (s : System) (before : List Manager) (m : Manager) (after : List Manager)
      (s' : System) : Type 0 where
    desks : s'.bridge.desks ≡ before ++ m ∷ after
    rest : SameRest s s'

  step-Alone :
      (s : System) (before : List Manager) (m : Manager) (after : List Manager) (e : Event)
      → is_own e ≡ true
      → s.bridge.desks ≡ before ++ m ∷ after
      → Alone s before
          (step c nums m e).0
          after
          (system_step c nums s (desk_event (length before) e)).0
  unfolding system_step
  step-Alone s before m after e own at = rw own (record {
    desks =
        absorb-desks (update_at (λ x. step c nums x e) (length before) s.bridge.desks).1 _
        ∙ (ap (λ ms. (update_at (λ x. step c nums x e) (length before) ms).0) at
            ∙ update_at-there e before m after);
    rest = record { session = refl; cancelled = refl; returned = refl };
  })

  run-Alone :
      (s : System) (before : List Manager) (m : Manager) (after : List Manager) (es : List Event)
      → All (λ e. is_own e ≡ true) es
      → s.bridge.desks ≡ before ++ m ∷ after
      → Alone s before
          (run c nums m es).0
          after
          (system_run c nums s (map (desk_event (length before)) es)).0
  unfolding system_run run
  run-Alone s before m after [] _ at = record { desks = at; rest = SameRest-refl s }
  run-Alone s before m after (e ∷ es) (own, owns) at =
      let s₁ = (system_step c nums s (desk_event (length before) e)).0 in
      let one = step-Alone s before m after e own at in
      let more = run-Alone s₁ before (step c nums m e).0 after es owns one.desks in
      record { desks = more.desks; rest = SameRest-trans s s₁ _ one.rest more.rest }

  -- The events of the desks' goroutines, one desk behind the other.
  unfoldable pub desks_closing : List (Reply × ℕ) → ℕ → List Manager → List SystemEvent
  desks_closing answers i [] = []
  desks_closing answers i (m ∷ ms) =
      map (desk_event i) (closing c nums answers m) ++ desks_closing answers (suc i) ms

  all_over-append :
      (xs ys : List Manager) → all_over xs ≡ true → all_over ys ≡ true → all_over (xs ++ ys) ≡ true
  unfolding all_over
  all_over-append [] ys h k = k
  all_over-append (x ∷ xs) ys h k = ground (arith, h, all_over-append xs ys (ground (arith, h)) k)

  pub desks_closing-over :
      (answers : List (Reply × ℕ)) (s : System) (i : ℕ) (before after : List Manager)
      → 13 ≤ length answers
      → i ≡ length before
      → s.bridge.desks ≡ before ++ after
      → all_over before ≡ true
      → All IsCancelled after
      → let s' = (system_run c nums s (desks_closing answers i after)).0 in
        (all_over s'.bridge.desks ≡ true) × SameRest s s'
  unfolding desks_closing all_over system_run
  desks_closing-over answers s i before [] enough here at done _ =
      (ap all_over (at ∙ append-nil before) ∙ done, SameRest-refl s)
  desks_closing-over answers s i before (m ∷ ms) enough here at done (ended, more) =
      let es = closing c nums answers m in
      let s₁ = (system_run c nums s (map (desk_event i) es)).0 in
      let m₁ = (run c nums m es).0 in
      let alone : Alone s before m₁ ms s₁ =
        subst (λ k. Alone s before m₁ ms (system_run c nums s (map (desk_event k) es)).0) (sym here)
          (run-Alone s before m ms es (closing-own answers m) at) in
      let over : m₁.place ≡ Desk.over =
        closing-over c nums answers m ended (omega (arith, rank-le c nums m.place)) in
      let (all, rest) =
        desks_closing-over answers s₁ (suc i) (before ++ m₁ ∷ []) ms enough
          (omega (arith, length-append before (m₁ ∷ [])))
          (alone.desks ∙ sym (append_assoc before (m₁ ∷ []) ms))
          (all_over-append before (m₁ ∷ []) done (rw over refl)) more in
      let same = system_run-append s (map (desk_event i) es) (desks_closing answers (suc i) ms) in
      (
        ap (λ t. all_over t.bridge.desks) same ∙ all,
        subst (SameRest s) (sym same) (SameRest-trans s s₁ _ alone.rest rest),
      )
