-- ===== src/Desk/Machine/Availability.antt =====
-- internal/bridge/desk.go: the retained availability topic follows the state of the manager.
use mqtt_linak.Base.{
  ℕ, ◌≡◌, refl, Bool, false, Option, none, some, List, [], ◌∷◌, ◌++◌, Text, ℤ, arith, ◌⊎◌, inl,
  if◌then◌else◌,
}
use mqtt_linak.Config
use mqtt_linak.Config.{Config}
use mqtt_linak.Topics.{Numbers}
use mqtt_linak.Desk.{
  Ending, stopped, Place, top, resolving, Manager, Effect, publish_retained, online_payload,
  offline_payload, republish_state, new_desk_manager, on_reference_output, enqueue, submit,
}
use mqtt_linak.Desk.Run.{
  Reply, Wake, by_context, by_command, serve, replied, finish_round, loop_top, next_round,
}
use mqtt_linak.Desk.Machine.{Event, offer_peripheral, receive_peripheral, quit_wait, step, run}
use mqtt_linak.Desk.Machine.Rule.{Rule, step-Rule}

-- The availability that a subscriber saw last.
abbrev pub announced : Option Text → List Effect → Option Text
announced r [] = r
announced r (publish_retained t p ∷ xs) = announced (some p) xs
announced r (_ ∷ xs) = announced r xs

announced-append :
    (r : Option Text) (xs ys : List Effect) → announced r (xs ++ ys) ≡ announced (announced r xs) ys
announced-append r [] ys = refl
announced-append r (publish_retained t p ∷ xs) ys = announced-append (some p) xs ys
announced-append r (x ∷ xs) ys = announced-append r xs ys

-- Nothing has been said of a desk that is offline, or what has been said last is so.
abbrev pub Tells : Option Text → Bool → Type 0
Tells r b = ((r ≡ none) × (b ≡ false)) ⊎ (r ≡ some (if b then online_payload else offline_payload))

abbrev Keeps : Option Text → Manager → Manager × List Effect → Type 0
Keeps r m s = Tells r m.online → Tells (announced r s.1) s.0.online

module _ (c : Config) (r : Option Text) where
  replied-Keeps : (p : Place) (x : Reply) (now : ℕ) (m : Manager) → Keeps r m (replied c p x now m)
  unfolding replied
  replied-Keeps top x now m h = h
  replied-Keeps _ x now m h = ground arith

  finish_round-Keeps :
      (e : Ending) (x : ℤ) (now : ℕ) (m : Manager) → Keeps r m (finish_round c e x now m)
  unfolding finish_round
  finish_round-Keeps stopped x now m h = ground arith
  finish_round-Keeps _ x now m h = ground arith

  serve-Keeps : (w : Wake) (now : ℕ) (m : Manager) → Keeps r m (serve c w now m)
  unfolding serve
  serve-Keeps by_command now m h = ground arith
  serve-Keeps by_context now m h = ground arith
  serve-Keeps _ now m h = ground arith

  quit_wait-Keeps : (p : Place) (m : Manager) → Keeps r m (quit_wait p m)
  unfolding quit_wait
  quit_wait-Keeps resolving m h = ground arith
  quit_wait-Keeps _ m h = ground arith

module _ (c : Config) {F : Type 0} (nums : Numbers F) where
  keeping : (r : Option Text) → Rule c nums (λ _. Keeps r)
  unfolding submit enqueue on_reference_output republish_state offer_peripheral loop_top
      receive_peripheral next_round
  keeping r = record {
    stays = λ e m h. h;
    cancels = λ m h. h;
    drops = λ m h. h;
    offers = λ pid m h. ground arith;
    moves = λ x v now m h. ground arith;
    submits = λ kind payload m h. ground arith;
    repeats = λ m h. ground arith;
    starts = λ m q h. ground arith;
    finishes = λ e x now m q. finish_round-Keeps c r e x now m;
    receives = λ m q h. ground arith;
    quits = λ p m q y. quit_wait-Keeps c r p m;
    replies = λ p x now m q. replied-Keeps c r p x now m;
    serves = λ w now m q. serve-Keeps c r w now m;
    sleeps = λ m q h. h;
  }

  run-Keeps : (r : Option Text) (m : Manager) (es : List Event) → Keeps r m (run c nums m es)
  unfolding run
  run-Keeps r m [] h = h
  run-Keeps r m (e ∷ es) h =
      let s = step c nums m e in
      rw (announced-append r s.1 (run c nums s.0 es).1)
        (run-Keeps (announced r s.1) s.0 es (step-Rule c nums (λ _. Keeps r) (keeping r) m e h))

  -- After any history of a new manager, in which a call of `republishState` is one step, the
  -- availability that was published last says whether the desk is online, or none has been
  -- published and it is offline.
  pub run-Tells :
      (d : Config.Desk) (es : List Event)
      → let s = run c nums (new_desk_manager c d) es in Tells (announced none s.1) s.0.online
  unfolding new_desk_manager
  run-Tells d es = run-Keeps none (new_desk_manager c d) es (inl (refl, refl))
