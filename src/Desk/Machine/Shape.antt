-- ===== src/Desk/Machine/Shape.antt =====
-- internal/bridge/desk.go: what holds of a manager between any two steps.
use mqtt_linak.Base.{
  ℕ, ◌≤◌, ◌<◌, ◌≡◌, Bool, true, false, List, [], ◌∷◌, Text, ℤ, arith, length, length-append,
  Result-cases, inl, inr,
}
use mqtt_linak.Config
use mqtt_linak.Config.{Config}
use mqtt_linak.Topics.{Numbers, parse_tenths_mm}
use mqtt_linak.Desk.{
  CommandKind, Command, Ending, stopped, dropped, failed, Place, top, resolving, creating, waking,
  stopping, owning, serving, rearming, moving, writing_base, reading_base, keeping_alive, sleeping,
  disconnecting, returned, Manager, Effect, new_desk_manager, command_capacity, on_reference_output,
  enqueue, submit,
}
use mqtt_linak.Desk.Run.{
  Reply, Wake, by_context, by_disconnect, by_flush, by_keep_alive, by_command, serve, replied,
  finish_round, loop_top, next_round,
}
use mqtt_linak.Desk.Machine.{Event, offer_peripheral, receive_peripheral, quit_wait, step, run}
use mqtt_linak.Desk.Machine.Rule.{Rule, step-Rule, run-Kept}

-- The places at which the position stream exists, up to the end of the session.
abbrev pub in_session : Place → Bool
in_session (rearming w) = true
in_session waking = true
in_session stopping = true
in_session owning = true
in_session serving = true
in_session moving = true
in_session writing_base = true
in_session reading_base = true
in_session keeping_alive = true
in_session _ = false

-- The places at which the desk may be online.
abbrev pub may_be_online : Place → Bool
may_be_online serving = true
may_be_online moving = true
may_be_online writing_base = true
may_be_online reading_base = true
may_be_online keeping_alive = true
may_be_online (disconnecting e) = true
may_be_online (returned e) = true
may_be_online _ = false

-- The places at which it is.
abbrev pub is_served : Place → Bool
is_served serving = true
is_served moving = true
is_served writing_base = true
is_served reading_base = true
is_served keeping_alive = true
is_served _ = false

pub record Shape (m : Manager) : Type 0 where
  pub queue : length m.commands ≤ command_capacity
  pub failures : m.consec_failure < 3
  pub offline : m.online ≡ true → may_be_online m.place ≡ true
  pub served : is_served m.place ≡ true → m.online ≡ true
  pub fresh : m.place ≡ creating → m.subs_set ≡ false
  pub session : in_session m.place ≡ true → m.subs_set ≡ true
  pub created : m.subs_set ≡ true → m.has_desk ≡ true

-- A new manager has this shape.
pub new_desk_manager-Shape : (c : Config) (d : Config.Desk) → Shape (new_desk_manager c d)
unfolding new_desk_manager
new_desk_manager-Shape c d = ground arith

module _ (c : Config) where
  replied-Shape :
      (p : Place) (r : Reply) (now : ℕ) (m : Manager)
      → m.place ≡ p
      → Shape m
      → Shape (replied c p r now m).0
  unfolding replied
  replied-Shape top r now m e h = ground arith
  replied-Shape resolving r now m e h = ground arith
  replied-Shape _ r now m e h = ground arith

  serve-Shape :
      (w : Wake) (now : ℕ) (m : Manager) → m.place ≡ serving → Shape m → Shape (serve c w now m).0
  unfolding serve
  serve-Shape by_context now m e h = ground arith
  serve-Shape by_disconnect now m e h = ground arith
  serve-Shape by_flush now m e h = ground arith
  serve-Shape by_keep_alive now m e h = ground arith
  serve-Shape by_command now m e h = ground arith

  finish_round-Shape :
      (e : Ending) (r : ℤ) (now : ℕ) (m : Manager) → Shape m → Shape (finish_round c e r now m).0
  unfolding finish_round
  finish_round-Shape stopped r now m h = ground arith
  finish_round-Shape dropped r now m h = ground arith
  finish_round-Shape failed r now m h = ground arith

  quit_wait-Shape : (p : Place) (m : Manager) → m.place ≡ p → Shape m → Shape (quit_wait p m).0
  unfolding quit_wait
  quit_wait-Shape resolving m q h = ground arith
  quit_wait-Shape sleeping m q h = ground arith
  quit_wait-Shape _ m q h = ground arith

abbrev KeepsShape : Manager → Manager × List Effect → Type 0
KeepsShape m s = Shape m → Shape s.0

module _ (c : Config) {F : Type 0} (nums : Numbers F) where
  position-Shape :
      (extension speed : ℤ) (now : ℕ) (m : Manager)
      → Shape m
      → Shape (on_reference_output c m extension speed now).0
  unfolding on_reference_output
  position-Shape extension speed now m h = ground arith

  enqueue-Shape : (cmd : Command) (m : Manager) → Shape m → Shape (enqueue m cmd)
  unfolding enqueue
  enqueue-Shape cmd m h = ground (arith, length-append m.commands (cmd ∷ []))

  submit-Shape :
      (kind : CommandKind) (payload : Text) (m : Manager)
      → Shape m
      → Shape (submit nums m kind payload)
  unfolding submit
  submit-Shape kind payload m h = elim (Result-cases (parse_tenths_mm nums payload)) [
    | inl (v, e) ↦ ground (arith, enqueue-Shape (record { kind = kind; value = v }) m h)
    | inr (x, e) ↦ ground arith
  ]

  shaping : Rule c nums (λ _. KeepsShape)
  unfolding offer_peripheral loop_top receive_peripheral next_round
  shaping = record {
    stays = λ e m h. h;
    cancels = λ m h. ground arith;
    drops = λ m h. ground arith;
    offers = λ pid m h. ground arith;
    moves = λ x v now m h. position-Shape x v now m h;
    submits = λ kind payload m h. submit-Shape kind payload m h;
    repeats = λ m h. h;
    starts = λ m q h. ground arith;
    finishes = λ e r now m q h. finish_round-Shape c e r now m h;
    receives = λ m q h. ground arith;
    quits = λ p m q y h. quit_wait-Shape c p m q h;
    replies = λ p r now m q h. replied-Shape c p r now m q h;
    serves = λ w now m q h. serve-Shape c w now m q h;
    sleeps = λ m q h. ground arith;
  }

  -- Every event, at every place, keeps the shape.
  pub step-Shape : (m : Manager) (e : Event) → Shape m → Shape (step c nums m e).0
  step-Shape = step-Rule c nums (λ _. KeepsShape) shaping

  pub run-Shape : (m : Manager) (es : List Event) → Shape m → Shape (run c nums m es).0
  run-Shape = run-Kept c nums Shape step-Shape

  -- After any history of a new manager at most eight commands are queued, fewer than three failures
  -- are counted, the desk is online wherever commands are served, and at no other place but those
  -- behind a session's end, the disconnect and what follows it until the round has ended, and a
  -- session has the desk's one position stream.
  pub run-new-Shape :
      (d : Config.Desk) (es : List Event) → Shape (run c nums (new_desk_manager c d) es).0
  run-new-Shape d es = run-Shape (new_desk_manager c d) es (new_desk_manager-Shape c d)
