-- ===== src/Desk/Machine/Writes.antt =====
-- internal/bridge/desk.go: which heights are written to the desk, and when.
use mqtt_linak.Base.{
  ℕ, ◌≤◌, ◌≡◌, refl, true, ok, ◌⊎◌, List, [], ◌∷◌, Text, ℤ, arith, Result-cases, inl, inr, ap, Any,
  All, All-append,
}
use mqtt_linak.Config
use mqtt_linak.Config.{Config}
use mqtt_linak.Topics.{max_tenths_mm, Numbers, parse_tenths_mm}
use mqtt_linak.Topics.Payload.{parse_tenths_mm-le}
use mqtt_linak.Desk.{
  CommandKind, height, base_height, Command, Ending, stopped, Place, top, resolving, serving,
  Manager, Effect, move, write_base_offset, republish_state, new_desk_manager, on_reference_output,
  enqueue, submit,
}
use mqtt_linak.Desk.Run.{
  Reply, Wake, by_context, by_disconnect, by_flush, by_keep_alive, by_command, serve, replied,
  finish_round, loop_top, next_round, apply, take_command,
}
use mqtt_linak.Desk.Machine.{
  Event, arrives, offer_peripheral, receive_peripheral, quit_wait, step, run,
}
use mqtt_linak.Desk.Machine.Shape.{in_session, is_served, run-Shape, new_desk_manager-Shape}
use mqtt_linak.Desk.Machine.Rule.{Rule, step-Rule}

-- A write to the desk that carries out a command.
abbrev pub Writes : Command → Effect → Type 0
Writes cmd (move w) = (cmd.kind ≡ height) × (cmd.value ≡ w)
Writes cmd (write_base_offset w) = (cmd.kind ≡ base_height) × (cmd.value ≡ w)
Writes cmd _ = ⊥

abbrev pub AllQueued : (Command → Type 0) → Manager → Type 0
AllQueued P m = All P m.commands

-- Nothing is written, and no command is added.
abbrev pub Quiet : Manager → Manager × List Effect → Type 0
Quiet m s = ((cmd : Command) → Any (Writes cmd) s.1 → ⊥) × (s.0.commands ≡ m.commands)

-- The command is at the head of the queue.
abbrev pub Heads : Command → List Command → Type 0
Heads cmd cmds = (rest : List Command) × (cmds ≡ cmd ∷ rest)

-- What is written to the desk is the command at the head of the queue.
abbrev WritesHead : Command → Manager → Manager × List Effect → Type 0
WritesHead x m s = Any (Writes x) s.1 → (m.place ≡ serving) × Heads x m.commands

CommandKind-cases : (k : CommandKind) → (k ≡ height) ⊎ (k ≡ base_height)
CommandKind-cases height = inl refl
CommandKind-cases base_height = inr refl

still : (P : Command → Type 0) {xs ys : List Command} → ys ≡ xs → All P xs → All P ys
still P e f = rw e f

module _ (c : Config) where
  pub replied-Quiet :
      (p : Place) (r : Reply) (now : ℕ) (m : Manager) → Quiet m (replied c p r now m)
  unfolding replied
  replied-Quiet top r now m = (λ cmd h. ground arith, ground arith)
  replied-Quiet _ r now m = (λ cmd h. ground arith, ground arith)

  pub finish_round-Quiet :
      (e : Ending) (r : ℤ) (now : ℕ) (m : Manager) → Quiet m (finish_round c e r now m)
  unfolding finish_round
  finish_round-Quiet stopped r now m = (λ cmd h. ground arith, ground arith)
  finish_round-Quiet _ r now m = (λ cmd h. ground arith, ground arith)

  take_command-Writes :
      (now : ℕ) (x : Command) (m : Manager) (cmds : List Command)
      → Any (Writes x) (take_command c now m cmds).1
      → Heads x cmds
  unfolding take_command
  take_command-Writes now x m [] h = absurd h
  take_command-Writes now x m (cmd ∷ rest) h = (rest, ground arith)

  -- What the serve loop writes is the command at the head of the queue.
  serve-Writes :
      (w : Wake) (now : ℕ) (x : Command) (m : Manager)
      → Any (Writes x) (serve c w now m).1
      → Heads x m.commands
  unfolding serve
  serve-Writes by_context now x m h = absurd (ground arith)
  serve-Writes by_disconnect now x m h = absurd (ground arith)
  serve-Writes by_flush now x m h = absurd (ground arith)
  serve-Writes by_keep_alive now x m h = absurd (ground arith)
  serve-Writes by_command now x m h = take_command-Writes now x m m.commands h

  tail :
      (P : Command → Type 0) (now : ℕ) (m : Manager) (cmds : List Command)
      → m.commands ≡ cmds
      → All P cmds
      → AllQueued P (take_command c now m cmds).0
  unfolding take_command
  tail P now m [] e f = rw e tt
  tail P now m (cmd ∷ rest) e f = elim (CommandKind-cases cmd.kind) [
    | inl k ↦ rw (apply, k) f.1
    | inr k ↦ rw (apply, k) f.1
  ]

  serve-AllQueued :
      (P : Command → Type 0) (w : Wake) (now : ℕ) (m : Manager)
      → AllQueued P m
      → AllQueued P (serve c w now m).0
  unfolding serve
  serve-AllQueued P by_command now m f = tail P now m m.commands refl f
  serve-AllQueued P by_context now m f = ground arith
  serve-AllQueued P _ now m f = ground arith

  pub quit_wait-Quiet : (p : Place) (m : Manager) → Quiet m (quit_wait p m)
  unfolding quit_wait
  quit_wait-Quiet resolving m = (λ cmd h. ground arith, refl)
  quit_wait-Quiet _ m = (λ cmd h. ground arith, ground arith)

module _ (c : Config) {F : Type 0} (nums : Numbers F) where
  pub position-Quiet :
      (extension speed : ℤ) (now : ℕ) (m : Manager)
      → Quiet m (on_reference_output c m extension speed now)
  unfolding on_reference_output
  position-Quiet extension speed now m = (λ cmd h. ground arith, ground arith)

  pub republish-Quiet : (m : Manager) → Quiet m (m, republish_state c m)
  unfolding republish_state
  republish-Quiet m = (λ cmd h. ground arith, refl)

  pub offer-Quiet : (pid : Text) (m : Manager) → Quiet m (offer_peripheral pid m)
  unfolding offer_peripheral
  offer-Quiet pid m = (λ cmd h. ground arith, ground arith)

  -- A command is queued only as the meaning of a payload.
  submit-AllQueued :
      (P : Command → Type 0) (kind : CommandKind) (payload : Text) (m : Manager)
      → ((n : ℕ) → parse_tenths_mm nums payload ≡ ok n → P (record { kind = kind; value = n }))
      → AllQueued P m
      → AllQueued P (submit nums m kind payload)
  unfolding submit enqueue
  submit-AllQueued P kind payload m means f = elim (Result-cases (parse_tenths_mm nums payload)) [
    | inl (n, e) ↦
        let cmd : Command = record { kind = kind; value = n } in
        ground (arith, All-append P m.commands (cmd ∷ []) f (means n e, tt))
    | inr (x, e) ↦ ground arith
  ]

  -- What the event says, if it is a command, has the property.
  abbrev Means : (Command → Type 0) → Event → Type 0
  Means P e =
      (kind : CommandKind) (payload : Text) (n : ℕ)
      → e ≡ arrives kind payload
      → parse_tenths_mm nums payload ≡ ok n
      → P (record { kind = kind; value = n })

  abbrev KeepsQueued : (Command → Type 0) → Event → Manager → Manager × List Effect → Type 0
  KeepsQueued P e m s = Means P e → AllQueued P m → AllQueued P s.0

  queueing : (P : Command → Type 0) → Rule c nums (KeepsQueued P)
  unfolding loop_top receive_peripheral next_round
  queueing P = record {
    stays = λ e m means f. f;
    cancels = λ m means f. f;
    drops = λ m means f. f;
    offers = λ pid m means f. still P (offer-Quiet pid m).1 f;
    moves = λ x v now m means f. still P (position-Quiet x v now m).1 f;
    submits = λ kind payload m means f.
        submit-AllQueued P kind payload m (λ n e. means kind payload n refl e) f;
    repeats = λ m means f. f;
    starts = λ m q means f. ground arith;
    finishes = λ e r now m q means f. still P (finish_round-Quiet c e r now m).1 f;
    receives = λ m q means f. ground arith;
    quits = λ p m q y means f. still P (quit_wait-Quiet c p m).1 f;
    replies = λ p r now m q means f. still P (replied-Quiet c p r now m).1 f;
    serves = λ w now m q means f. serve-AllQueued c P w now m f;
    sleeps = λ m q means f. f;
  }

  -- Events put no command into the queue but the meaning of a payload that has arrived.
  pub step-AllQueued :
      (P : Command → Type 0) (m : Manager) (e : Event)
      → Means P e
      → AllQueued P m
      → AllQueued P (step c nums m e).0
  step-AllQueued P m e means f = step-Rule c nums (KeepsQueued P) (queueing P) m e means f

  writing : (x : Command) → Rule c nums (λ _. WritesHead x)
  unfolding loop_top receive_peripheral quit_wait next_round republish_state
  writing x = record {
    stays = λ e m h. absurd h;
    cancels = λ m h. absurd h;
    drops = λ m h. absurd h;
    offers = λ pid m h. absurd ((offer-Quiet pid m).0 x h);
    moves = λ v w now m h. absurd ((position-Quiet v w now m).0 x h);
    submits = λ kind payload m h. absurd h;
    repeats = λ m h. absurd ((republish-Quiet m).0 x h);
    starts = λ m q h. absurd (ground arith);
    finishes = λ e r now m q h. absurd ((finish_round-Quiet c e r now m).0 x h);
    receives = λ m q h. absurd (ground arith);
    quits = λ p m q y h. absurd ((quit_wait-Quiet c p m).0 x h);
    replies = λ p r now m q h. absurd ((replied-Quiet c p r now m).0 x h);
    serves = λ w now m q h. (q, serve-Writes c w now x m h);
    sleeps = λ m q h. absurd h;
  }

  pub Heads-All :
      (P : Command → Type 0) (x : Command) (cmds : List Command) → Heads x cmds → All P cmds → P x
  Heads-All P x cmds (rest, e) f = (rw e at f).0

  abbrev IsSmall : Command → Type 0
  IsSmall cmd = cmd.value ≤ max_tenths_mm

  run-IsSmall :
      (m : Manager) (es : List Event) → AllQueued IsSmall m → AllQueued IsSmall (run c nums m es).0
  unfolding run
  run-IsSmall m [] f = f
  run-IsSmall m (e ∷ es) f =
      run-IsSmall (step c nums m e).0 es
        (step-AllQueued IsSmall m e (λ kind payload n _ p. parse_tenths_mm-le nums payload n p) f)

  new_desk_manager-AllQueued :
      (P : Command → Type 0) (d : Config.Desk) → AllQueued P (new_desk_manager c d)
  unfolding new_desk_manager
  new_desk_manager-AllQueued P d = tt

  -- After any history of a new manager, a step that writes to the desk what a command says is one of
  -- its serve loop: the command is at the head of the queue, the desk is online and its position
  -- stream exists, and the height is at most 65535.
  pub run-Writes :
      (d : Config.Desk) (es : List Event) (e : Event) (cmd : Command)
      → Any (Writes cmd) (step c nums (run c nums (new_desk_manager c d) es).0 e).1
      → let m = (run c nums (new_desk_manager c d) es).0 in
        (m.place ≡ serving)
        × Heads cmd m.commands
        × (m.online ≡ true)
        × (m.subs_set ≡ true)
        × (cmd.value ≤ max_tenths_mm)
  run-Writes d es e cmd h =
      let m₀ = new_desk_manager c d in
      let m = (run c nums m₀ es).0 in
      let shape = run-Shape c nums m₀ es (new_desk_manager-Shape c d) in
      let (p, heads) = step-Rule c nums (λ _. WritesHead cmd) (writing cmd) m e h in
      (
        p,
        heads,
        shape.served (ap is_served p),
        shape.session (ap in_session p),
        Heads-All IsSmall cmd m.commands heads
            (run-IsSmall m₀ es (new_desk_manager-AllQueued IsSmall d)),
      )
