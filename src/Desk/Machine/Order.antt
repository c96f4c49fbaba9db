-- ===== src/Desk/Machine/Order.antt =====
-- internal/bridge/desk.go: the command queue, from `submit` to the writes.
use mqtt_linak.Base.{
  ℕ, ◌≡◌, refl, sym, ap, ◌∙◌, inl, inr, ◌&&◌, List, [], ◌∷◌, ◌++◌, Any, Text, Result-cases, err, ok,
  length, ltb, arith, append-nil, append_assoc, if◌then◌else◌,
}
use mqtt_linak.Config
use mqtt_linak.Config.{Config}
use mqtt_linak.Topics.{Numbers, parse_tenths_mm}
use mqtt_linak.Desk.{
  CommandKind, height, base_height, Command, Manager, Effect, move, write_base_offset,
  on_reference_output, republish_state, command_capacity, submit, enqueue, new_desk_manager,
}
use mqtt_linak.Desk.Run.{
  replied, finish_round, Wake, by_context, by_disconnect, by_flush, by_keep_alive, by_command,
  loop_top, apply, take_command, serve, next_round,
}
use mqtt_linak.Desk.Machine.{
  offer_peripheral, quit_wait, Event, arrives, receive_peripheral, step, run,
}
use mqtt_linak.Desk.Machine.Rule.{Rule, step-Rule}
use mqtt_linak.Desk.Machine.Writes.{
  Writes, Quiet, replied-Quiet, finish_round-Quiet, quit_wait-Quiet, position-Quiet,
  republish-Quiet, offer-Quiet,
}

-- The commands that are written to the desk, in their order.
unfoldable pub written : List Effect → List Command
written [] = []
written (move n ∷ es) = record { kind = height; value = n } ∷ written es
written (write_base_offset n ∷ es) = record { kind = base_height; value = n } ∷ written es
written (_ ∷ es) = written es

module _ {F : Type 0} (nums : Numbers F) where
  -- The command that an event brings into the queue, if it does: a payload that is a height arrives
  -- while the desk is online and the queue has room.
  unfoldable accepts : Manager → Event → List Command
  accepts m (arrives kind payload) = elim (parse_tenths_mm nums payload) [
    | err e ↦ []
    | ok n ↦
        if m.online && ltb (length m.commands) command_capacity
        then record { kind = kind; value = n } ∷ []
        else []
  ]
  accepts m e = []

written-append : (xs ys : List Effect) → written (xs ++ ys) ≡ written xs ++ written ys
unfolding written
written-append [] ys = refl
written-append (move n ∷ xs) ys =
    ap (λ x. record { kind = height; value = n } ∷ x) (written-append xs ys)
written-append (write_base_offset n ∷ xs) ys =
    ap (λ x. record { kind = base_height; value = n } ∷ x) (written-append xs ys)
written-append (_ ∷ xs) ys = written-append xs ys

written-quiet : (es : List Effect) → ((cmd : Command) → Any (Writes cmd) es → ⊥) → written es ≡ []
unfolding written
written-quiet [] h = refl
written-quiet (move n ∷ es) h = absurd (h (record { kind = height; value = n }) (inl (refl, refl)))
written-quiet (write_base_offset n ∷ es) h =
    absurd (h (record { kind = base_height; value = n }) (inl (refl, refl)))
written-quiet (_ ∷ es) h = written-quiet es (λ cmd w. h cmd (inr w))

module _ (c : Config) {F : Type 0} (nums : Numbers F) where
  -- What was queued and what comes in is what is written and what stays queued.
  abbrev Fifo : Event → Manager → Manager × List Effect → Type 0
  Fifo e m s = m.commands ++ accepts nums m e ≡ written s.1 ++ s.0.commands

  submit-Fifo :
      (kind : CommandKind) (payload : Text) (m : Manager)
      → Fifo (arrives kind payload) m (submit nums m kind payload, [])
  unfolding submit enqueue accepts written
  submit-Fifo kind payload m = elim (Result-cases (parse_tenths_mm nums payload)) [
    | inl (n, e) ↦ ground (arith, e, append-nil m.commands)
    | inr (x, e) ↦ ground (arith, e, append-nil m.commands)
  ]

  kind_cases : (P : CommandKind → Type 0) → P height → P base_height → (k : CommandKind) → P k
  kind_cases P h b height = h
  kind_cases P h b base_height = b

  apply-written :
      (now : ℕ) (m : Manager) (cmd : Command)
      → cmd ∷ m.commands ≡ written (apply c now m cmd).1 ++ (apply c now m cmd).0.commands
  unfolding apply written
  apply-written now m cmd =
      kind_cases
        (λ k.
          let x : Command = record { kind = k; value = cmd.value } in
          x ∷ m.commands ≡ written (apply c now m x).1 ++ (apply c now m x).0.commands)
        refl refl cmd.kind

  take_command-written :
      (now : ℕ) (m : Manager) (cmds : List Command)
      → m.commands ≡ cmds
      → cmds ≡ written (take_command c now m cmds).1 ++ (take_command c now m cmds).0.commands
  unfolding take_command written
  take_command-written now m [] e = sym e
  take_command-written now m (cmd ∷ cmds) e = apply-written now (record m { commands = cmds }) cmd

  -- A step that takes in nothing.
  abbrev Passes : Event → Manager → Manager × List Effect → Type 0
  Passes e m s = accepts nums m e ≡ [] → m.commands ≡ written s.1 ++ s.0.commands

  Quiet-Passes :
      (m : Manager) (s : Manager × List Effect)
      → Quiet m s
      → m.commands ≡ written s.1 ++ s.0.commands
  Quiet-Passes m s (quiet, same) = rw (written-quiet s.1 quiet) (sym same)

  serve-Passes :
      (w : Wake) (now : ℕ) (m : Manager)
      → m.commands ≡ written (serve c w now m).1 ++ (serve c w now m).0.commands
  unfolding serve written
  serve-Passes by_command now m = take_command-written now m m.commands refl
  serve-Passes by_context now m = ground arith
  serve-Passes by_disconnect now m = ground arith
  serve-Passes by_flush now m = ground arith
  serve-Passes by_keep_alive now m = ground arith

  passing : Rule c nums Passes
  unfolding loop_top receive_peripheral next_round written
  passing = record {
    stays = λ e m a. refl;
    cancels = λ m a. refl;
    drops = λ m a. refl;
    offers = λ pid m a. Quiet-Passes m (offer_peripheral pid m) (offer-Quiet c nums pid m);
    moves = λ x v now m a.
        Quiet-Passes m (on_reference_output c m x v now) (position-Quiet c nums x v now m);
    submits = λ kind payload m a.
        sym (append-nil m.commands)
        ∙ (ap (λ x. m.commands ++ x) (sym a) ∙ submit-Fifo kind payload m);
    repeats = λ m a. Quiet-Passes m (m, republish_state c m) (republish-Quiet c nums m);
    starts = λ m q a. ground arith;
    finishes =
        λ e r now m q a. Quiet-Passes m (finish_round c e r now m) (finish_round-Quiet c e r now m);
    receives = λ m q a. ground arith;
    quits = λ p m q y a. Quiet-Passes m (quit_wait p m) (quit_wait-Quiet c p m);
    replies = λ p r now m q a. Quiet-Passes m (replied c p r now m) (replied-Quiet c p r now m);
    serves = λ w now m q a. serve-Passes w now m;
    sleeps = λ m q a. refl;
  }

  step-Fifo : (m : Manager) (e : Event) → Fifo e m (step c nums m e)
  unfolding step accepts
  step-Fifo m (arrives kind payload) = submit-Fifo kind payload m
  step-Fifo m e = append-nil m.commands ∙ step-Rule c nums Passes passing m e refl

  -- The commands that come in over a history.
  unfoldable pub all_accepted : Manager → List Event → List Command
  unfolding accepts step
  all_accepted m [] = []
  all_accepted m (e ∷ es) = accepts nums m e ++ all_accepted (step c nums m e).0 es

  run-Fifo :
      (m : Manager) (es : List Event)
      → m.commands ++ all_accepted m es
        ≡ written (run c nums m es).1 ++ (run c nums m es).0.commands
  unfolding run all_accepted written
  run-Fifo m [] = append-nil m.commands
  run-Fifo m (e ∷ es) =
      let (m₁, out) = step c nums m e in
      let came = accepts nums m e in
      let later = all_accepted m₁ es in
      let r = run c nums m₁ es in
      sym (append_assoc m.commands came later)
      ∙ (ap (λ x. x ++ later) (step-Fifo m e)
          ∙ (append_assoc (written out) m₁.commands later
              ∙ (ap (λ x. written out ++ x) (run-Fifo m₁ es)
                  ∙ (sym (append_assoc (written out) (written r.1) r.0.commands)
                      ∙ ap (λ x. x ++ r.0.commands) (sym (written-append out r.1))))))

  -- Over any history of a new manager, what has been written to the desk, and what is still queued
  -- behind that, is what came in, in the order in which it came: every command that `submit` took
  -- because the desk was online, its payload a height and the queue not full, and nothing else; none
  -- is lost, repeated or overtaken.
  pub run-order :
      (d : Config.Desk) (es : List Event)
      → let r = run c nums (new_desk_manager c d) es in
        written r.1 ++ r.0.commands ≡ all_accepted (new_desk_manager c d) es
  unfolding new_desk_manager
  run-order d es = sym (run-Fifo (new_desk_manager c d) es)
