-- ===== src/System/Obeys.antt =====
-- internal/bridge/bridge.go, internal/bridge/desk.go: a command message is carried out.
use mqtt_linak.Base.{
  member₂, ℕ, zero, suc, ◌≡◌, ◌≢◌, refl, ap, ◌∙◌, true, some, List, [], ◌∷◌, get_elem?, Text, ok,
  arith,
}
use mathlib.Core.Path.{subst}
use mqtt_linak.Config
use mqtt_linak.Config.{Config}
use mqtt_linak.Config.Valid.Spec.{IsValid}
use mqtt_linak.Topics.{Numbers, command_topic, parse_tenths_mm}
use mqtt_linak.Desk.{
  CommandKind, height, base_height, kind_string, Manager, serving, Effect, move, write_base_offset,
  submit, enqueue,
}
use mqtt_linak.Desk.Run.{by_command, serve, take_command}
use mqtt_linak.Desk.Machine.{woken, arrives, step}
use mqtt_linak.Desk.Machine.Shape.{is_served, run-new-Shape}
use mqtt_linak.System.{
  System, SystemEvent, desk_event, delivered, of_desk, update_at, pass_on, deliver, new_system,
  system_step, system_run,
}
use mqtt_linak.System.Desks.{HasHistory}
use mqtt_linak.System.Histories.{system_run-HasHistory, system_run-subs}
use mqtt_linak.Mqttc.{Client}
use mqtt_linak.Bridge.Commands.{Handler}
use mqtt_linak.System.Routing.{deliver-routes}

-- The write that carries out a command.
abbrev pub write_of : CommandKind → ℕ → Effect
write_of height n = move n
write_of base_height n = write_base_offset n

get_elem?-update_at :
    (f : Manager → Manager × List Effect) (ms : List Manager) (i j : ℕ)
    → j ≢ i
    → get_elem? (update_at f i ms).0 j ≡ get_elem? ms j
unfolding update_at
get_elem?-update_at f [] i j n = refl
get_elem?-update_at f (m ∷ ms) zero zero n = absurd (n refl)
get_elem?-update_at f (m ∷ ms) zero (suc j) n = refl
get_elem?-update_at f (m ∷ ms) (suc i) zero n = refl
get_elem?-update_at f (m ∷ ms) (suc i) (suc j) n = get_elem?-update_at f ms i j (λ e. n (ap suc e))

update_at-effects :
    (f : Manager → Manager × List Effect) (ms : List Manager) (i : ℕ) (m : Manager)
    → get_elem? ms i ≡ some m
    → (update_at f i ms).1 ≡ (f m).1
unfolding update_at
update_at-effects f [] i m at = absurd (cc)
update_at-effects f (x ∷ ms) zero m at = let e : x ≡ m = cc (at) in ap (λ y. (f y).1) e
update_at-effects f (x ∷ ms) (suc i) m at = update_at-effects f ms i m at

update_at-here :
    (f : Manager → Manager × List Effect) (ms : List Manager) (i : ℕ) (m : Manager)
    → get_elem? ms i ≡ some m
    → get_elem? (update_at f i ms).0 i ≡ some (f m).0
unfolding update_at
update_at-here f [] i m at = absurd (cc)
update_at-here f (x ∷ ms) zero m at = let e : x ≡ m = cc (at) in ap (λ y. some (f y).0) e
update_at-here f (x ∷ ms) (suc i) m at = update_at-here f ms i m at

module _ (c : Config) {F : Type 0} (nums : Numbers F) where
  submit-online :
      (m : Manager) (kind : CommandKind) (payload : Text) (n : ℕ)
      → m.online ≡ true
      → m.commands ≡ []
      → parse_tenths_mm nums payload ≡ ok n
      → submit nums m kind payload ≡ record m { commands = record { kind = kind; value = n } ∷ [] }
  unfolding submit enqueue
  submit-online m kind payload n o q h = rw (submit, h, o, q) refl

  by_command-writes :
      (m : Manager) (kind : CommandKind) (n now : ℕ)
      → m.place ≡ serving
      → (step c nums
          (record m { commands = record { kind = kind; value = n } ∷ [] })
          (woken by_command now)).1
        ≡ write_of kind n ∷ []
  unfolding step serve take_command
  by_command-writes m height n now p = rw (step, p) refl
  by_command-writes m base_height n now p = rw (step, p) refl

  -- A desk that waits for a command and has none queued carries out the next one that arrives.
  step-obeys :
      (m : Manager) (kind : CommandKind) (payload : Text) (n now : ℕ)
      → m.place ≡ serving
      → m.online ≡ true
      → m.commands ≡ []
      → parse_tenths_mm nums payload ≡ ok n
      → (step c nums (step c nums m (arrives kind payload)).0 (woken by_command now)).1
        ≡ write_of kind n ∷ []
  unfolding step
  step-obeys m kind payload n now p o q h =
      ap (λ x. (step c nums x (woken by_command now)).1) (submit-online m kind payload n o q h)
      ∙ by_command-writes m kind n now p

  pass_on-write_of :
      (q : Client Handler) (i : ℕ) (kind : CommandKind) (n : ℕ)
      → pass_on q i (write_of kind n ∷ []) ≡ of_desk i (write_of kind n) ∷ []
  unfolding pass_on
  pass_on-write_of q i height n = refl
  pass_on-write_of q i base_height n = refl

  -- Where commands are served, the desk is online.
  serving-online :
      (es : List SystemEvent) (i : ℕ) (m : Manager)
      → get_elem? (system_run c nums (new_system c) es).0.bridge.desks i ≡ some m
      → m.place ≡ serving
      → m.online ≡ true
  serving-online es i m here =
      let (d, place, (own, heard, there)) =
        member₂ (HasHistory c nums es) c.desks (system_run c nums (new_system c) es).0.bridge.desks
          i m (system_run-HasHistory c nums es) here in
      subst (λ (x : Manager). x.place ≡ serving → x.online ≡ true) there
        (λ p. (run-new-Shape c nums d own).served (ap is_served p))

  module _ (es : List SystemEvent) where
    abbrev then_is : System
    then_is = (system_run c nums (new_system c) es).0

    -- With a valid configuration, after any history of the program: if a desk waits for a command
    -- and has none queued, a message on its topic for a kind, whose payload means a number, makes it
    -- write this number to the desk, by its serve loop's next command, and nothing else; and the
    -- message changes no other desk.
    pub system_run-obeys :
        (i : ℕ) (d : Config.Desk) (m : Manager) (kind : CommandKind) (payload : Text) (n now : ℕ)
        → IsValid c
        → get_elem? c.desks i ≡ some d
        → get_elem? then_is.bridge.desks i ≡ some m
        → m.place ≡ serving
        → m.commands ≡ []
        → parse_tenths_mm nums payload ≡ ok n
        → let topic = command_topic c.mqtt.command_topic_base d.id (kind_string kind) in
          let s = (system_step c nums then_is (delivered topic payload)).0 in
          ((system_step c nums s (desk_event i (woken by_command now))).1
            ≡ of_desk i (write_of kind n) ∷ [])
          × ((j : ℕ) → j ≢ i → get_elem? s.bridge.desks j ≡ get_elem? then_is.bridge.desks j)
    unfolding system_step pass_on
    system_run-obeys i d m kind payload n now v at here p q h =
        let ms = then_is.bridge.desks in
        let f : Manager → Manager × List Effect = λ x. step c nums x (arrives kind payload) in
        let topic = command_topic c.mqtt.command_topic_base d.id (kind_string kind) in
        let online : m.online ≡ true = serving-online es i m here p in
        let reached : deliver c nums then_is.session.client.subs topic payload ms
            ≡ (update_at f i ms).0 =
          ap (λ ss. deliver c nums ss topic payload ms) (system_run-subs c nums es)
          ∙ deliver-routes c nums c.mqtt.command_topic_base payload kind 0 i c.desks d ms
              v.proper_desks v.distinct_ids at
          ∙ ap (λ k. (update_at f k ms).0) (omega arith) in
        (
          ap (pass_on then_is.session.client i) (
                update_at-effects (λ x. step c nums x (woken by_command now)) _ i (f m).0
                  (ap (λ x. get_elem? x i) reached ∙ update_at-here f ms i m here)
                ∙ step-obeys m kind payload n now p online q h)
              ∙ pass_on-write_of then_is.session.client i kind n,
          λ j k. ap (λ x. get_elem? x j) reached ∙ get_elem?-update_at f ms i j k,
        )
