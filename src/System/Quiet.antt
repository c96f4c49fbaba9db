-- ===== src/System/Quiet.antt =====
-- internal/bridge/bridge.go: what does not come from a desk writes nothing to one.
use mqtt_linak.Base.{
  ℕ, zero, suc, ◌≡◌, refl, inl, inr, some, List, [], ◌∷◌, ◌++◌, Any, get_elem?, Text, ok, arith,
}
use mqtt_linak.Config.{Config}
use mqtt_linak.Topics.{Numbers, command_topic, parse_tenths_mm}
use mqtt_linak.Desk.{
  kind_string, Command, Manager, Effect, publish, publish_retained, republish_state,
}
use mqtt_linak.Desk.Machine.Writes.{Writes}
use mqtt_linak.Mqttc
use mqtt_linak.Mqttc.{Client}
use mqtt_linak.Bridge.{ScanCall}
use mqtt_linak.Bridge.Commands.{Handler}
use mqtt_linak.System.{
  Output, of_scanner, of_scans, goodbye, of_desk, of_client, of_clients, update_at, pass_on,
  republish_desks, republish_all,
}

-- The desk at a place is asked to carry out a command.
abbrev pub Carries : ℕ → Command → Output → Type 0
Carries i cmd (of_desk j e) = (j ≡ i) × Writes cmd e
Carries i cmd (of_client e) = ⊥
Carries i cmd (of_scanner e) = ⊥

pub of_scans-quiet :
    (i : ℕ) (cmd : Command) (es : List ScanCall) → Any (Carries i cmd) (of_scans es) → ⊥
of_scans-quiet i cmd [] h = h
of_scans-quiet i cmd (e ∷ es) (inl h) = h
of_scans-quiet i cmd (e ∷ es) (inr h) = of_scans-quiet i cmd es h

-- A message says the command, on a desk's topic for its kind.
abbrev pub Says : {F : Type 0} → Numbers F → Text → Text → Command → Text × Text → Type 0
Says nums base id cmd r =
    (r.0 ≡ command_topic base id (kind_string cmd.kind)) × (parse_tenths_mm nums r.1 ≡ ok cmd.value)

pub of_clients-Carries :
    (i : ℕ) (cmd : Command) (es : List (Mqttc.Effect Handler)) (os : List Output)
    → Any (Carries i cmd) (of_clients es ++ os)
    → Any (Carries i cmd) os
of_clients-Carries i cmd [] os h = h
of_clients-Carries i cmd (e ∷ es) os (inl h) = absurd h
of_clients-Carries i cmd (e ∷ es) os (inr h) = of_clients-Carries i cmd es os h

pub pass_on-Carries :
    (q : Client Handler) (i j : ℕ) (cmd : Command) (es : List Effect)
    → Any (Carries i cmd) (pass_on q j es)
    → (j ≡ i) × Any (Writes cmd) es
unfolding pass_on
pass_on-Carries q i j cmd [] h = absurd h
pass_on-Carries q i j cmd (publish topic payload ∷ es) h =
    let (same, rest) =
      pass_on-Carries q i j cmd es
        (of_clients-Carries i cmd (Mqttc.publish_metric q topic payload) (pass_on q j es) h) in
    (same, inr rest)
pass_on-Carries q i j cmd (publish_retained topic payload ∷ es) h =
    let (same, rest) =
      pass_on-Carries q i j cmd es
        (of_clients-Carries i cmd (Mqttc.publish_retained q topic payload) (pass_on q j es) h) in
    (same, inr rest)
pass_on-Carries q i j cmd (e ∷ es) (inl h) = (h.0, inl h.1)
pass_on-Carries q i j cmd (e ∷ es) (inr h) =
    let (same, rest) = pass_on-Carries q i j cmd es h in (same, inr rest)

pub update_at-Any :
    (P : Effect → Type 0) (f : Manager → Manager × List Effect) (i : ℕ) (ms : List Manager)
    → Any P (update_at f i ms).1
    → (m : Manager) × (get_elem? ms i ≡ some m) × Any P (f m).1
unfolding update_at
update_at-Any P f i [] h = absurd h
update_at-Any P f zero (m ∷ ms) h = (m, refl, h)
update_at-Any P f (suc i) (m ∷ ms) h = update_at-Any P f i ms h

-- Republishing writes nothing to a desk.
pub Any-split :
    {A : Type 0} (P : A → Type 0) (xs ys : List A)
    → (Any P xs → ⊥)
    → (Any P ys → ⊥)
    → Any P (xs ++ ys)
    → ⊥
Any-split P [] ys n k h = k h
Any-split P (x ∷ xs) ys n k (inl h) = n (inl h)
Any-split P (x ∷ xs) ys n k (inr h) = Any-split P xs ys (λ r. n (inr r)) k h

republish_state-quiet :
    (c : Config) (cmd : Command) (m : Manager) → Any (Writes cmd) (republish_state c m) → ⊥
unfolding republish_state
republish_state-quiet c cmd m h = ground arith

republish_desks-quiet :
    (c : Config) (cmd : Command) (ms : List Manager) → Any (Writes cmd) (republish_desks c ms) → ⊥
unfolding republish_desks
republish_desks-quiet c cmd [] h = h
republish_desks-quiet c cmd (m ∷ ms) h =
    Any-split (Writes cmd) (republish_state c m) (republish_desks c ms)
      (republish_state-quiet c cmd m) (republish_desks-quiet c cmd ms) h

pub republish_all-quiet :
    (c : Config) (cmd : Command) (ms : List Manager) → Any (Writes cmd) (republish_all c ms) → ⊥
unfolding republish_all
republish_all-quiet c cmd ms (inl h) = h
republish_all-quiet c cmd ms (inr h) = republish_desks-quiet c cmd ms h

pub goodbye-quiet :
    (c : Config) (cmd : Command) (ms : List Manager) → Any (Writes cmd) (goodbye c ms) → ⊥
unfolding goodbye
goodbye-quiet c cmd [] (inl h) = h
goodbye-quiet c cmd [] (inr h) = h
goodbye-quiet c cmd (m ∷ ms) (inl h) = h
goodbye-quiet c cmd (m ∷ ms) (inr h) = goodbye-quiet c cmd ms h
