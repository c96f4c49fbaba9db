-- ===== src/Mqttc/Subscriptions.antt =====
-- internal/mqttc/mqttc.go: what is subscribed to is asked for again on every connection.
use mathlib.Core.Path.{subst}
use mqtt_linak.Base.{
  ℕ, ◌≡◌, refl, sym, ap, ◌∙◌, inl, inr, true, not, ◌&&◌, List, [], ◌∷◌, ◌++◌, All, Any, All-append,
  append-nil, append_assoc, Bool-cases, Within, Within-append_left, Within-append_right,
  Within-refl, Text, arith,
}
use mqtt_linak.Config.{Mqtt}
use mqtt_linak.Mqttc.{
  Subscription, Place, top, dialling, Effect, subscribe, on_reconnect, new, subscribe_one,
  add_subscription, subscribe_all, resubscribe, on_connect,
}
use mqtt_linak.Mqttc.Machine.{
  Event, accepted, greeted, subscribes, Session, ask, step_at, step, run, start,
}

module _ {H : Type 0} where
  -- The filters that are registered in a history, with their handlers.
  unfoldable pub registered : List (Event H) → List (Subscription H)
  registered [] = []
  registered (subscribes filter h ∷ es) = record { filter = filter; handler = h } ∷ registered es
  registered (_ ∷ es) = registered es

  -- The broker has been asked for the filter.
  abbrev pub IsAsked : ℕ → List (Effect H) → Subscription H → Type 0
  IsAsked qos asked s = Any (λ e. e ≡ subscribe s.filter qos s.handler) asked

  -- Every subscription that is registered has been asked for on the open connection.
  abbrev Covered : Session H → Type 0
  Covered s = s.client.is_open ≡ true → s.handled ≡ true → Within (resubscribe s.client) s.asked

  subscribe_all-append :
      (qos : ℕ) (ss ts : List (Subscription H))
      → subscribe_all qos (ss ++ ts) ≡ subscribe_all qos ss ++ subscribe_all qos ts
  unfolding subscribe_all
  subscribe_all-append qos [] ts = refl
  subscribe_all-append qos (s ∷ ss) ts =
      ap (λ xs. subscribe_one qos s ∷ xs) (subscribe_all-append qos ss ts)

  added :
      (qos : ℕ) (subs : List (Subscription H)) (asked : List (Effect H)) (s : Subscription H)
      → Within (subscribe_all qos subs) asked
      → Within (subscribe_all qos (subs ++ s ∷ [])) (asked ++ subscribe_one qos s ∷ [])
  unfolding subscribe_all
  added qos subs asked s h =
      let new : List (Effect H) = subscribe_one qos s ∷ [] in
      rw (subscribe_all-append qos subs (s ∷ [])) (
        All-append _ (subscribe_all qos subs) new
          (Within-append_left (subscribe_all qos subs) asked new h)
          (Within-append_right new asked new (inl refl, tt)))

  -- Only what these five show decides.
  frame :
      (s t : Session H)
      → t.client.qos ≡ s.client.qos
      → t.client.subs ≡ s.client.subs
      → (t.client.is_open ≡ true → s.client.is_open ≡ true)
      → t.handled ≡ s.handled
      → t.asked ≡ s.asked
      → Covered s
      → Covered t
  unfolding resubscribe
  frame s t q u o g a h = λ i j. rw (q, u, a) (h (o i) (sym g ∙ j))

  greeted-Covered :
      (s : Session H)
      → Covered (record s { handled = true; asked = s.asked ++ on_connect s.client })
  unfolding on_connect
  greeted-Covered s i j =
      Within-append_right (resubscribe s.client) s.asked (resubscribe s.client ++ on_reconnect ∷ [])
        (Within-append_left (resubscribe s.client) (resubscribe s.client) (on_reconnect ∷ [])
          (Within-refl (resubscribe s.client)))

  subscribes-Covered :
      (filter : Text) (x : H) (s : Session H)
      → Covered s
      → Covered (ask s (add_subscription filter x s.client))
  unfolding add_subscription resubscribe
  subscribes-Covered filter x s h i j =
      rw i
        (added s.client.qos s.client.subs s.asked (record { filter = filter; handler = x }) (h i j))

  step_at-Covered : (p : Place) (e : Event H) (s : Session H) → Covered s → Covered (step_at p e s)
  unfolding step_at
  step_at-Covered top accepted s h = h
  step_at-Covered dialling accepted s h = λ _ k. absurd (cc)
  step_at-Covered _ greeted s h = elim (Bool-cases (s.client.is_open && not s.handled)) [
    | inl y ↦ rw y (greeted-Covered s)
    | inr n ↦ rw n h
  ]
  step_at-Covered _ (subscribes filter x) s h = subscribes-Covered filter x s h
  step_at-Covered p e s h =
      frame s (step_at p e s) (ground arith) (ground arith) (λ o. ground arith) (ground arith)
        (ground arith) h

  run-Covered : (s : Session H) (es : List (Event H)) → Covered s → Covered (run s es)
  unfolding run
  run-Covered s [] h = h
  run-Covered s (e ∷ es) h = run-Covered (step s e) es (step_at-Covered s.client.place e s h)

  step_at-subs :
      (p : Place) (e : Event H) (s : Session H)
      → (step_at p e s).client.subs ≡ s.client.subs ++ registered (e ∷ [])
  unfolding step_at registered add_subscription
  step_at-subs _ (subscribes filter x) s = ground arith
  step_at-subs _ e s = ground (arith, append-nil s.client.subs)

  run-subs :
      (s : Session H) (es : List (Event H))
      → (run s es).client.subs ≡ s.client.subs ++ registered es
  unfolding run registered step
  run-subs s [] = sym (append-nil s.client.subs)
  run-subs s (subscribes filter x ∷ es) =
      run-subs (step s (subscribes filter x)) es
      ∙ (ap (λ xs. xs ++ registered es) (step_at-subs s.client.place (subscribes filter x) s)
          ∙ append_assoc s.client.subs _ (registered es))
  run-subs s (e ∷ es) =
      run-subs (step s e) es
      ∙ ap (λ xs. xs ++ registered es) (step_at-subs s.client.place e s ∙ append-nil s.client.subs)

  step_at-qos :
      (p : Place) (e : Event H) (s : Session H) → (step_at p e s).client.qos ≡ s.client.qos
  unfolding step_at add_subscription
  step_at-qos p e s = ground arith

  run-qos : (s : Session H) (es : List (Event H)) → (run s es).client.qos ≡ s.client.qos
  unfolding run step
  run-qos s [] = refl
  run-qos s (e ∷ es) = run-qos (step s e) es ∙ step_at-qos s.client.place e s

  each-IsAsked :
      (qos : ℕ) (subs : List (Subscription H)) (asked : List (Effect H))
      → Within (subscribe_all qos subs) asked
      → All (IsAsked qos asked) subs
  unfolding subscribe_all subscribe_one
  each-IsAsked qos [] asked h = tt
  each-IsAsked qos (s ∷ subs) asked (h, hs) = (h, each-IsAsked qos subs asked hs)

  -- After any history of a new client, on a connection that is open and whose connect handler has
  -- run, the broker has been asked, since the connection was opened, for every filter that was
  -- registered in the history, with its handler and the configured QoS.
  pub run-resubscribes :
      (cfg : Mqtt) (es : List (Event H))
      → (run (start cfg) es).client.is_open ≡ true
      → (run (start cfg) es).handled ≡ true
      → All (IsAsked cfg.qos (run (start cfg) es).asked) (registered es)
  unfolding new resubscribe
  run-resubscribes cfg es o h =
      let s = run (start cfg) es in
      let subs : s.client.subs ≡ registered es = run-subs (start cfg) es in
      let qos : s.client.qos ≡ cfg.qos = run-qos (start cfg) es in
      let all : All (IsAsked s.client.qos s.asked) s.client.subs =
        each-IsAsked s.client.qos s.client.subs s.asked
          (run-Covered (start cfg) es (λ i _. absurd (cc)) o h) in
      subst (λ q. All (IsAsked q s.asked) (registered es)) qos
        (subst (All (IsAsked s.client.qos s.asked)) subs all)
