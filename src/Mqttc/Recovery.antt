-- ===== src/Mqttc/Recovery.antt =====
-- internal/mqttc/mqttc.go: the client finds its way back to a connection.
use mathlib.Core.Path.{subst}
use mqtt_linak.Base.{
  ◌≡◌, ◌≢◌, refl, sym, ap, ◌∙◌, ◌⊎◌, Bool, true, false, List, [], ◌∷◌, ◌++◌, All, arith,
}
use mqtt_linak.Config.{Mqtt}
use mqtt_linak.Mqttc.{Place, top, dialling, up, asleep, over, loop_top, dialled, next_round, new}
use mqtt_linak.Mqttc.Machine.{
  Event, go_on, accepted, token, greeted, lost_seen, timer, subscribes, Session, step_at, step, run,
  start, run-new-Inv,
}
use mqtt_linak.Mqttc.Subscriptions.{registered, IsAsked, run-resubscribes}

module _ {H : Type 0} where
  -- The loop goes on from a lost connection or its sleep, and a connection is accepted.
  abbrev one_try : List (Event H)
  one_try = lost_seen ∷ timer ∷ go_on ∷ accepted ∷ token true ∷ []

  -- Two tries, for the first may end with a signal of the connection before, and then the connect
  -- handler.
  abbrev pub recovery : List (Event H)
  recovery = one_try ++ (one_try ++ greeted ∷ [])

  -- The loop has ended only if the context has.
  abbrev IsGoing : Session H → Type 0
  IsGoing s = (s.client.place ≡ over → s.client.cancelled ≡ true)

  step_at-IsGoing :
      (p : Place) (e : Event H) (s : Session H)
      → s.client.place ≡ p
      → IsGoing s
      → IsGoing (step_at p e s)
  unfolding step_at
  step_at-IsGoing top go_on s q h = ground arith
  step_at-IsGoing dialling (token true) s q h = ground arith
  step_at-IsGoing _ e s q h = ground arith

  run-IsGoing : (s : Session H) (es : List (Event H)) → IsGoing s → IsGoing (run s es)
  unfolding run
  run-IsGoing s [] h = h
  run-IsGoing s (e ∷ es) h = run-IsGoing (step s e) es (step_at-IsGoing s.client.place e s refl h)

  run-append : (s : Session H) (xs ys : List (Event H)) → run s (xs ++ ys) ≡ run (run s xs) ys
  unfolding run
  run-append s [] ys = refl
  run-append s (e ∷ xs) ys = run-append (step s e) xs ys

  -- Where the client is, with its connection and a signal of a lost one.
  record At (p : Place) (o l : Bool) (s : Session H) : Type 0 where
    place : s.client.place ≡ p
    going : s.client.cancelled ≡ false
    is_open : s.client.is_open ≡ o
    lost : s.client.lost ≡ l

  -- A step from a known place.
  steps :
      (K : Session H → Type 0) (p : Place) (e : Event H) (s : Session H)
      → s.client.place ≡ p
      → K (step_at p e s)
      → K (step s e)
  unfolding step
  steps K p e s q h = subst (λ x. K (step_at x e s)) (sym q) h

  module _ (o l : Bool) (s : Session H) where
    top-goes_on : At top o l s → At dialling o false (step s go_on)
    unfolding step_at
    top-goes_on h = steps (At dialling o false) top go_on s h.place (
        rw (step_at, loop_top, h.going)
          (record { place = refl; going = refl; is_open = h.is_open; lost = refl }))

    dialling-accepted : At dialling o l s → At dialling true l (step s accepted)
    unfolding step_at
    dialling-accepted h =
        steps (At dialling true l) dialling accepted s h.place
          (record { place = h.place; going = h.going; is_open = refl; lost = h.lost })

    dialling-token : At dialling true l s → At up true l (step s (token true))
    unfolding step_at dialled
    dialling-token h = steps (At up true l) dialling (token true) s h.place (
        rw (step_at, h.is_open)
          (record { place = refl; going = h.going; is_open = refl; lost = h.lost }))

    up-lost_seen : At up o true s → At top o false (step s lost_seen)
    unfolding step_at
    up-lost_seen h = steps (At top o false) up lost_seen s h.place (
        rw (step_at, h.lost)
          (record { place = refl; going = h.going; is_open = h.is_open; lost = refl }))

    up-not_lost : At up o false s → At up o false (step s lost_seen)
    unfolding step_at
    up-not_lost h = steps (At up o false) up lost_seen s h.place (
        rw (step_at, h.lost)
          (record { place = h.place; going = h.going; is_open = h.is_open; lost = refl }))

    asleep-timer : At asleep o l s → At top o l (step s timer)
    unfolding step_at next_round
    asleep-timer h =
        steps (At top o l) asleep timer s h.place
          (record { place = refl; going = h.going; is_open = h.is_open; lost = h.lost })

    -- An event that is not awaited there changes nothing.
    ignores : (p : Place) (e : Event H) → step_at p e s ≡ s → At p o l s → At p o l (step s e)
    ignores p e q h = steps (At p o l) p e s h.place (subst (At p o l) (sym q) h)

  dials :
      (o l : Bool) (s : Session H)
      → At dialling o l s
      → At up true l (step (step s accepted) (token true))
  dials o l s h = dialling-token true l (step s accepted) (dialling-accepted o l s h)

  goes_on :
      (o l : Bool) (s : Session H)
      → At top o l s
      → At up true false (step (step (step s go_on) accepted) (token true))
  goes_on o l s h = dials o false (step s go_on) (top-goes_on o l s h)

  -- From every place a try ends with a connection, and from there, with no signal left over.
  try-up : (l : Bool) (s : Session H) → At up true l s → At up true false (run s one_try)
  unfolding run step_at
  try-up true s h =
      let s₁ = step s lost_seen in
      goes_on true false (step s₁ timer)
        (ignores true false s₁ top timer refl (up-lost_seen true true s h))
  try-up false s h =
      let s₁ = step s lost_seen in
      let s₂ = step s₁ timer in
      let s₃ = step s₂ go_on in
      let s₄ = step s₃ accepted in
      ignores true false s₄ up (token true) refl (
        ignores true false s₃ up accepted refl (
          ignores true false s₂ up go_on refl
            (ignores true false s₁ up timer refl (up-not_lost true false s h))))

  try-once :
      (p : Place) (o l : Bool) (s : Session H)
      → At p o l s
      → p ≢ over
      → (p ≡ up → (o ≡ true) ⊎ (l ≡ true))
      → (k : Bool) × At up true k (run s one_try)
  unfolding run step_at
  try-once top o l s h n c =
      let s₁ = step s lost_seen in
      (
        false,
        goes_on o l (step s₁ timer)
            (ignores o l s₁ top timer refl (ignores o l s top lost_seen refl h)),
      )
  try-once asleep o l s h n c =
      let s₁ = step s lost_seen in
      (
        false,
        goes_on o l (step s₁ timer) (asleep-timer o l s₁ (ignores o l s asleep lost_seen refl h)),
      )
  try-once dialling o l s h n c =
      let s₁ = step s lost_seen in
      let s₂ = step s₁ timer in
      (
        l,
        dials o l (step s₂ go_on) (
            ignores o l s₂ dialling go_on refl
              (ignores o l s₁ dialling timer refl (ignores o l s dialling lost_seen refl h))),
      )
  try-once up true l s h n c = (false, try-up l s h)
  try-once up false true s h n c =
      let s₁ = step s lost_seen in
      (
        false,
        goes_on false false (step s₁ timer)
            (ignores false false s₁ top timer refl (up-lost_seen false true s h)),
      )
  try-once up false false s h n c = absurd (ground (arith, c refl))
  try-once over o l s h n c = absurd (n refl)

  greeted-handled :
      (s : Session H)
      → At up true false s
      → At up true false (step s greeted) × ((step s greeted).handled ≡ true)
  unfolding step_at
  greeted-handled s h = (
    steps (At up true false) up greeted s h.place (ground (arith, h)),
    steps (λ x. x.handled ≡ true) up greeted s h.place (ground (arith, h.is_open)),
  )

  registered-recovery : (es : List (Event H)) → registered (es ++ recovery) ≡ registered es
  unfolding registered
  registered-recovery [] = refl
  registered-recovery (subscribes filter h ∷ es) =
      ap (λ xs. record { filter = filter; handler = h } ∷ xs) (registered-recovery es)
  registered-recovery (_ ∷ es) = registered-recovery es

  -- From wherever a new client has got to, if its context has not ended, two tries in which the
  -- broker accepts the connection, and a call of the connect handler, leave it connected, with no
  -- signal of a lost connection, waiting for the end of the connection, on which the broker has been
  -- asked for every filter that was ever registered, with its handler and the configured QoS.
  pub run-recovers :
      (cfg : Mqtt) (es : List (Event H))
      → (run (start cfg) es).client.cancelled ≡ false
      → let s = run (start cfg) (es ++ recovery) in
        (s.client.place ≡ up)
        × (s.client.is_open ≡ true)
        × (s.client.lost ≡ false)
        × All (IsAsked cfg.qos s.asked) (registered es)
  unfolding run new
  run-recovers cfg es n =
      let s = run (start cfg) es in
      let t = run (run s one_try) one_try in
      let here : At s.client.place s.client.is_open s.client.lost s = record {
        place = refl;
        going = n;
        is_open = refl;
        lost = refl;
      } in
      let (k, first) =
        try-once s.client.place s.client.is_open s.client.lost s here
          (λ e. cc (run-IsGoing (start cfg) es (λ q. cc) e, n)) (run-new-Inv cfg es).awake in
      let (last, handled) = greeted-handled t (try-up k (run s one_try) first) in
      let whole : run (start cfg) (es ++ recovery) ≡ step t greeted =
        run-append (start cfg) es recovery in
      (
        ap (λ x. x.client.place) whole ∙ last.place,
        ap (λ x. x.client.is_open) whole ∙ last.is_open,
        ap (λ x. x.client.lost) whole ∙ last.lost,
        subst (All (IsAsked cfg.qos (run (start cfg) (es ++ recovery)).asked))
            (registered-recovery es)
            (run-resubscribes cfg (es ++ recovery) (ap (λ x. x.client.is_open) whole ∙ last.is_open)
              (ap (λ x. x.handled) whole ∙ handled)),
      )
