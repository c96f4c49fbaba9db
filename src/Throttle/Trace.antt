-- ===== src/Throttle/Trace.antt =====
-- internal/bridge/throttle.go: what is published over a whole history of calls.
use mqtt_linak.Base.{
  ◌∙◌, refl, ℕ, ◌≡◌, ◌⊎◌, Bool, true, false, Option, none, some, List, [], ◌∷◌, ℤ, eq_ℤ→eq, ◌≤ℤ◌,
  arith,
}
use mqtt_linak.Throttle.{Throttle, new_throttle, elapsed, set, flush, reset}

-- A call with the clock reading that it sees.
pub data Call : Type 0 where
  sets : ℤ → Bool → ℕ → Call
  flushes : ℕ → Call
  resets : Call

abbrev pub send : Option ℤ → List ℤ → List ℤ
send none out = out
send (some v) out = v ∷ out

-- A throttle with all that it has published, the latest first.
abbrev pub step : Throttle × List ℤ → Call → Throttle × List ℤ
step (t, out) (sets v force now) = let (t', p) = set t v force now in (t', send p out)
step (t, out) (flushes now) = let (t', p) = flush t now in (t', send p out)
step (t, out) resets = (reset t, out)

unfoldable pub run : Throttle × List ℤ → List Call → Throttle × List ℤ
run s [] = s
run s (c ∷ cs) = run (step s c) cs

-- The last reading offered since the last reset.
unfoldable pub latest : Option ℤ → List Call → Option ℤ
latest r [] = r
latest r (sets v force now ∷ cs) = latest (some v) cs
latest r (flushes now ∷ cs) = latest r cs
latest r (resets ∷ cs) = latest none cs

-- The value that a subscriber saw last.
abbrev pub last_sent : List ℤ → Option ℤ
last_sent [] = none
last_sent (v ∷ out) = some v

-- What the throttle remembers agrees with what it has published and with what was offered: the
-- last value is the latest one published, and the latest reading is pending or was published.
record Inv (r : Option ℤ) (t : Throttle) (out : List ℤ) : Type 0 where
  recorded : t.has_last ≡ true → last_sent out ≡ some t.last
  waiting : t.has_pending ≡ true → (t.has_last ≡ true) × (r ≡ some t.pending)
  settled : t.has_pending ≡ false → (r ≡ none) ⊎ ((t.has_last ≡ true) × (r ≡ some t.last))

set-Inv :
    (r : Option ℤ) (t : Throttle) (out : List ℤ) (v : ℤ) (force : Bool) (now : ℕ)
    → Inv r t out
    → Inv (some v) (set t v force now).0 (send (set t v force now).1 out)
unfolding set
set-Inv r t out v force now h = ground (arith, eq_ℤ→eq t.last v)

flush-Inv :
    (r : Option ℤ) (t : Throttle) (out : List ℤ) (now : ℕ)
    → Inv r t out
    → Inv r (flush t now).0 (send (flush t now).1 out)
unfolding flush
flush-Inv r t out now h = ground arith

reset-Inv : (r : Option ℤ) (t : Throttle) (out : List ℤ) → Inv r t out → Inv none (reset t) out
unfolding reset
reset-Inv r t out h = ground arith

run-Inv :
    (r : Option ℤ) (t : Throttle) (out : List ℤ) (cs : List Call)
    → Inv r t out
    → Inv (latest r cs) (run (t, out) cs).0 (run (t, out) cs).1
unfolding run latest
run-Inv r t out [] h = h
run-Inv r t out (sets v force now ∷ cs) h = run-Inv (some v) _ _ cs (set-Inv r t out v force now h)
run-Inv r t out (flushes now ∷ cs) h = run-Inv r _ _ cs (flush-Inv r t out now h)
run-Inv r t out (resets ∷ cs) h = run-Inv none _ _ cs (reset-Inv r t out h)

new_throttle-Inv : (min : ℤ) → Inv none (new_throttle min) []
unfolding new_throttle
new_throttle-Inv min = ground arith

abbrev pub start : ℤ → Throttle × List ℤ
start min = (new_throttle min, [])

flush-latest :
    (r : Option ℤ) (t : Throttle) (out : List ℤ) (v : ℤ) (now : ℕ)
    → Inv r t out
    → r ≡ some v
    → t.min ≤ℤ elapsed t now
    → last_sent (step (t, out) (flushes now)).1 ≡ some v
unfolding flush
flush-latest r t out v now h e late = ground arith

set-min : (t : Throttle) (v : ℤ) (force : Bool) (now : ℕ) → (set t v force now).0.min ≡ t.min
unfolding set
set-min t v force now = ground arith

flush-min : (t : Throttle) (now : ℕ) → (flush t now).0.min ≡ t.min
unfolding flush
flush-min t now = ground arith

run-min : (t : Throttle) (out : List ℤ) (cs : List Call) → (run (t, out) cs).0.min ≡ t.min
unfolding run reset
run-min t out [] = refl
run-min t out (sets v force now ∷ cs) = run-min _ _ cs ∙ set-min t v force now
run-min t out (flushes now ∷ cs) = run-min _ _ cs ∙ flush-min t now
run-min t out (resets ∷ cs) = run-min (reset t) out cs

-- After any history of calls from a new throttle, a flush once the interval has passed since the
-- last publish leaves the latest reading offered since the last reset as the value published last.
pub run-settles :
    (min : ℤ) (cs : List Call) (v : ℤ) (now : ℕ)
    → latest none cs ≡ some v
    → min ≤ℤ elapsed (run (start min) cs).0 now
    → last_sent (step (run (start min) cs) (flushes now)).1 ≡ some v
unfolding new_throttle
run-settles min cs v now e late =
    flush-latest _ _ _ v now (run-Inv none _ [] cs (new_throttle-Inv min)) e
      (rw (run-min (new_throttle min) [] cs) late)
