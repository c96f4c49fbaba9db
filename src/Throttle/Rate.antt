-- ===== src/Throttle/Rate.antt =====
-- internal/bridge/throttle.go: how often a value is published.
use mqtt_linak.Base.{
  ℕ, suc, ◌+◌, ◌*◌, ◌≤◌, ◌≡◌, refl, true, false, Option, none, some, List, [], ◌∷◌, length, ℤ, pos,
  arith, ◌⊎◌, inl, inr, not, ◌&&◌, ◌||◌, eq_ℤ, leb_ℤ, ltb_ℤ, Bool-cases,
}
use mqtt_linak.Throttle.{Throttle, new_throttle, elapsed, set, flush}
use mqtt_linak.Throttle.Trace.{Call, sets, flushes, resets, send, run, start}

-- Calls of a monotonic clock between two instants, with no forced reading and no reset.
abbrev pub IsPaced : ℕ → List Call → ℕ → Type 0
IsPaced t₀ [] t₁ = t₀ ≤ t₁
IsPaced t₀ (sets v force now ∷ cs) t₁ = (force ≡ false) × (t₀ ≤ now) × IsPaced now cs t₁
IsPaced t₀ (flushes now ∷ cs) t₁ = (t₀ ≤ now) × IsPaced now cs t₁
IsPaced t₀ (resets ∷ cs) t₁ = ⊥

-- Each publish after the first has used up one interval since the first instant.
record Pace (m t₀ now : ℕ) (t : Throttle) (out : List ℤ) : Type 0 where
  interval : t.min ≡ pos m
  unsent : t.has_last ≡ false → length out ≡ 0
  sent : t.has_last ≡ true → (m * length out + t₀ ≤ t.last_at + m) × (t.last_at ≤ now)

-- What one paced call does: nothing that counts, or a publish that is the first one or comes an
-- interval after the one before.
abbrev Paced : ℕ → ℕ → Throttle → Throttle → Option ℤ → Type 0
Paced m then t t' p =
    ((p ≡ none) × (t'.min ≡ t.min) × (t'.last_at ≡ t.last_at) × (t'.has_last ≡ t.has_last))
    ⊎ ((v : ℤ) × (p ≡ some v)
        × (t'.min ≡ t.min)
        × (t'.last_at ≡ then)
        × (t'.has_last ≡ true)
        × ((t.has_last ≡ false) ⊎ (m + t.last_at ≤ then)))

set-Paced :
    (m then : ℕ) (t : Throttle) (v : ℤ)
    → t.min ≡ pos m
    → Paced m then t (set t v false then).0 (set t v false then).1
unfolding set
set-Paced m then t v e = elim (Bool-cases (t.has_last && eq_ℤ t.last v)) [
  | inl p ↦ rw p (inl (refl, refl, refl, refl))
  | inr p ↦ rw p (elim (Bool-cases (not t.has_last || leb_ℤ t.min (elapsed t then))) [
    | inl q ↦ rw q (inr (v, refl, refl, refl, refl, ground arith))
    | inr q ↦ rw q (inl (refl, refl, refl, refl))
  ])
]

flush-Paced :
    (m then : ℕ) (t : Throttle) → t.min ≡ pos m → Paced m then t (flush t then).0 (flush t then).1
unfolding flush
flush-Paced m then t e = elim (Bool-cases (not t.has_pending)) [
  | inl p ↦ rw p (inl (refl, refl, refl, refl))
  | inr p ↦ rw p (elim (Bool-cases (t.has_last && ltb_ℤ (elapsed t then) t.min)) [
    | inl q ↦ rw q (inl (refl, refl, refl, refl))
    | inr q ↦ rw q (inr (t.pending, refl, refl, refl, refl, ground arith))
  ])
]

more : (m k : ℕ) → m * suc k ≡ m + m * k
more m k = omega arith

Paced-Pace :
    (m t₀ now then : ℕ) (t t' : Throttle) (p : Option ℤ) (out : List ℤ)
    → t₀ ≤ now
    → now ≤ then
    → Pace m t₀ now t out
    → Paced m then t t' p
    → Pace m t₀ then t' (send p out)
Paced-Pace m t₀ now then t t' none out b l h d = ground arith
Paced-Pace m t₀ now then t t' (some v) out b l h d = ground (arith, more m (length out))

run-Pace :
    (m t₀ now t₁ : ℕ) (t : Throttle) (out : List ℤ) (cs : List Call)
    → t₀ ≤ now
    → Pace m t₀ now t out
    → IsPaced now cs t₁
    → m * length (run (t, out) cs).1 + t₀ ≤ t₁ + m
unfolding run
run-Pace m t₀ now t₁ t out [] b h p = ground arith
run-Pace m t₀ now t₁ t out (sets v true n ∷ cs) b h p = absurd (cc)
run-Pace m t₀ now t₁ t out (sets v false n ∷ cs) b h (_, l, p) =
    run-Pace m t₀ n t₁ _ _ cs (omega arith)
      (Paced-Pace m t₀ now n t _ _ out b l h (set-Paced m n t v h.interval)) p
run-Pace m t₀ now t₁ t out (flushes n ∷ cs) b h (l, p) =
    run-Pace m t₀ n t₁ _ _ cs (omega arith)
      (Paced-Pace m t₀ now n t _ _ out b l h (flush-Paced m n t h.interval)) p
run-Pace m t₀ now t₁ t out (resets ∷ cs) b h p = absurd p

new_throttle-Pace : (m t₀ : ℕ) → Pace m t₀ t₀ (new_throttle (pos m)) []
unfolding new_throttle
new_throttle-Pace m t₀ = ground arith

-- A new throttle of interval m that sees no forced reading and no reset publishes n values between
-- two instants of a monotonic clock only if the n - 1 intervals between them fit: (n - 1) m is at
-- most their distance.
pub run-rate :
    (m t₀ t₁ : ℕ) (cs : List Call)
    → IsPaced t₀ cs t₁
    → m * length (run (start (pos m)) cs).1 + t₀ ≤ t₁ + m
run-rate m t₀ t₁ cs p = run-Pace m t₀ t₀ t₁ _ [] cs (omega arith) (new_throttle-Pace m t₀) p
