-- ===== src/Desk/Machine/Count.antt =====
-- internal/bridge/desk.go: how often an effect is asked for.
use mqtt_linak.Base.{ℕ, ◌+◌, ◌≡◌, Bool, true, false, List, [], ◌∷◌, ◌++◌, arith, if◌then◌else◌}
use mqtt_linak.Desk.{Effect, disconnect, add_callback}

module _ (test : Effect → Bool) where
  -- How many of the effects pass.
  unfoldable pub count : List Effect → ℕ
  count [] = 0
  count (x ∷ xs) = (if test x then 1 else 0) + count xs

  pub count-append : (xs ys : List Effect) → count (xs ++ ys) ≡ count xs + count ys
  unfolding count
  count-append [] ys = omega arith
  count-append (x ∷ xs) ys = omega (arith, count-append xs ys)

abbrev pub is_callback : Effect → Bool
is_callback add_callback = true
is_callback _ = false

abbrev pub is_disconnect : Effect → Bool
is_disconnect (disconnect pid) = true
is_disconnect _ = false

abbrev pub bit : Bool → ℕ
bit true = 1
bit false = 0

abbrev pub callbacks : List Effect → ℕ
callbacks = count is_callback

abbrev pub disconnects : List Effect → ℕ
disconnects = count is_disconnect
