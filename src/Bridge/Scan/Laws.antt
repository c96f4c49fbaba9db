-- ===== src/Bridge/Scan/Laws.antt =====
-- internal/bridge/scan.go: what the inventory holds of each peripheral, and its order.
use mqtt_linak.Base.{
  ℕ, ◌≡◌, refl, ◌∙◌, true, false, Option, none, some, List, [], ◌∷◌, Text, text_eq, text_eq→eq,
  to_upper, Bool-cases, inl, inr, text_eq_refl, if◌then◌else◌, arith,
}
use mqtt_linak.Bridge.Scan.{
  Sighting, Advertisement, is_named, comes_first, better, keep, sighting, gather,
}

abbrev pub entry : Text → List (Text × Sighting) → Option Sighting
entry key [] = none
entry key ((k, s) ∷ found) = if text_eq key k then some s else entry key found

-- The sighting to show of several of one device, the earliest first: the first that has a name, or
-- the first.
abbrev pub first_named : List Sighting → Option Sighting
first_named [] = none
first_named (s ∷ ss) = if is_named s then some s else first_named ss

abbrev pub or_first : Option Sighting → List Sighting → Option Sighting
or_first (some s) ss = some s
or_first none [] = none
or_first none (s ∷ ss) = some s

abbrev pub preferred : List Sighting → Option Sighting
preferred ss = or_first (first_named ss) ss

abbrev again : Option Sighting → Sighting → Sighting
again none s = s
again (some prev) s = better prev s

abbrev all_again : Option Sighting → List Sighting → Option Sighting
all_again o [] = o
all_again o (s ∷ ss) = all_again (some (again o s)) ss

pub entry-keep :
    (key k : Text) (s : Sighting) (found : List (Text × Sighting))
    → entry key (keep k s found)
      ≡ (if text_eq key k then some (again (entry key found) s) else entry key found)
unfolding keep
entry-keep key k s [] = refl
entry-keep key k s ((l, prev) ∷ found) = ground (
  arith,
  entry-keep key k s found,
  text_eq→eq key k,
  text_eq→eq key l,
  text_eq→eq k l,
  text_eq_refl k,
)

all_again-named :
    (s : Sighting) (ss : List Sighting) → is_named s ≡ true → all_again (some s) ss ≡ some s
unfolding better
all_again-named s [] n = refl
all_again-named s (t ∷ ss) n = ground (arith, all_again-named s ss n)

all_again-unnamed :
    (s : Sighting) (ss : List Sighting)
    → is_named s ≡ false
    → all_again (some s) ss ≡ or_first (first_named ss) (s ∷ ss)
unfolding better
all_again-unnamed s [] n = refl
all_again-unnamed s (t ∷ ss) n = elim (Bool-cases (is_named t)) [
  | inl y ↦ ground (arith, all_again-named t ss y)
  | inr u ↦ ground (arith, all_again-unnamed s ss n)
]

module _ (decode_base64 : Text → Option (List ℕ)) where
  -- The sightings of one device, the earliest first.
  abbrev pub sightings_of : Text → List Advertisement → List Sighting
  sightings_of key [] = []
  sightings_of key (a ∷ ads) =
      if text_eq key (to_upper a.peripheral.peripheral_id)
      then sighting decode_base64 a ∷ sightings_of key ads
      else sightings_of key ads

  entry-gather :
      (key : Text) (ads : List Advertisement) (found : List (Text × Sighting))
      → entry key (gather decode_base64 ads found)
        ≡ all_again (entry key found) (sightings_of key ads)
  unfolding gather
  entry-gather key [] found = refl
  entry-gather key (a ∷ ads) found =
      let id = to_upper a.peripheral.peripheral_id in
      let s = sighting decode_base64 a in
      entry-gather key ads (keep id s found) ∙ elim (Bool-cases (text_eq key id)) [
        | inl y ↦ rw (entry-keep key id s found, y) refl
        | inr n ↦ rw (entry-keep key id s found, n) refl
      ]

  all_again-preferred : (ss : List Sighting) → all_again none ss ≡ preferred ss
  all_again-preferred [] = refl
  all_again-preferred (s ∷ ss) = elim (Bool-cases (is_named s)) [
    | inl y ↦ ground (arith, all_again-named s ss y)
    | inr n ↦ ground (arith, all_again-unnamed s ss n)
  ]

  -- For each peripheral, whatever case its ID came in, the inventory holds the first sighting that
  -- has a name, or the first of all if none has, and nothing for one that was not seen.
  pub gather-preferred :
      (key : Text) (ads : List Advertisement)
      → entry key (gather decode_base64 ads []) ≡ preferred (sightings_of key ads)
  gather-preferred key ads = entry-gather key ads [] ∙ all_again-preferred (sightings_of key ads)

-- The order of the list is one that sorting can rely on: no device comes before itself, and both
-- coming first and not coming first are passed on, so that devices of which neither comes first
-- form groups.
pub comes_first_order :
    (s t u : Sighting)
    → (comes_first s s ≡ false)
      × (comes_first s t ≡ true → comes_first t u ≡ true → comes_first s u ≡ true)
      × (comes_first s t ≡ false → comes_first t u ≡ false → comes_first s u ≡ false)
unfolding comes_first
comes_first_order s t u = (ground arith, λ a b. ground arith, λ a b. ground arith)
