-- ===== src/Bridge/Scan/Inventory.antt =====
-- internal/bridge/scan.go: what `Inventory` lists.
use mqtt_linak.Base.{
  ℕ, ◌≡◌, refl, sym, ap, ◌∙◌, ◌↔◌, true, false, Option, none, some, List, [], ◌∷◌, Text, Any,
  text_eq, text_eq→eq, to_upper, Bool-cases, inl, inr, text_eq_refl, arith,
}
use mqtt_linak.Bridge.Scan.{
  Sighting, Advertisement, keep, sighting, gather, entries, Radio, is_off, inventory,
}
use mqtt_linak.Bridge.Scan.Laws.{entry, entry-keep, preferred, sightings_of, gather-preferred}

-- No key stands twice.
abbrev KeysOnce : List (Text × Sighting) → Type 0
KeysOnce [] = Unit
KeysOnce ((k, s) ∷ found) = (entry k found ≡ none) × KeysOnce found

keep-KeysOnce :
    (key : Text) (s : Sighting) (found : List (Text × Sighting))
    → KeysOnce found
    → KeysOnce (keep key s found)
unfolding keep
keep-KeysOnce key s [] h = (refl, tt)
keep-KeysOnce key s ((k, prev) ∷ found) (new, h) = elim (Bool-cases (text_eq key k)) [
  | inl y ↦ rw y (new, h)
  | inr n ↦ rw n (
    entry-keep k key s found ∙ ground (arith, new, n, text_eq→eq k key, text_eq_refl k),
    keep-KeysOnce key s found h,
  )
]

abbrev IsListed : Sighting → List Sighting → Type 0
IsListed s ss = Any (λ x. x ≡ s) ss

entry-IsListed :
    (key : Text) (s : Sighting) (found : List (Text × Sighting))
    → entry key found ≡ some s
    → IsListed s (entries found)
unfolding entries
entry-IsListed key s [] h = absurd (cc)
entry-IsListed key s ((k, t) ∷ found) h = elim (Bool-cases (text_eq key k)) [
  | inl y ↦ inl (ground (arith, h, y))
  | inr n ↦ inr (entry-IsListed key s found (rw n at h))
]

IsListed-entry :
    (s : Sighting) (found : List (Text × Sighting))
    → KeysOnce found
    → IsListed s (entries found)
    → (key : Text) × (entry key found ≡ some s)
unfolding entries
IsListed-entry s [] h l = absurd l
IsListed-entry s ((k, t) ∷ found) (new, h) (inl e) = (k, rw (text_eq_refl k) (ap some e))
IsListed-entry s ((k, t) ∷ found) (new, h) (inr l) =
    let (key, at) = IsListed-entry s found h l in
    elim (Bool-cases (text_eq key k)) [
      | inl y ↦ absurd (cc (at, new, text_eq→eq key k y))
      | inr n ↦ (key, rw n at)
    ]

module _ (decode_base64 : Text → Option (List ℕ)) where
  gather-KeysOnce :
      (ads : List Advertisement) (found : List (Text × Sighting))
      → KeysOnce found
      → KeysOnce (gather decode_base64 ads found)
  unfolding gather
  gather-KeysOnce [] found h = h
  gather-KeysOnce (a ∷ ads) found h =
      let key = to_upper a.peripheral.peripheral_id in
      let s = sighting decode_base64 a in
      gather-KeysOnce ads (keep key s found) (keep-KeysOnce key s found h)

  -- If sorting keeps the elements of a list, the helper starts, the adapter is not known to be off
  -- and the scan starts, then what is listed, interrupted or not, is for each peripheral that was
  -- heard, whatever case its ID came in, the first sighting that has a name, or the first of all if
  -- none has; and nothing else.
  pub inventory-preferred :
      (sort : List Sighting → List Sighting) (r : Radio)
      → ((ss : List Sighting) (s : Sighting) → Any (λ x. x ≡ s) ss ↔ Any (λ x. x ≡ s) (sort ss))
      → r.helper ≡ true
      → is_off r.powered_on ≡ false
      → r.scan_starts ≡ true
      → (s : Sighting)
      → Any (λ x. x ≡ s) (inventory decode_base64 sort r).0
        ↔ ((key : Text) × (preferred (sightings_of decode_base64 key r.heard) ≡ some s))
  unfolding inventory
  inventory-preferred sort r keeps up on starts s =
      let found = gather decode_base64 r.heard [] in
      let listed : IsListed s (sort (entries found))
          → (key : Text) × (preferred (sightings_of decode_base64 key r.heard) ≡ some s) =
        λ l.
          let (key, at) =
            IsListed-entry s found (gather-KeysOnce r.heard [] tt)
              ((keeps (entries found) s).1 l) in
          (key, sym (gather-preferred decode_base64 key r.heard) ∙ at) in
      let shown : (key : Text) × (preferred (sightings_of decode_base64 key r.heard) ≡ some s)
          → IsListed s (sort (entries found)) =
        λ (key, p).
          (keeps (entries found) s).0
            (entry-IsListed key s found (gather-preferred decode_base64 key r.heard ∙ p)) in
      rw (inventory, up, on, starts) (listed, shown)
