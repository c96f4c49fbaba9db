-- ===== src/Bridge/Scan/Table.antt =====
-- internal/bridge/scan.go: the table that `-scan` prints. `fmt` pads to a width in characters of UTF-8,
-- an invalid byte being one.
use mqtt_linak.Base.{
  ℕ, zero, suc, ◌-◌, Bool, ◌&&◌, ◌==◌, List, [], ◌∷◌, ◌++◌, Text, codes, is_nil, leb, join, itoa,
  if◌then◌else◌,
}
use mqtt_linak.Bridge.Scan.{Sighting}

abbrev between : ℕ → ℕ → ℕ → Bool
between lo hi b = leb lo b && leb b hi

-- Whether the second byte of a character fits the first.
abbrev fits_second : ℕ → ℕ → Bool
fits_second b x =
    if b == 0xE0
    then between 0xA0 0xBF x
    else if b == 0xED
    then between 0x80 0x9F x
    else if b == 0xF0
    then between 0x90 0xBF x
    else if b == 0xF4
    then between 0x80 0x8F x
    else between 0x80 0xBF x

-- How many bytes follow the first of a character.
unfoldable pub rune_rest : ℕ → Text → ℕ
rune_rest b [] = 0
rune_rest b (x ∷ []) = if between 0xC2 0xDF b && between 0x80 0xBF x then 1 else 0
rune_rest b (x ∷ y ∷ []) =
    if between 0xC2 0xDF b && between 0x80 0xBF x
    then 1
    else if between 0xE0 0xEF b && (fits_second b x && between 0x80 0xBF y)
    then 2
    else 0
rune_rest b (x ∷ y ∷ z ∷ s) =
    if between 0xC2 0xDF b && between 0x80 0xBF x
    then 1
    else if between 0xE0 0xEF b && (fits_second b x && between 0x80 0xBF y)
    then 2
    else if between 0xF0 0xF4 b && (fits_second b x && (between 0x80 0xBF y && between 0x80 0xBF z))
    then 3
    else 0

-- Behind so many bytes of a character.
unfoldable pub runes_behind : ℕ → Text → ℕ
unfolding rune_rest
runes_behind k [] = 0
runes_behind zero (b ∷ s) = suc (runes_behind (rune_rest b s) s)
runes_behind (suc k) (b ∷ s) = runes_behind k s

-- `utf8.RuneCountInString`
unfoldable pub rune_count : Text → ℕ
unfolding runes_behind
rune_count s = runes_behind 0 s

unfoldable pub blanks : ℕ → Text
blanks zero = []
blanks (suc n) = b' ' ∷ blanks n

-- `%-*s` and `%*s`
unfoldable pub pad_right : ℕ → Text → Text
unfolding rune_count blanks
pad_right w s = s ++ blanks (w - rune_count s)

unfoldable pub pad_left : ℕ → Text → Text
unfolding rune_count blanks
pad_left w s = blanks (w - rune_count s) ++ s

abbrev or_dash : Text → Text
or_dash s = if is_nil s then codes "-" else s

-- A line of the table, and what stands below it.
unfoldable pub columns : Text → Text → Text → Text → Text
unfolding pad_right pad_left
columns id name rssi services =
    pad_right 38 id
    ++ (codes "  "
        ++ (pad_right 24 name ++ (codes "  " ++ (pad_left 5 rssi ++ (codes "  " ++ services)))))

unfoldable print_row : Sighting → List Text
unfolding columns
print_row s =
    columns s.peripheral_id (or_dash s.name) (itoa s.rssi) (or_dash (join s.services (codes " ")))
    ∷ (if is_nil s.manufacturer
        then []
        else (pad_right 38 [] ++ (codes "  manufacturer data: " ++ s.manufacturer)) ∷ [])

unfoldable print_rows : List Sighting → List Text
unfolding print_row
print_rows [] = []
print_rows (s ∷ ss) = print_row s ++ print_rows ss

-- The lines that `PrintInventory` writes.
unfoldable print_inventory : List Sighting → List Text
unfolding print_rows
print_inventory [] =
    codes "Nothing found. If the desk's display is asleep, press a button on the"
    ∷ codes "panel to wake it and scan again."
    ∷ []
print_inventory (s ∷ ss) =
    columns (codes "PERIPHERAL ID") (codes "NAME") (codes "RSSI") (codes "ADVERTISED SERVICES")
      ∷ print_rows (s ∷ ss)
    ++ ([]
        ∷ codes "Copy the desk's name into a desks entry, or pin it by peripheral_id:"
        ∷ []
        ∷ codes "  desks:"
        ∷ codes "    - id: mydesk"
        ∷ (codes "      peripheral_id: \"" ++ (s.peripheral_id ++ codes "\""))
        ∷ [])
