-- ===== src/Tests/Lines.antt =====
-- internal/bridge/bridge.go: what the helper says on stderr.
use mqtt_linak.Base.{
  ℕ, zero, suc, ◌≡◌, refl, [], ◌∷◌, ◌++◌, length, Text, Lacks, codes, arith, ap, is_space, trim,
  trim_id,
}
use mqtt_linak.Bridge.LineWriter.{max_line, logged, unlines, IsLogLine, logged-unlines}

-- A line of that many letters.
row : ℕ → Text
row zero = []
row (suc n) = b'x' ∷ row n

length-row : (n : ℕ) → length (row n) ≡ n
unfolding row
length-row zero = refl
length-row (suc n) = ap suc (length-row n)

row-Lacks : (n : ℕ) → Lacks b'\n' (row n)
unfolding row
row-Lacks zero = tt
row-Lacks (suc n) = (λ e. cc, row-Lacks n)

starting : Text
starting = codes "scan"

starting-IsLogLine : IsLogLine starting
unfolding starting is_space trim
starting-IsLogLine = record {
  visible = λ e. cc;
  single = (λ e. cc, (λ e. cc, (λ e. cc, (λ e. cc, tt))));
  trimmed = (trim_id is_space starting).0 refl;
  fits = omega arith;
}

logged-unlines_example :
    (logged (unlines (starting ∷ [])) ≡ starting ∷ [])
    × (logged (unlines (starting ∷ []) ++ (row max_line ++ codes "lost")) ≡ starting ∷ [])
logged-unlines_example =
    logged-unlines (starting ∷ []) (row max_line) (codes "lost") (starting-IsLogLine, tt)
      (row-Lacks max_line) (omega (arith, length-row max_line))
