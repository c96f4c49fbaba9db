-- ===== src/Bridge/LineWriter.antt =====
-- internal/bridge/bridge.go: `lineWriter`, which makes log lines of what the helper writes to stderr.
use mqtt_linak.Base.{
  ℕ, ◌≡◌, ◌≢◌, ◌<◌, ◌≤◌, ◌*◌, append-nil, length-append, refl, sym, ap, ◌∙◌, false, ◌==◌, List, [],
  ◌∷◌, ◌++◌, All, length, Text, Lacks, IsTrimmed, is_space, is_nil, is_nil_iff, trim_space, trim_id,
  eq-false, ltb, if◌then◌else◌, arith, append_assoc,
}

-- A byte in front of the first line.
unfoldable push_byte : ℕ → List Text → List Text
push_byte b [] = (b ∷ []) ∷ []
push_byte b (l ∷ ls) = (b ∷ l) ∷ ls

-- `bufio.ScanLines`, before it drops a carriage return; what follows the last newline is a line if it
-- is not empty.
unfoldable lines : Text → List Text
unfolding push_byte
lines [] = []
lines (b ∷ s) = let rest = lines s in if b == b'\n' then [] ∷ rest else push_byte b rest

unfoldable drop_cr : Text → Text
drop_cr [] = []
drop_cr (b ∷ []) = if b == b'\r' then [] else b ∷ []
drop_cr (b ∷ c ∷ s) = b ∷ drop_cr (c ∷ s)

-- The limit given to `sc.Buffer`: a line must leave room for its newline.
abbrev pub max_line : ℕ
max_line = 1024 * 1024

-- `sc.Scan` is false from the first line on that does not fit.
unfoldable scanned : List Text → List Text
scanned [] = []
scanned (l ∷ ls) = let rest = scanned ls in if ltb (length l) max_line then l ∷ rest else []

-- The loop of the goroutine: what is logged.
unfoldable log_lines : List Text → List Text
unfolding drop_cr
log_lines [] = []
log_lines (l ∷ ls) =
    let rest = log_lines ls in
    let line = trim_space (drop_cr l) in if is_nil line then rest else line ∷ rest

unfoldable pub logged : Text → List Text
unfolding lines scanned log_lines
logged s = log_lines (scanned (lines s))

-- Lines, each with its newline.
abbrev pub unlines : List Text → Text
unlines [] = []
unlines (l ∷ ls) = l ++ b'\n' ∷ unlines ls

-- A line that fits, has no white space around it, and is not empty.
pub record IsLogLine (l : Text) : Type 0 where
  pub visible : l ≢ []
  pub single : Lacks b'\n' l
  pub trimmed : IsTrimmed is_space l
  pub fits : length l < max_line

differs : (b : ℕ) → b ≢ b'\n' → (b == b'\n') ≡ false
differs b n = eq-false (b == b'\n') (λ y. n (ground (arith, y)))

lines-newline : (l s : Text) → Lacks b'\n' l → lines (l ++ b'\n' ∷ s) ≡ l ∷ lines s
unfolding lines push_byte
lines-newline [] s h = refl
lines-newline (b ∷ l) s (n, h) = rw (differs b n, lines-newline l s h) refl

drop_cr-id :
    (l : Text) → ((t : Text) (c : ℕ) → l ≡ t ++ c ∷ [] → is_space c ≡ false) → drop_cr l ≡ l
unfolding drop_cr is_space
drop_cr-id [] h = refl
drop_cr-id (b ∷ []) h = ground (arith, h [] b refl)
drop_cr-id (b ∷ c ∷ s) h =
    ap (λ x. b ∷ x) (drop_cr-id (c ∷ s) (λ t d e. h (b ∷ t) d (ap (λ x. b ∷ x) e)))

log_lines-keep : (l : Text) (ls : List Text) → IsLogLine l → log_lines (l ∷ ls) ≡ l ∷ log_lines ls
unfolding log_lines trim_space
log_lines-keep l ls h =
    let same : trim_space (drop_cr l) ≡ l =
      ap trim_space (drop_cr-id l h.trimmed.1) ∙ (trim_id is_space l).1 h.trimmed in
    rw (same, eq-false (is_nil l) (λ y. h.visible ((is_nil_iff l).0 y))) refl

scanned-keep : (l : Text) (ls : List Text) → length l < max_line → scanned (l ∷ ls) ≡ l ∷ scanned ls
unfolding scanned
scanned-keep l ls h = ground arith

logged-append :
    (ls : List Text) (s : Text) → All IsLogLine ls → logged (unlines ls ++ s) ≡ ls ++ logged s
unfolding logged
logged-append [] s _ = refl
logged-append (l ∷ ls) s (h, hs) =
    ap logged (append_assoc l (b'\n' ∷ unlines ls) s)
    ∙ (ap (λ x. log_lines (scanned x)) (lines-newline l (unlines ls ++ s) h.single)
        ∙ (ap log_lines (scanned-keep l (lines (unlines ls ++ s)) h.fits)
            ∙ (log_lines-keep l (scanned (lines (unlines ls ++ s))) h
                ∙ ap (λ x. l ∷ x) (logged-append ls s hs))))

-- A text with no newline is the beginning of the first line.
lines-begins :
    (b : ℕ) (l s : Text)
    → Lacks b'\n' (b ∷ l)
    → (t : Text) × (ls : List Text) × (lines ((b ∷ l) ++ s) ≡ ((b ∷ l) ++ t) ∷ ls)
unfolding lines push_byte
lines-begins b [] s (n, h) =
    elim (lines s)
      as (λ x.
        (t : Text) × (ls : List Text) × ((if b == b'\n' then [] ∷ x else push_byte b x)
          ≡ (b ∷ t) ∷ ls)) [
            | [] ↦ ([], [], rw (differs b n) refl)
            | y ∷ ys ↦ (y, ys, rw (differs b n) refl)
          ]
lines-begins b (d ∷ l) s (n, h) =
    let (t, ls, e) = lines-begins d l s h in (t, ls, rw (differs b n, e) refl)

scanned-too_long : (l : Text) (ls : List Text) → max_line ≤ length l → scanned (l ∷ ls) ≡ []
unfolding scanned
scanned-too_long l ls h = ground arith

logged-long : (l s : Text) → Lacks b'\n' l → max_line ≤ length l → logged (l ++ s) ≡ []
unfolding logged log_lines
logged-long [] s n h = absurd (omega (arith, h))
logged-long (b ∷ l) s n h =
    let (t, ls, e) = lines-begins b l s n in
    ap (λ x. log_lines (scanned x)) e
    ∙ ap log_lines (scanned-too_long ((b ∷ l) ++ t) ls (omega (arith, h, length-append (b ∷ l) t)))

-- What the helper says in lines that are not empty, have no white space around them and are shorter
-- than a mebibyte is logged line by line; and from a line of a mebibyte on, nothing that it says is
-- logged any more.
pub logged-unlines :
    (ls : List Text) (l s : Text)
    → All IsLogLine ls
    → Lacks b'\n' l
    → max_line ≤ length l
    → (logged (unlines ls) ≡ ls) × (logged (unlines ls ++ (l ++ s)) ≡ ls)
unfolding logged
logged-unlines ls l s h n long = (
  ap logged (sym (append-nil (unlines ls))) ∙ (logged-append ls [] h ∙ append-nil ls),
  logged-append ls (l ++ s) h ∙ (ap (λ x. ls ++ x) (logged-long l s n long) ∙ append-nil ls),
)
