-- ===== src/Bridge/Scanner.antt =====
-- internal/bridge/bridge.go: the scan runs exactly while a desk waits to be found.
use mqtt_linak.Base.{ℕ, suc, ◌+◌, ◌≡◌, refl, Bool, true, false, ◌⊎◌, List, [], ◌∷◌, ◌++◌, arith}
use mqtt_linak.Desk.{Manager}
use mqtt_linak.Bridge.{
  ScanCall, start_scan_fails, start_scan, stop_scan, needs_scan, scan_round, scan_end,
}

-- A round with what `StartScan` would do and the desks as they are then.
pub data ScanEvent : Type 0 where
  round : Bool → List Manager → ScanEvent

-- The rounds of one `scanController`, with its calls of the Bluetooth client.
unfoldable pub scan_run : Bool → List ScanEvent → Bool × List ScanCall
unfolding scan_round
scan_run scanning [] = (scanning, [])
scan_run scanning (round works ms ∷ es) =
    let (now, out) = scan_round works ms scanning in
    let (last, rest) = scan_run now es in (last, out ++ rest)

abbrev pub starts : List ScanCall → ℕ
starts [] = 0
starts (start_scan ∷ cs) = suc (starts cs)
starts (start_scan_fails ∷ cs) = starts cs
starts (stop_scan ∷ cs) = starts cs

abbrev pub stops : List ScanCall → ℕ
stops [] = 0
stops (start_scan ∷ cs) = stops cs
stops (start_scan_fails ∷ cs) = stops cs
stops (stop_scan ∷ cs) = suc (stops cs)

-- A round leaves the scan running exactly if a desk waits, unless it had to be started and could
-- not be.
scan_round-needs_scan :
    (works : Bool) (ms : List Manager) (scanning : Bool)
    → (works ≡ true) ⊎ ((needs_scan ms ≡ false) ⊎ (scanning ≡ true))
    → (scan_round works ms scanning).0 ≡ needs_scan ms
unfolding scan_round
scan_round-needs_scan works ms scanning h = ground arith

abbrev bit : Bool → ℕ
bit true = 1
bit false = 0

stops-append : (xs ys : List ScanCall) → stops (xs ++ ys) ≡ stops xs + stops ys
stops-append [] ys = omega arith
stops-append (start_scan ∷ xs) ys = stops-append xs ys
stops-append (start_scan_fails ∷ xs) ys = stops-append xs ys
stops-append (stop_scan ∷ xs) ys = omega (arith, stops-append xs ys)

starts-append : (xs ys : List ScanCall) → starts (xs ++ ys) ≡ starts xs + starts ys
starts-append [] ys = omega arith
starts-append (start_scan ∷ xs) ys = omega (arith, starts-append xs ys)
starts-append (start_scan_fails ∷ xs) ys = starts-append xs ys
starts-append (stop_scan ∷ xs) ys = starts-append xs ys

scan_round-Balanced :
    (works : Bool) (ms : List Manager) (scanning : Bool)
    → let r = scan_round works ms scanning in bit scanning + starts r.1 ≡ stops r.1 + bit r.0
unfolding scan_round
scan_round-Balanced works ms scanning = ground arith

scan_run-Balanced :
    (scanning : Bool) (es : List ScanEvent)
    → let r = scan_run scanning es in bit scanning + starts r.1 ≡ stops r.1 + bit r.0
unfolding scan_run
scan_run-Balanced scanning [] = omega arith
scan_run-Balanced scanning (round works ms ∷ es) =
    let now = scan_round works ms scanning in
    let rest = scan_run now.0 es in
    rw (starts-append now.1 rest.1, stops-append now.1 rest.1)
      (omega (arith, scan_round-Balanced works ms scanning, scan_run-Balanced now.0 es))

end-Balanced : (scanning : Bool) → bit scanning ≡ stops (scan_end scanning).1
unfolding scan_end
end-Balanced true = refl
end-Balanced false = refl

-- Over the whole life of a scan controller, however often a desk has to be found again and a scan
-- does not start, each scan that was started has been stopped once when the context has ended.
pub scan_run-scan_end :
    (es : List ScanEvent)
    → let r = scan_run false es in starts r.1 ≡ stops r.1 + stops (scan_end r.0).1
scan_run-scan_end es =
    let r = scan_run false es in omega (arith, scan_run-Balanced false es, end-Balanced r.0)
