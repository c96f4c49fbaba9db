-- ===== src/Run/Completes.antt =====
-- internal/bridge/bridge.go: `Run` returns once its context has ended.
use mqtt_linak.Base.{
  ℕ, ◌≤◌, ◌≡◌, ap, ◌∙◌, inl, inr, true, Option, none, List, [], ◌∷◌, ◌++◌, All, Text, length,
}
use mqtt_linak.Config.{Config}
use mqtt_linak.Topics.{Numbers}
use mqtt_linak.Desk.Run.{Reply}
use mqtt_linak.System.{SystemEvent, finish, new_system, system_run}
use mqtt_linak.System.Closing.{system_run-append}
use mqtt_linak.System.Shutdown.{shutdown, system_run-returned}
use mqtt_linak.Run.{RunCall, start_helper, close_helper, gives, run_bridge}
use mqtt_linak.Run.Ways.{KeepsHelper, served, run_bridge-Ways}

module _ (c : Config) {F E : Type 0} (nums : Numbers F) (start : Text → Option E) where
  -- The calls up to the last one, which closes the helper.
  abbrev pub ClosesLast : List RunCall → Type 0
  ClosesLast calls =
      (before : List RunCall) × All KeepsHelper before × (calls ≡ before ++ close_helper ∷ [])

  -- If the helper starts, then whatever the program goes through, once its context has ended `Run`
  -- returns without an error in the schedule of the shutdown, in which each desk gets at least
  -- thirteen answers to the calls that it waits for; and it has closed the helper, once, and as the
  -- last of all its calls.
  pub run_bridge-completes :
      (es : List SystemEvent) (answers : List (Reply × ℕ))
      → start c.bluetooth.helper_path ≡ none
      → 13 ≤ length answers
      → let s = (system_run c nums (new_system c) (es ++ finish ∷ [])).0 in
        let r = run_bridge c nums start ((es ++ finish ∷ []) ++ shutdown c nums answers s) in
        (r.1 ≡ gives tt) × ClosesLast r.0
  run_bridge-completes es answers works enough =
      let s = (system_run c nums (new_system c) (es ++ finish ∷ [])).0 in
      let whole = (es ++ finish ∷ []) ++ shutdown c nums answers s in
      let over : (system_run c nums (new_system c) whole).0.returned ≡ true =
        ap (λ t. t.returned)
          (system_run-append c nums (new_system c) (es ++ finish ∷ []) (shutdown c nums answers s))
        ∙ system_run-returned c nums es answers enough in
      elim (run_bridge-Ways c nums start whole) [
        | inl (e, fails, r) ↦ absurd (cc (works, fails))
        | inr (_, keeps, inl (n, r)) ↦ absurd (cc (over, n))
        | inr (_, keeps, inr (y, r)) ↦ (
          ap (λ x. x.1) r,
          (
            start_helper c.bluetooth.helper_path ∷ served c nums start whole,
            (tt, keeps),
            ap (λ x. x.0) r,
          ),
        )
      ]
