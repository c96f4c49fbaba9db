-- ===== src/Tests/Runs.antt =====
-- internal/bridge/bridge.go: `Run`, with a helper that starts and with one that does not.
use mqtt_linak.Base.{◌≡◌, refl, Option, none, some, [], ◌∷◌, ◌++◌, Text, All, codes, arith}
use mqtt_linak.System.{finish, new_system, system_run}
use mqtt_linak.System.Shutdown.{shutdown}
use mqtt_linak.Run.{start_helper, fails, starting_helper, gives, run_bridge}
use mqtt_linak.Run.Ways.{Ways, run_bridge-Ways}
use mqtt_linak.Run.Completes.{ClosesLast, run_bridge-completes}
use mqtt_linak.Run.Wills.{LeavesOffline, run_bridge-LeavesOffline}
use mqtt_linak.Tests.Data.{sample, naturals}
use mqtt_linak.Tests.Configs.{sample-IsValid}
use mqtt_linak.Tests.Desks.{refusals}
use mqtt_linak.Tests.Systems.{office_moves}

-- The helper starts.
abbrev helper : Text → Option Text
helper path = none

abbrev no_helper : Text → Option Text
no_helper path = some (codes "no such file")

-- Without it nothing else is asked for.
unstarted :
    run_bridge sample naturals no_helper office_moves
    ≡ (start_helper [] ∷ [], fails (starting_helper (codes "no such file")))
unfolding run_bridge
unstarted = refl

run_bridge-Ways_example :
    Ways sample naturals helper office_moves (run_bridge sample naturals helper office_moves)
run_bridge-Ways_example = run_bridge-Ways sample naturals helper office_moves

run_bridge-completes_example :
    let s = (system_run sample naturals (new_system sample) (office_moves ++ finish ∷ [])).0 in
    let r =
      run_bridge sample naturals helper
        ((office_moves ++ finish ∷ []) ++ shutdown sample naturals refusals s) in
    (r.1 ≡ gives tt) × ClosesLast sample naturals helper r.0
run_bridge-completes_example =
    run_bridge-completes sample naturals helper office_moves refusals refl (omega arith)

run_bridge-LeavesOffline_example :
    All (LeavesOffline sample) (run_bridge sample naturals helper office_moves).0
run_bridge-LeavesOffline_example =
    run_bridge-LeavesOffline sample naturals helper office_moves sample-IsValid
