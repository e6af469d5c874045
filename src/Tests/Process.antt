-- ===== src/Tests/Process.antt =====
-- The process with RTDS disabled, at a policy that is switched.
use shedpilot.Common.{◌≡◌, refl, true, false, [], ◌∷◌}
use shedpilot.Process.{Flags, Calls, default_flags, main, world_of, main-without_rtds}
use shedpilot.Controller.Reconcile.Runs.{after_reconciles}
use shedpilot.Tests.Thousandths.{thousandths}
use shedpilot.Tests.Rtds.{at_start}
use shedpilot.Tests.Reconcile.{firing, manager}

abbrev without_rtds : Flags
without_rtds = record default_flags { enable_rtds = false }

abbrev all_fine : Calls
all_fine = record {
  makes_manager = λ options. true;
  sets_up = true;
  adds_healthz = true;
  adds_readyz = true;
  runs = true;
}

main-without_rtds_example :
    world_of at_start
      (main without_rtds all_fine at_start manager.objects
        (λ m. after_reconciles m ((firing true, "production/payments") ∷ []))).1
    ≡ at_start
main-without_rtds_example =
    main-without_rtds without_rtds all_fine at_start manager.objects
      ((firing true, "production/payments") ∷ []) refl
