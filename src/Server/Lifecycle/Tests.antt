-- ===== src/Server/Lifecycle/Tests.antt =====
-- Instances of the theorems on the end of `Serve` (server/server.go).
use kustomer.Common.{◌⊎◌, ◌<◌, ◌≤◌, true, ◌≡◌, ◌≢◌, refl}
use kustomer.Server.Lifecycle.{
  listener_failed, survey_failed, hangup, terminate, no_error, failure, exit_wait, returned,
  closing, shutting_down, failing, ending, Result, standby, failed_start, Lifecycle, started_up,
  err_capacity, LifeMove, MainMove, ListenerMove, ClientMove, life_step, Lives, begins, goes_on,
}
use kustomer.Server.Lifecycle.Bounds.{Lives-Fits}
use kustomer.Server.Lifecycle.Ends.{progress, Lives-ends}

-- Both goroutines have failed: the listener has sent its error, the reporter is about to.
abbrev both_fail : Lifecycle
both_fail = record started_up {
  listener = failing;
  client = failed_start;
  err = failure survey_failed;
}

both_fail-Lives : Lives started_up both_fail
unfolding life_step kustomer.Server.Lifecycle.listener_step kustomer.Server.Lifecycle.client_step
both_fail-Lives =
    goes_on (LifeMove.by_client (ClientMove.start_client true))
      (goes_on (LifeMove.by_listener ListenerMove.serve_returns) begins refl) refl

Lives-Fits_example :
    (failing ≡ failing → 0 < err_capacity)
    × (failed_start ≡ failed_start → 0 < err_capacity)
    × (0 ≤ 1)
    × (0 ≤ 1)
Lives-Fits_example = Lives-Fits both_fail both_fail-Lives

abbrev interrupted : Lifecycle
interrupted = record started_up { main = closing }

interrupted-Lives : Lives started_up interrupted
unfolding life_step kustomer.Server.Lifecycle.main_step
interrupted-Lives =
    goes_on (LifeMove.by_main MainMove.take_signal)
      (goes_on (LifeMove.signal terminate) begins refl) refl

-- The listener returns while the main goroutine shuts down.
abbrev halfway : Lifecycle
halfway = record interrupted { main = shutting_down; listener = failing; close_ch = 1 }

halfway-Lives : Lives interrupted halfway
unfolding life_step kustomer.Server.Lifecycle.main_step kustomer.Server.Lifecycle.listener_step
halfway-Lives =
    goes_on (LifeMove.by_listener ListenerMove.serve_returns)
      (goes_on (LifeMove.by_main MainMove.close_channel) begins refl) refl

Lives-ends_example :
    (progress halfway-Lives ≤ 7)
    × (((r : Result) × (shutting_down ≡ returned r))
        ⊎ ((u : Lifecycle) × ((on : Lives halfway u) × (progress on ≡ 1))))
    × (standby ≢ standby → no_error ≡ no_error)
Lives-ends_example = Lives-ends interrupted halfway interrupted-Lives tt halfway-Lives

-- The listener has failed, and `Serve` has received its error.
abbrev failed : Lifecycle
failed = record started_up { main = closing; listener = ending; err = failure listener_failed }
