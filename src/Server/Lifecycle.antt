-- ===== src/Server/Lifecycle.antt =====
-- The end of `Serve` (server/server.go): the loop on errors and signals, the shutdown behind it, the
-- goroutine of the HTTP listener, and what the reporter sends on `errCh`. What the shutdown does to
-- the other goroutines is the end of their context.
mod Tests
pub mod Bounds
pub mod Ends
pub mod Overwritten
use kustomer.Common.{
  ℕ, ◌+◌, Bool, true, false, Option, none, some, List, [], ◌∷◌, ◌++◌, ◌≡◌, ltb, ◌==◌, length,
  if◌then◌else◌,
}

-- `client_failed` is what is sent of `survey_failed`, an error of `autosurvey.Start`.
pub data Failure : Type 0 where
  listener_failed client_failed survey_failed : Failure

-- SIGHUP, or SIGINT and SIGTERM.
pub data Signal : Type 0 where
  hangup terminate : Signal

-- A value of the variable `err` of `Serve`.
pub data Result : Type 0 where
  no_error : Result
  failure : Failure → Result

-- `signals_wait` is the loop on errors and signals. `exit_wait` and `exit_pause` are the two `select`
-- statements of the loop that waits for the listener.
pub data MainPc : Type 0 where
  signals_wait closing shutting_down cancelling exit_wait exit_pause : MainPc
  returned : Result → MainPc

pub data ListenerPc : Type 0 where
  accepting failing ending ended : ListenerPc

-- The reporter starts the survey client once.
pub data ClientPc : Type 0 where
  standby failed_start started : ClientPc

-- `err_ch` and `signal_ch` hold what has been sent and not received; `close_ch` and `exit_ch` count
-- how often the channels have been closed. `err`
-- is a variable that the reporter writes too.
pub record Lifecycle : Type 0 where
  pub main : MainPc
  pub listener : ListenerPc
  pub client : ClientPc
  pub err : Result
  pub err_ch : List Failure
  pub signal_ch : Option Signal
  pub close_ch : ℕ
  pub exit_ch : ℕ
  pub cancelled : Bool

abbrev pub started_up : Lifecycle
started_up = record {
  main = signals_wait;
  listener = accepting;
  client = standby;
  err = no_error;
  err_ch = [];
  signal_ch = none;
  close_ch = 0;
  exit_ch = 0;
  cancelled = false;
}

-- The capacity of `errCh`.
abbrev pub err_capacity : ℕ
err_capacity = 2

-- A send on `errCh`, which waits for room.
pub send_err : Failure → Lifecycle → Option Lifecycle
send_err e s =
    if ltb (length s.err_ch) err_capacity
    then some (record s { err_ch = s.err_ch ++ e ∷ [] })
    else none

pub data ListenerMove : Type 0 where
  serve_returns send_failure close_exit : ListenerMove

to_listener : ListenerPc → Option Lifecycle → Option Lifecycle
to_listener pc none = none
to_listener pc (some s) = some (record s { listener = pc })

-- `Serve` of net/http always returns an error.
unfoldable pub listener_step : ListenerMove → ListenerPc → Lifecycle → Option Lifecycle
unfolding to_listener send_err
listener_step serve_returns accepting s = some (record s { listener = failing })
listener_step send_failure failing s = to_listener ending (send_err listener_failed s)
listener_step close_exit ending s = some (record s { exit_ch = s.exit_ch + 1; listener = ended })
listener_step _ _ s = none

-- Whether `autosurvey.Start` fails is part of the move; what it returns becomes `err`.
pub data ClientMove : Type 0 where
  start_client : Bool → ClientMove
  send_client_failure : ClientMove

to_client : ClientPc → Option Lifecycle → Option Lifecycle
to_client pc none = none
to_client pc (some s) = some (record s { client = pc })

unfoldable pub client_step : ClientMove → ClientPc → Lifecycle → Option Lifecycle
unfolding to_client send_err
client_step (start_client fails) standby s = some (record s {
  err = if fails then failure survey_failed else no_error;
  client = if fails then failed_start else started;
})
client_step send_client_failure failed_start s = to_client started (send_err client_failed s)
client_step _ _ s = none

pub data MainMove : Type 0 where
  take_error take_signal close_channel shutdown cancel_context see_exit no_exit pause
        second_signal :
      MainMove

take_first_error : List Failure → Lifecycle → Option Lifecycle
take_first_error [] s = none
take_first_error (e ∷ rest) s = some (record s { err_ch = rest; err = failure e; main = closing })

-- The send on `triggerCh` at a SIGHUP is a move of the other model.
on_signal : Option Signal → Lifecycle → Option Lifecycle
on_signal none s = none
on_signal (some hangup) s = some (record s { signal_ch = none })
on_signal (some terminate) s = some (record s { signal_ch = none; err = no_error; main = closing })

return_on : Option Signal → Lifecycle → Option Lifecycle
return_on none s = none
return_on (some _) s = some (record s { signal_ch = none; main = returned s.err })

-- `shutdown` returns at the latest when its context times out.
unfoldable pub main_step : MainMove → MainPc → Lifecycle → Option Lifecycle
unfolding take_first_error on_signal return_on
main_step take_error signals_wait s = take_first_error s.err_ch s
main_step take_signal signals_wait s = on_signal s.signal_ch s
main_step close_channel closing s =
    some (record s { close_ch = s.close_ch + 1; main = shutting_down })
main_step shutdown shutting_down s = some (record s { main = cancelling })
main_step cancel_context cancelling s = some (record s { cancelled = true; main = exit_wait })
main_step see_exit exit_wait s =
    if ltb 0 s.exit_ch then some (record s { main = returned s.err }) else none
main_step no_exit exit_wait s =
    if ltb 0 s.exit_ch then none else some (record s { main = exit_pause })
main_step pause exit_pause s = some (record s { main = exit_wait })
main_step second_signal exit_pause s = return_on s.signal_ch s
main_step _ _ s = none

-- `signal.Notify` drops a signal that the channel has no room for.
receive : Signal → Option Signal → Option Signal
receive sig none = some sig
receive sig (some old) = some old

pub data LifeMove : Type 0 where
  by_main : MainMove → LifeMove
  by_listener : ListenerMove → LifeMove
  by_client : ClientMove → LifeMove
  signal : Signal → LifeMove

unfoldable pub life_step : LifeMove → Lifecycle → Option Lifecycle
unfolding receive
life_step (by_main m) s = main_step m s.main s
life_step (by_listener m) s = listener_step m s.listener s
life_step (by_client m) s = client_step m s.client s
life_step (signal sig) s = some (record s { signal_ch = receive sig s.signal_ch })

-- The states after any moves, one after the other.
pub data Lives (s : Lifecycle) : Lifecycle → Type 0 where
  begins : Lives s s
  goes_on : {t u : Lifecycle} (m : LifeMove) → Lives s t → life_step m t ≡ some u → Lives s u
