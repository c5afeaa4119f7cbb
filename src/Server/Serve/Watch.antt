-- ===== src/Server/Serve/Watch.antt =====
-- A watch of the claims (`MakeClaimsWatchHandler`, server/handlers.go) beside the goroutines of
-- `Serve` (server/server.go).
pub mod Told
pub mod Wakes
use kustomer.Common.{ℕ, Bool, true, false, Option, none, some, List, [], ◌∷◌, ◌≡◌, if◌then◌else◌}
use kustomer.Server.Handlers.{Event, hello, claims_updated}
use kustomer.Server.Serve.{System, is_closed, Move, step}

-- A `blocked` watch waits on an `updateCh`, which has woken it when it is `telling`.
pub data WatchPc : Type 0 where
  greeting picking ticking left : WatchPc
  blocked telling : ℕ → WatchPc

-- The events that have been written, the last one first.
pub record WatchState : Type 0 where
  pub system : System
  pub pc : WatchPc
  pub written : List Event

abbrev pub watch_from : System → WatchState
watch_from s = record { system = s; pc = greeting; written = [] }

-- `write` says whether the event can be written. `leave` is the end of the request, or `closeCh`.
pub data WatchMove : Type 0 where
  write : Bool → WatchMove
  pick wake timer leave : WatchMove

write_event : Bool → Event → WatchState → WatchState
write_event ok e w =
    if ok then record w { pc = picking; written = e ∷ w.written } else record w { pc = left }

unfoldable pub watch_step : WatchMove → WatchPc → WatchState → Option WatchState
unfolding write_event
watch_step (write ok) greeting w = some (write_event ok hello w)
watch_step pick picking w =
    if w.system.locked then none else some (record w { pc = blocked w.system.update_ch })
watch_step wake (blocked c) w =
    if is_closed c w.system.closed then some (record w { pc = telling c }) else none
watch_step timer (blocked c) w = some (record w { pc = ticking })
watch_step leave (blocked c) w = some (record w { pc = left })
watch_step (write ok) (telling c) w = some (write_event ok claims_updated w)
watch_step (write ok) ticking w = some (write_event ok hello w)
watch_step _ _ w = none

on_system : Option System → WatchState → Option WatchState
on_system none w = none
on_system (some s) w = some (record w { system = s })

pub data JointMove : Type 0 where
  by_system : Move → JointMove
  by_watch : WatchMove → JointMove

unfoldable pub joint_step : JointMove → WatchState → Option WatchState
unfolding on_system
joint_step (by_system m) w = on_system (step m w.system) w
joint_step (by_watch m) w = watch_step m w.pc w

-- The states after any moves of the server and of the watch.
pub data Watches (w : WatchState) : WatchState → Type 0 where
  opened : Watches w w
  moved : {u v : WatchState} (m : JointMove) → Watches w u → joint_step m u ≡ some v → Watches w v
