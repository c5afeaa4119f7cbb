-- ===== src/Server/Serve/Tests.antt =====
-- Runs of the goroutines of `Serve`.
use kustomer.Common.{
  ◌+◌, ◌≤◌, ◌<◌, true, false, none, some, List, [], ◌∷◌, ◌≡◌, refl, arith, All, ◌⊎◌,
}
use kustomer.Server.Serve.{
  JwksMove, LoaderMove, ReporterMove, Move, System, initial, when, store_set, take_first, jwks_step,
  loader_step, reporter_step, step, Reach, sending, sleeping, idle, draining, beginning, watching,
  subscribing, committed, finishing, is_closed,
}
use kustomer.Server.Serve.Safety.{reach-reload_answered, reach-keys_scanned}
use kustomer.Server.Serve.Deadlock.{
  IsStuck, IsStuck-forever, run, run-Reach, CanScan, reach-CanScan,
}
use kustomer.Server.Serve.Reporter.{IsBehind, reach-IsBehind}
use kustomer.Server.Handlers.{hello, claims_updated}
use kustomer.Server.Serve.Watch.{
  WatchState, watch_from, WatchMove, watch_step, JointMove, joint_step, Watches, opened, moved,
  blocked, picking,
}
use kustomer.Server.Serve.Watch.Told.{updates, Watches-updates}
use kustomer.Server.Serve.Watch.Wakes.{Watches-WillTell}

abbrev jwks : JwksMove → Move
jwks m = Move.by_jwks m

abbrev loader : LoaderMove → Move
loader m = Move.by_loader m

-- The first key set is loaded, and the first scan is done.
abbrev start_up : List Move
start_up =
    jwks (JwksMove.configure true)
    ∷ jwks (JwksMove.fetched true)
    ∷ jwks JwksMove.unlock
    ∷ jwks JwksMove.announce
    ∷ loader LoaderMove.go_ready
    ∷ loader LoaderMove.drain
    ∷ loader LoaderMove.read_server
    ∷ loader LoaderMove.commit
    ∷ loader LoaderMove.announce_first
    ∷ loader LoaderMove.close_update
    ∷ loader LoaderMove.finish
    ∷ []

abbrev running : System
running = record {
  jwks_pc = sleeping;
  loader = idle;
  reporter = subscribing;
  locked = false;
  triggered = false;
  cancelled = false;
  started = true;
  first = false;
  ready_ch = 1;
  ready = 1;
  jwks = 1;
  keys = 1;
  scans = 1;
  update_ch = 1;
  closed = 0 ∷ [];
  reported = 0;
  answers = [];
}

running-Reach : Reach initial running
unfolding run step jwks_step loader_step when store_set take_first
running-Reach = run-Reach start_up running Reach.start refl

-- A new key set is stored while the loader is idle.
abbrev renewed : System
renewed = record running { jwks_pc = sending; locked = true; jwks = 2 }

renewed-Reach : Reach initial renewed
unfolding run step jwks_step when store_set
renewed-Reach =
    run-Reach (jwks JwksMove.refresh_due ∷ jwks (JwksMove.fetched true) ∷ []) renewed running-Reach
      refl

-- The same while a scan is about to begin.
abbrev beginning_renewed : System
beginning_renewed = record renewed { loader = beginning none }

beginning_renewed-Reach : Reach initial beginning_renewed
unfolding run step jwks_step loader_step when store_set
beginning_renewed-Reach =
    run-Reach
      (loader LoaderMove.timer
        ∷ loader LoaderMove.drain
        ∷ jwks JwksMove.refresh_due
        ∷ jwks (JwksMove.fetched true)
        ∷ [])
      beginning_renewed running-Reach refl

-- The same, with a SIGHUP in between.
abbrev stuck : System
stuck = record beginning_renewed { triggered = true }

stuck-Reach : Reach initial stuck
unfolding run step jwks_step loader_step when store_set
stuck-Reach =
    run-Reach
      (Move.hangup
        ∷ loader LoaderMove.take_trigger
        ∷ Move.hangup
        ∷ jwks JwksMove.refresh_due
        ∷ jwks (JwksMove.fetched true)
        ∷ [])
      stuck running-Reach refl

stuck-IsStuck : IsStuck none stuck
stuck-IsStuck = record { jwks_sends = refl; jwks_locks = refl; full = refl; loader_waits = refl }

hung_up : Reach stuck (record stuck { cancelled = true })
unfolding run step
hung_up = run-Reach (Move.cancel ∷ []) (record stuck { cancelled = true }) Reach.start refl

IsStuck-forever_example :
    IsStuck none (record stuck { cancelled = true })
    × ((record stuck { cancelled = true }).keys ≡ stuck.keys)
    × ((record stuck { cancelled = true }).reported ≡ stuck.reported)
    × ((record stuck { cancelled = true }).answers ≡ stuck.answers)
IsStuck-forever_example =
    IsStuck-forever none stuck (record stuck { cancelled = true }) stuck-IsStuck hung_up

reach-CanScan_example : IsStuck none beginning_renewed ⊎ CanScan none beginning_renewed
reach-CanScan_example = reach-CanScan none beginning_renewed beginning_renewed-Reach refl

reach-keys_scanned_example :
    ((renewed.triggered ≡ true) ⊎ (renewed.jwks_pc ≡ sending)) × (renewed.ready ≡ 1)
reach-keys_scanned_example = reach-keys_scanned renewed renewed-Reach refl (omega arith)

abbrev reloaded : System
reloaded = record running { scans = 2; answers = (1, 2) ∷ [] }

reloaded-Reach : Reach initial reloaded
unfolding run step loader_step when
reloaded-Reach =
    run-Reach
      (loader LoaderMove.take_reload
        ∷ loader LoaderMove.drain
        ∷ loader LoaderMove.read_server
        ∷ loader LoaderMove.unchanged
        ∷ loader LoaderMove.finish
        ∷ [])
      reloaded running-Reach refl

reach-reload_answered_example : All (λ a. a.0 < a.1) reloaded.answers
reach-reload_answered_example = reach-reload_answered reloaded reloaded-Reach

-- The reporter starts when the first claims are already there.
abbrev late : System
late = record running { reporter = watching 1 }

late-Reach : Reach initial late
unfolding run step reporter_step when
late-Reach = run-Reach (Move.by_reporter ReporterMove.subscribe ∷ []) late running-Reach refl

late-IsBehind : IsBehind 0 late
late-IsBehind = record { waits = refl; last_read = refl; newer = omega arith }

timer_step : step (loader LoaderMove.timer) late ≡ some (record late { loader = draining none })
unfolding step loader_step
timer_step = refl

reach-IsBehind_example : IsBehind 0 (record late { loader = draining none })
reach-IsBehind_example =
    reach-IsBehind 0 (loader LoaderMove.timer) late (record late { loader = draining none })
      late-Reach late-IsBehind timer_step (λ e. cc) (λ e. cc)

-- A watch from `running` on, up to its first pick.
abbrev waits_once : WatchState
waits_once = record { system = running; pc = blocked 1; written = hello ∷ [] }

picked-Watches : Watches (watch_from running) waits_once
unfolding joint_step watch_step
picked-Watches =
    moved (JointMove.by_watch WatchMove.pick)
      (moved (JointMove.by_watch (WatchMove.write true)) opened refl) refl

-- The loader has stored claims and not yet closed the channel.
abbrev stored : System
stored = record running { loader = committed 1 none; scans = 2; update_ch = 2 }

abbrev on_loader : LoaderMove → JointMove
on_loader m = JointMove.by_system (loader m)

abbrev watching_stored : WatchState
watching_stored = record waits_once { system = stored }

stored-Watches : Watches (watch_from running) watching_stored
unfolding joint_step step loader_step when
stored-Watches =
    moved (on_loader LoaderMove.commit)
      (moved (on_loader LoaderMove.read_server)
        (moved (on_loader LoaderMove.drain) (moved (on_loader LoaderMove.timer) picked-Watches refl)
          refl)
        refl)
      refl

Watches-WillTell_example :
    (v : WatchState) × Watches watching_stored v
    × (v.written ≡ claims_updated ∷ watching_stored.written)
Watches-WillTell_example =
    Watches-WillTell running watching_stored 1 running-Reach stored-Watches refl (omega arith)

abbrev told_once : WatchState
told_once = record {
  system = record stored { loader = finishing none; closed = 1 ∷ 0 ∷ [] };
  pc = picking;
  written = claims_updated ∷ hello ∷ [];
}

told_once-Watches : Watches (watch_from running) told_once
unfolding joint_step watch_step step loader_step take_first is_closed
told_once-Watches =
    moved (JointMove.by_watch (WatchMove.write true))
      (moved (JointMove.by_watch WatchMove.wake)
        (moved (on_loader LoaderMove.close_update)
          (moved (on_loader LoaderMove.announce_first) stored-Watches refl) refl)
        refl)
      refl

Watches-updates_example : running.update_ch + updates told_once.written ≤ told_once.system.update_ch
Watches-updates_example = Watches-updates running told_once running-Reach told_once-Watches
