-- ===== src/Server/Serve/Watch/Told.antt =====
-- What a watch is told of the updates of the claims (server/handlers.go, server/server.go).
use kustomer.Common.{
  ℕ, suc, ◌+◌, ◌≤◌, ◌<◌, true, some, List, [], ◌∷◌, ◌≡◌, sym, arith, Option-cases, inl, inr, subst,
}
use kustomer.Server.Handlers.{Event, hello, claims_updated}
use kustomer.Server.Serve.{
  System, initial, when, store_set, take_first, jwks_step, loader_step, reporter_step, is_closed,
  Move, step, Reach,
}
use kustomer.Server.Serve.Invariant.{Invariant, reach-Invariant, step-Invariant}
use kustomer.Server.Serve.Reporter.{woken}
use kustomer.Server.Serve.Watch.{
  WatchPc, WatchState, watch_from, WatchMove, write_event, watch_step, on_system, JointMove,
  joint_step, Watches, opened, moved, blocked, telling,
}

abbrev pub updates : List Event → ℕ
updates [] = 0
updates (hello ∷ es) = updates es
updates (claims_updated ∷ es) = suc (updates es)

-- The updates before the watch, and those it has been told, are not newer than the channel it holds.
abbrev TellsOk : ℕ → WatchPc → ℕ → ℕ → Type 0
TellsOk n (blocked c) told now = (n + told ≤ c) × (c ≤ now)
TellsOk n (telling c) told now = (n + told ≤ c) × (c < now)
TellsOk n _ told now = n + told ≤ now

pub record WatchOk (n : ℕ) (w : WatchState) : Type 0 where
  pub invariant : Invariant w.system
  tells_ok : TellsOk n w.pc (updates w.written) w.system.update_ch

update_ch_grows : (m : Move) (s t : System) → step m s ≡ some t → s.update_ch ≤ t.update_ch
unfolding step jwks_step loader_step reporter_step when store_set take_first
update_ch_grows m s t e = ground arith

TellsOk-later :
    (n : ℕ) (pc : WatchPc) (told now later : ℕ)
    → now ≤ later
    → TellsOk n pc told now
    → TellsOk n pc told later
TellsOk-later n pc told now later le h = ground arith

watch_step-TellsOk :
    (n : ℕ) (m : WatchMove) (pc : WatchPc) (w v : WatchState)
    → watch_step m pc w ≡ some v
    → Invariant w.system
    → TellsOk n pc (updates w.written) w.system.update_ch
    → (v.system ≡ w.system) × TellsOk n v.pc (updates v.written) w.system.update_ch
unfolding watch_step write_event
watch_step-TellsOk n WatchMove.wake (blocked c) w v e i h =
    let newer : is_closed c w.system.closed ≡ true → c < w.system.update_ch = woken w.system c i in
    ground (arith, newer)
watch_step-TellsOk n m pc w v e i h = ground arith

joint_step-WatchOk :
    (n : ℕ) (m : JointMove) (w v : WatchState) → joint_step m w ≡ some v → WatchOk n w → WatchOk n v
unfolding joint_step on_system
joint_step-WatchOk n (JointMove.by_system m) w v e h = elim (Option-cases (step m w.system)) [
  | inl q ↦ absurd (ground arith)
  | inr (s, q) ↦
      let same : v ≡ record w { system = s } = ground arith in
      subst (WatchOk n) (sym same) (record {
        invariant = step-Invariant m w.system s q h.invariant;
        tells_ok =
            TellsOk-later n w.pc (updates w.written) w.system.update_ch s.update_ch
              (update_ch_grows m w.system s q) h.tells_ok;
      })
]
joint_step-WatchOk n (JointMove.by_watch m) w v e h =
    let (same, tells) = watch_step-TellsOk n m w.pc w v e h.invariant h.tells_ok in
    record {
      invariant = subst Invariant (sym same) h.invariant;
      tells_ok =
          subst (λ (s : System). TellsOk n v.pc (updates v.written) s.update_ch) (sym same) tells;
    }

Watches-WatchOk : (n : ℕ) (w v : WatchState) → Watches w v → WatchOk n w → WatchOk n v
Watches-WatchOk n w v opened h = h
Watches-WatchOk n w v (moved {u} m r e) h = joint_step-WatchOk n m u v e (Watches-WatchOk n w u r h)

pub watched :
    (s : System) (w : WatchState)
    → Reach initial s
    → Watches (watch_from s) w
    → WatchOk s.update_ch w
watched s w r run =
    Watches-WatchOk s.update_ch (watch_from s) w run
      (record { invariant = reach-Invariant r; tells_ok = omega arith })

TellsOk-bound : (n : ℕ) (pc : WatchPc) (told now : ℕ) → TellsOk n pc told now → n + told ≤ now
TellsOk-bound n pc told now h = ground arith

-- A watch is opened in a state that the goroutines of `Serve` reach, and it and they go on with any
-- moves: it never writes more `claims-updated` events than the loader has stored new claims since
-- it was opened.
pub Watches-updates :
    (s : System) (w : WatchState)
    → Reach initial s
    → Watches (watch_from s) w
    → s.update_ch + updates w.written ≤ w.system.update_ch
Watches-updates s w r run = TellsOk-bound _ w.pc _ _ (watched s w r run).tells_ok
