-- ===== src/Server/Serve/Watch/Wakes.antt =====
-- How a watch is woken by an update of the claims (server/handlers.go, server/server.go).
use kustomer.Common.{ℕ, zero, suc, ◌≤◌, ◌<◌, true, Option, some, ◌∷◌, ◌≡◌, refl, ap, ◌∙◌, arith}
use kustomer.Server.Handlers.{claims_updated}
use kustomer.Server.Serve.{
  System, LoaderPc, LoaderMove, initial, take_first, loader_step, is_closed, Move, step, Reach,
  committed, closing, finishing, waiting, idle, loader_stopped, draining, beginning, scanning,
}
use kustomer.Server.Serve.Invariant.{below, ClosedOk}
use kustomer.Server.Serve.Watch.{
  WatchState, watch_from, WatchMove, write_event, watch_step, on_system, JointMove, joint_step,
  Watches, opened, moved, picking, blocked, telling,
}
use kustomer.Server.Serve.Watch.Told.{watched}

-- Some moves write the event of an update.
abbrev WillTell : WatchState → Type 0
WillTell w = (v : WatchState) × Watches w v × (v.written ≡ claims_updated ∷ w.written)

Watches-trans : (u v w : WatchState) → Watches u v → Watches v w → Watches u w
Watches-trans u v w r opened = r
Watches-trans u v w r (moved {u = z} m q e) = moved m (Watches-trans u v z r q) e

WillTell-later :
    (m : JointMove) (w v : WatchState)
    → joint_step m w ≡ some v
    → v.written ≡ w.written
    → WillTell v
    → WillTell w
WillTell-later m w v e same (u, run, told) =
    (u, Watches-trans w v u (moved m opened e) run, told ∙ ap (λ es. claims_updated ∷ es) same)

telling-WillTell : (c : ℕ) (w : WatchState) → w.pc ≡ telling c → WillTell w
unfolding joint_step watch_step write_event
telling-WillTell c w p = (
  record w { pc = picking; written = claims_updated ∷ w.written },
  moved (JointMove.by_watch (WatchMove.write true)) opened (ground arith),
  refl,
)

closed-WillTell :
    (c : ℕ) (w : WatchState) → w.pc ≡ blocked c → is_closed c w.system.closed ≡ true → WillTell w
unfolding joint_step watch_step
closed-WillTell c w p e =
    WillTell-later (JointMove.by_watch WatchMove.wake) w (record w { pc = telling c })
      (ground arith) refl (telling-WillTell c _ refl)

below_closed : (n c : ℕ) → c < n → is_closed c (below n) ≡ true
unfolding is_closed
below_closed zero c h = absurd (omega (arith, h))
below_closed (suc n) c h = ground (arith, below_closed n c)

-- The loader closes the channel that it has replaced.
closing-WillTell :
    (old c : ℕ) (cb : Option ℕ) (w : WatchState)
    → w.pc ≡ blocked c
    → w.system.loader ≡ closing old cb
    → w.system.closed ≡ below old
    → c ≤ old
    → WillTell w
unfolding joint_step on_system step loader_step is_closed
closing-WillTell old c cb w p l e le =
    WillTell-later (JointMove.by_system (Move.by_loader LoaderMove.close_update)) w
      (record w {
        system = record w.system { closed = old ∷ w.system.closed; loader = finishing cb };
      })
      (ground arith) refl
      (closed-WillTell c _ p (rw e (below_closed (suc old) c (omega (arith, le)))))

committed-WillTell :
    (old c : ℕ) (cb : Option ℕ) (w : WatchState)
    → w.pc ≡ blocked c
    → w.system.loader ≡ committed old cb
    → w.system.closed ≡ below old
    → c ≤ old
    → WillTell w
unfolding joint_step on_system step loader_step take_first
committed-WillTell old c cb w p l e le =
    WillTell-later (JointMove.by_system (Move.by_loader LoaderMove.announce_first)) w
      (record w { system = record (take_first w.system) { loader = closing old cb } })
      (ground arith) refl (closing-WillTell old c cb _ p refl e le)

settled-WillTell :
    (c : ℕ) (w : WatchState)
    → w.pc ≡ blocked c
    → w.system.closed ≡ below w.system.update_ch
    → c < w.system.update_ch
    → WillTell w
settled-WillTell c w p e lt = closed-WillTell c w p (rw e (below_closed _ c lt))

ClosedOk-WillTell :
    (pc : LoaderPc) (c : ℕ) (w : WatchState)
    → w.system.loader ≡ pc
    → ClosedOk pc w.system
    → w.pc ≡ blocked c
    → c < w.system.update_ch
    → WillTell w
ClosedOk-WillTell (committed old cb) c w l (n, e) p lt =
    committed-WillTell old c cb w p l e (omega (arith, n, lt))
ClosedOk-WillTell (closing old cb) c w l (n, e) p lt =
    closing-WillTell old c cb w p l e (omega (arith, n, lt))
ClosedOk-WillTell waiting c w l e p lt = settled-WillTell c w p e lt
ClosedOk-WillTell idle c w l e p lt = settled-WillTell c w p e lt
ClosedOk-WillTell loader_stopped c w l e p lt = settled-WillTell c w p e lt
ClosedOk-WillTell (draining cb) c w l e p lt = settled-WillTell c w p e lt
ClosedOk-WillTell (beginning cb) c w l e p lt = settled-WillTell c w p e lt
ClosedOk-WillTell (scanning cb) c w l e p lt = settled-WillTell c w p e lt
ClosedOk-WillTell (finishing cb) c w l e p lt = settled-WillTell c w p e lt

-- A watch is opened in a state that the goroutines of `Serve` reach, and it and they go on with any
-- moves. Whenever the watch waits on an `updateCh` that the loader has since replaced, some moves
-- lead to a state where it has written one more `claims-updated` as its next event.
pub Watches-WillTell :
    (s : System) (w : WatchState) (c : ℕ)
    → Reach initial s
    → Watches (watch_from s) w
    → w.pc ≡ blocked c
    → c < w.system.update_ch
    → (v : WatchState) × Watches w v × (v.written ≡ claims_updated ∷ w.written)
Watches-WillTell s w c r run p lt =
    ClosedOk-WillTell w.system.loader c w refl (watched s w r run).invariant.closed_ok p lt
