-- ===== src/Server/Serve/Scans.antt =====
-- A whole scan of the loader of `Serve` (server/server.go), as moves.
use kustomer.Common.{
  ℕ, ◌+◌, false, Option, none, some, List, [], ◌∷◌, ◌≡◌, refl, ap, ◌∙◌, arith, if◌then◌else◌,
}
use kustomer.Server.Serve.{
  System, Move, LoaderMove, step, loader_step, when, take_first, beginning, scanning, committed,
  finishing,
}
use kustomer.Server.Serve.Deadlock.{run}

run_none : (s : System) → run [] s ≡ some s
unfolding run
run_none s = refl

run-step :
    (m : Move) (ms : List Move) (s t : System) → step m s ≡ some t → run (m ∷ ms) s ≡ run ms t
unfolding run
run-step m ms s t e = ap (λ o. elim o [ none ↦ none | some v ↦ run ms v ]) e

abbrev pub unchanged_moves : List Move
unchanged_moves = Move.by_loader LoaderMove.read_server ∷ Move.by_loader LoaderMove.unchanged ∷ []

abbrev pub changed_moves : List Move
changed_moves =
    Move.by_loader LoaderMove.read_server
    ∷ Move.by_loader LoaderMove.commit
    ∷ Move.by_loader LoaderMove.announce_first
    ∷ Move.by_loader LoaderMove.close_update
    ∷ []

abbrev pub scanned : Option ℕ → System → System
scanned cb s = record s { keys = s.jwks; scans = s.scans + 1; loader = scanning cb }

pub run-unchanged :
    (cb : Option ℕ) (s : System)
    → s.loader ≡ beginning cb
    → s.locked ≡ false
    → s.first ≡ false
    → run unchanged_moves s ≡ some (record (scanned cb s) { loader = finishing cb })
unfolding step loader_step when
run-unchanged cb s l k f =
    run-step (Move.by_loader LoaderMove.read_server) (Move.by_loader LoaderMove.unchanged ∷ []) s
      (scanned cb s) (ground arith)
    ∙ run-step (Move.by_loader LoaderMove.unchanged) [] (scanned cb s)
        (record (scanned cb s) { loader = finishing cb }) (ground (arith, f))
    ∙ run_none _

abbrev pub told : Option ℕ → System → System
told cb s = record (scanned cb s) {
  update_ch = s.update_ch + 1;
  ready = if s.first then s.ready + 1 else s.ready;
  first = false;
  closed = s.update_ch ∷ s.closed;
  loader = finishing cb;
}

pub run-changed :
    (cb : Option ℕ) (s : System)
    → s.loader ≡ beginning cb
    → s.locked ≡ false
    → run changed_moves s ≡ some (told cb s)
unfolding step loader_step when take_first run
run-changed cb s l k =
    run-step (Move.by_loader LoaderMove.read_server)
      (Move.by_loader LoaderMove.commit
        ∷ Move.by_loader LoaderMove.announce_first
        ∷ Move.by_loader LoaderMove.close_update
        ∷ [])
      s (scanned cb s) (ground arith)
    ∙ run-step (Move.by_loader LoaderMove.commit)
        (Move.by_loader LoaderMove.announce_first ∷ Move.by_loader LoaderMove.close_update ∷ [])
        (scanned cb s)
        (record (scanned cb s) { update_ch = s.update_ch + 1; loader = committed s.update_ch cb })
        (ground (arith, k))
    ∙ refl
