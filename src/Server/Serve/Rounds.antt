-- ===== src/Server/Serve/Rounds.antt =====
-- A whole round of the refresher of `Serve` (server/server.go), as moves.
use kustomer.Common.{
  ◌+◌, Bool, true, false, ◌&&◌, ◌||◌, some, List, [], ◌∷◌, ◌≡◌, arith, if◌then◌else◌,
}
use kustomer.Server.Serve.{
  System, Move, JwksMove, fetching, sleeping, step, jwks_step, store_set, when,
}
use kustomer.Server.Serve.Deadlock.{run}

-- The moves of one round, for `started` and whether there is a new set.
abbrev pub round_moves : Bool → Bool → List Move
round_moves true true =
    Move.by_jwks (JwksMove.fetched true)
    ∷ Move.by_jwks JwksMove.send
    ∷ Move.by_jwks JwksMove.unlock
    ∷ []
round_moves true false = Move.by_jwks (JwksMove.fetched false) ∷ Move.by_jwks JwksMove.unlock ∷ []
round_moves false new =
    Move.by_jwks (JwksMove.fetched new)
    ∷ Move.by_jwks JwksMove.unlock
    ∷ Move.by_jwks JwksMove.announce
    ∷ []

abbrev pub round_over : Bool → Bool → System → System
round_over started new s = record s {
  jwks_pc = sleeping;
  started = true;
  locked = false;
  triggered = s.triggered || (new && started);
  jwks = if new then s.jwks + 1 else s.jwks;
  ready_ch = if started then s.ready_ch else s.ready_ch + 1;
}

pub run-round :
    (started new : Bool) (s : System)
    → s.jwks_pc ≡ fetching
    → s.locked ≡ false
    → s.started ≡ started
    → (s.triggered && (new && started)) ≡ false
    → run (round_moves started new) s ≡ some (round_over started new s)
unfolding run step jwks_step store_set when
run-round true true s p l e w = ground arith
run-round true false s p l e w = ground arith
run-round false true s p l e w = ground arith
run-round false false s p l e w = ground arith
