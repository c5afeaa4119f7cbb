-- ===== src/Server/Serve.antt =====
-- The goroutines of `Serve` (server/server.go) as one system: the JWKS refresher, the loader of the
-- licenses, the reporter and the loop on signals, with the channels and the mutex that they share.
-- What a fetch, a scan or a signal brings is part of the move. A section under the read lock, and
-- the loader's section under the write lock, is one move, since nothing in it blocks.
mod Tests
pub mod Invariant
pub mod Safety
pub mod Deadlock
pub mod Scans
pub mod Rounds
pub mod Reporter
pub mod Watch
use kustomer.Common.{
  ◌≡◌, ℕ, ◌+◌, Bool, true, false, not, ◌&&◌, ◌||◌, Option, none, some, List, [], ◌∷◌, ltb, ◌==◌,
  if◌then◌else◌,
}

pub data JwksPc : Type 0 where
  begin fetching sending unlocking announcing sleeping jwks_stopped : JwksPc

-- The number is the count of scans when a reload request was taken, if the loader serves one; a
-- `committed` or `closing` loader holds the old `updateCh`.
pub data LoaderPc : Type 0 where
  waiting idle loader_stopped : LoaderPc
  draining beginning scanning finishing : Option ℕ → LoaderPc
  committed closing : ℕ → Option ℕ → LoaderPc

-- The reporter holds an `updateCh` that it waits on, or that has woken it.
pub data ReporterPc : Type 0 where
  subscribing reporter_stopped : ReporterPc
  watching reading : ℕ → ReporterPc

-- `locked` says that the refresher holds the mutex, `triggered` that `triggerCh` holds a value.
-- `ready_ch` and `ready` count how often the local and the server's `readyCh` have been closed.
-- The key sets, scans and channels `updateCh` are numbered; `s.claims` have the number of the
-- channel that is made with them. `keys` is the set of the last scan, `reported` the claims that
-- the reporter has last read. `answers` has, for each reload request that is answered, the count
-- of scans when it was taken and when it was answered.
pub record System : Type 0 where
  pub jwks_pc : JwksPc
  pub loader : LoaderPc
  pub reporter : ReporterPc
  pub locked : Bool
  pub triggered : Bool
  pub cancelled : Bool
  pub started : Bool
  pub first : Bool
  pub ready_ch : ℕ
  pub ready : ℕ
  pub jwks : ℕ
  pub keys : ℕ
  pub scans : ℕ
  pub update_ch : ℕ
  pub closed : List ℕ
  pub reported : ℕ
  pub answers : List (ℕ × ℕ)

abbrev pub initial : System
initial = record {
  jwks_pc = begin;
  loader = waiting;
  reporter = subscribing;
  locked = false;
  triggered = false;
  cancelled = false;
  started = false;
  first = true;
  ready_ch = 0;
  ready = 0;
  jwks = 0;
  keys = 0;
  scans = 0;
  update_ch = 0;
  closed = [];
  reported = 0;
  answers = [];
}

when : Bool → System → Option System
when b s = if b then some s else none

-- `fetched` says whether `Update` returns a key set and no error.
pub data JwksMove : Type 0 where
  configure : Bool → JwksMove
  fetched : Bool → JwksMove
  send unlock announce refresh_due stop_jwks : JwksMove

store_set : Bool → System → System
store_set new s = record s {
  locked = true;
  jwks = if new then s.jwks + 1 else s.jwks;
  jwks_pc = if new && s.started then sending else unlocking;
}

unfoldable pub jwks_step : JwksMove → JwksPc → System → Option System
unfolding when store_set
jwks_step (configure uris) begin s = some (
    if uris
    then record s { jwks_pc = fetching }
    else record s { ready_ch = s.ready_ch + 1; jwks_pc = jwks_stopped })
jwks_step (fetched new) fetching s = when (not s.locked) (store_set new s)
jwks_step send sending s =
    when (not s.triggered) (record s { triggered = true; jwks_pc = unlocking })
jwks_step unlock unlocking s =
    some (record s { locked = false; jwks_pc = if s.started then sleeping else announcing })
jwks_step announce announcing s =
    some (record s { ready_ch = s.ready_ch + 1; started = true; jwks_pc = sleeping })
jwks_step refresh_due sleeping s = some (record s { jwks_pc = fetching })
jwks_step stop_jwks sleeping s = when s.cancelled (record s { jwks_pc = jwks_stopped })
jwks_step _ _ s = none

pub data LoaderMove : Type 0 where
  go_ready take_reload take_trigger timer drain read_server unchanged commit announce_first
        close_update finish stop_loader :
      LoaderMove

take_first : System → System
take_first s = record s { ready = if s.first then s.ready + 1 else s.ready; first = false }

unfoldable pub loader_step : LoaderMove → LoaderPc → System → Option System
unfolding when take_first
loader_step go_ready waiting s = when (ltb 0 s.ready_ch) (record s { loader = draining none })
loader_step take_reload idle s = some (record s { loader = draining (some s.scans) })
loader_step take_trigger idle s =
    when s.triggered (record s { triggered = false; loader = beginning none })
loader_step timer idle s = some (record s { loader = draining none })
loader_step drain (draining cb) s = some (record s { triggered = false; loader = beginning cb })
loader_step read_server (beginning cb) s =
    when (not s.locked) (record s { keys = s.jwks; scans = s.scans + 1; loader = scanning cb })
loader_step unchanged (scanning cb) s = when (not s.first) (record s { loader = finishing cb })
loader_step commit (scanning cb) s =
    when (not s.locked)
      (record s { update_ch = s.update_ch + 1; loader = committed s.update_ch cb })
loader_step announce_first (committed old cb) s =
    some (record (take_first s) { loader = closing old cb })
loader_step close_update (closing old cb) s =
    some (record s { closed = old ∷ s.closed; loader = finishing cb })
loader_step finish (finishing none) s = some (record s { loader = idle })
loader_step finish (finishing (some taken)) s =
    some (record s { answers = (taken, s.scans) ∷ s.answers; loader = idle })
loader_step stop_loader waiting s = when s.cancelled (record s { loader = loader_stopped })
loader_step stop_loader idle s = when s.cancelled (record s { loader = loader_stopped })
loader_step _ _ s = none

unfoldable pub is_closed : ℕ → List ℕ → Bool
is_closed c [] = false
is_closed c (d ∷ ds) = c == d || is_closed c ds

pub data ReporterMove : Type 0 where
  subscribe wake read_claims stop_reporter : ReporterMove

unfoldable pub reporter_step : ReporterMove → ReporterPc → System → Option System
unfolding when
reporter_step subscribe subscribing s =
    when (not s.locked) (record s { reporter = watching s.update_ch })
reporter_step wake (watching c) s = when (is_closed c s.closed) (record s { reporter = reading c })
reporter_step read_claims (reading c) s =
    when (not s.locked) (record s { reported = s.update_ch; reporter = subscribing })
reporter_step stop_reporter (watching c) s =
    when s.cancelled (record s { reporter = reporter_stopped })
reporter_step _ _ s = none

-- `hangup` is SIGHUP: the send on `triggerCh` does not block. `cancel` is the end of `serveCtx`.
pub data Move : Type 0 where
  by_jwks : JwksMove → Move
  by_loader : LoaderMove → Move
  by_reporter : ReporterMove → Move
  hangup cancel : Move

unfoldable pub step : Move → System → Option System
step (by_jwks m) s = jwks_step m s.jwks_pc s
step (by_loader m) s = loader_step m s.loader s
step (by_reporter m) s = reporter_step m s.reporter s
step hangup s = some (record s { triggered = true })
step cancel s = some (record s { cancelled = true })

-- The states after any moves, one after the other.
pub data Reach (s : System) : System → Type 0 where
  start : Reach s s
  after : {t u : System} (m : Move) → Reach s t → step m t ≡ some u → Reach s u
