-- ===== src/Server/Lifecycle/Overwritten.antt =====
-- The variable `err` of `Serve`, which the reporter writes too (server/server.go).
use kustomer.Server.Lifecycle.{MainPc, Lifecycle, signals_wait, returned}

-- `Serve` has left the loop on errors and signals, and has not returned.
abbrev pub IsShuttingDown : MainPc → Type 0
IsShuttingDown signals_wait = ⊥
IsShuttingDown (returned r) = ⊥
IsShuttingDown _ = Unit
