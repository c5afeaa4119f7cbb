-- ===== src/Server/Serve/Reporter.antt =====
-- What the reporter of `Serve` (server/server.go) sees of the claims that the loader stores.
use kustomer.Common.{ℕ, zero, suc, ◌<◌, true, some, ◌≡◌, ◌≢◌, arith}
use kustomer.Server.Serve.{
  ReporterPc, System, initial, when, store_set, jwks_step, LoaderMove, take_first, loader_step,
  is_closed, ReporterMove, reporter_step, Move, step, Reach, subscribing, reporter_stopped,
  watching, reading,
}
use kustomer.Server.Serve.Safety.{reach-closes_once, closed_falls}
use kustomer.Server.Serve.Invariant.{Invariant, reach_inv, reach-Invariant, below, step-Invariant}

-- The reporter waits for the next claims and has not read the present ones.
pub record IsBehind (n : ℕ) (s : System) : Type 0 where
  pub waits : s.reporter ≡ watching s.update_ch
  pub last_read : s.reported ≡ n
  pub newer : n < s.update_ch

-- In a state that the goroutines of `Serve` reach, where the reporter waits on the present
-- `updateCh` and the claims that it has last read are older than the present ones: this is still so
-- after any one move but the loader's next storing of claims and the end of the reporter.
pub reach-IsBehind :
    (n : ℕ) (m : Move) (s t : System)
    → Reach initial s
    → IsBehind n s
    → step m s ≡ some t
    → m ≢ Move.by_loader LoaderMove.commit
    → m ≢ Move.by_reporter ReporterMove.stop_reporter
    → IsBehind n t
unfolding step jwks_step loader_step reporter_step when store_set take_first
reach-IsBehind n m s t r h e a b =
    let (_, _, _, not_closed) = reach-closes_once s r in ground (arith, not_closed)

below_less_of : (n c : ℕ) → is_closed c (below n) ≡ true → c < n
unfolding is_closed
below_less_of zero c h = cc
below_less_of (suc n) c h = ground (arith, below_less_of n c)

pub woken : (s : System) (c : ℕ) → Invariant s → is_closed c s.closed ≡ true → c < s.update_ch
woken s c i h =
    let (n, le, e) = closed_falls s.loader s i.closed_ok in
    omega (arith, below_less_of n c (rw e at h), le)

abbrev ReporterOk : ReporterPc → System → Type 0
ReporterOk (reading c) s = c < s.update_ch
ReporterOk _ s = Unit

abbrev WokenOk : ReporterPc → System → Type 0
WokenOk (watching c) s = is_closed c s.closed ≡ true → c < s.update_ch
WokenOk _ s = Unit

all_woken : (pc : ReporterPc) (s : System) → Invariant s → WokenOk pc s
all_woken (watching c) s i = woken s c i
all_woken subscribing s i = tt
all_woken reporter_stopped s i = tt
all_woken (reading c) s i = tt

ReporterOk-step :
    (m : Move) (s t : System)
    → step m s ≡ some t
    → WokenOk s.reporter s
    → ReporterOk s.reporter s
    → ReporterOk t.reporter t
unfolding step jwks_step loader_step reporter_step when store_set take_first
ReporterOk-step m s t e w h = ground arith

reach-ReporterOk : (t : System) → Reach initial t → Invariant t × ReporterOk t.reporter t
reach-ReporterOk t r =
    reach_inv (λ s. Invariant s × ReporterOk s.reporter s)
      (λ m s u e (i, h).
        (step-Invariant m s u e i, ReporterOk-step m s u e (all_woken s.reporter s i) h))
      r (reach-Invariant Reach.start, tt)

pub reach-reporter_reads :
    (s t : System) (c : ℕ)
    → Reach initial s
    → s.reporter ≡ reading c
    → step (Move.by_reporter ReporterMove.read_claims) s ≡ some t
    → c < t.reported
unfolding step reporter_step when
reach-reporter_reads s t c r e m =
    let h : c < s.update_ch = rw e at (reach-ReporterOk s r).1 in ground (arith, h)
