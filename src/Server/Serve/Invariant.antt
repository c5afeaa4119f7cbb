-- ===== src/Server/Serve/Invariant.antt =====
-- What holds in every state that the goroutines of `Serve` reach (server/server.go).
use kustomer.Common.{
  ℕ, zero, suc, ◌≤◌, ◌<◌, true, false, Option, none, some, List, [], ◌∷◌, if◌then◌else◌, ◌≡◌, refl,
  arith, All, ◌⊎◌, subst, sym,
}
use kustomer.Server.Serve.{
  JwksPc, LoaderPc, ReporterPc, System, initial, when, JwksMove, store_set, jwks_step, LoaderMove,
  take_first, loader_step, ReporterMove, reporter_step, Move, step, Reach, begin, fetching, sending,
  unlocking, announcing, sleeping, jwks_stopped, waiting, idle, loader_stopped, draining, beginning,
  scanning, finishing, committed, closing,
}

-- What every move keeps holds in every state that is reached.
pub reach_inv {κ} :
    (P : System → Type κ)
    → ((m : Move) (s t : System) → step m s ≡ some t → P s → P t)
    → {s t : System} → Reach s t
    → P s
    → P t
reach_inv P keep Reach.start h = h
reach_inv P keep (Reach.after {t} {u} m r e) h = keep m t u e (reach_inv P keep r h)

-- The refresher's part: who holds the lock, and how often `readyCh` is closed.
abbrev pub JwksOk : JwksPc → System → Type 0
JwksOk begin s = (s.ready_ch ≡ 0) × (s.started ≡ false) × (s.locked ≡ false)
JwksOk fetching s = (s.ready_ch ≡ (if s.started then 1 else 0)) × (s.locked ≡ false)
JwksOk sending s = (s.ready_ch ≡ 1) × (s.started ≡ true) × (s.locked ≡ true)
JwksOk unlocking s = (s.ready_ch ≡ (if s.started then 1 else 0)) × (s.locked ≡ true)
JwksOk announcing s = (s.ready_ch ≡ 0) × (s.started ≡ false) × (s.locked ≡ false)
JwksOk sleeping s = (s.ready_ch ≡ 1) × (s.started ≡ true) × (s.locked ≡ false)
JwksOk jwks_stopped s = (s.ready_ch ≡ 1) × (s.locked ≡ false)

-- The loader runs only once `readyCh` is closed, and closes the server's `readyCh` in its first scan.
abbrev pub LoaderOk : LoaderPc → System → Type 0
LoaderOk waiting s = (s.ready ≡ 0) × (s.first ≡ true)
LoaderOk loader_stopped s = s.ready ≡ (if s.first then 0 else 1)
LoaderOk (draining cb) s = (0 < s.ready_ch) × (s.ready ≡ (if s.first then 0 else 1))
LoaderOk (beginning cb) s = (0 < s.ready_ch) × (s.ready ≡ (if s.first then 0 else 1))
LoaderOk (scanning cb) s = (0 < s.ready_ch) × (s.ready ≡ (if s.first then 0 else 1))
LoaderOk (committed old cb) s = (0 < s.ready_ch) × (s.ready ≡ (if s.first then 0 else 1))
LoaderOk (closing old cb) s = (0 < s.ready_ch) × (s.ready ≡ 1) × (s.first ≡ false)
LoaderOk (finishing cb) s = (0 < s.ready_ch) × (s.ready ≡ 1) × (s.first ≡ false)
LoaderOk idle s = (0 < s.ready_ch) × (s.ready ≡ 1) × (s.first ≡ false)

-- The channels with a smaller number, the last one first.
abbrev pub below : ℕ → List ℕ
below zero = []
below (suc n) = n ∷ below n

-- Each `updateCh` is closed once it is replaced, and once only.
abbrev pub ClosedOk : LoaderPc → System → Type 0
ClosedOk (committed old cb) s = (s.update_ch ≡ suc old) × (s.closed ≡ below old)
ClosedOk (closing old cb) s = (s.update_ch ≡ suc old) × (s.closed ≡ below old)
ClosedOk _ s = s.closed ≡ below s.update_ch

-- A key set that the last scan did not use waits for a scan that is about to begin, or a trigger is
-- there or on its way.
abbrev pub NotForgotten : LoaderPc → System → Type 0
NotForgotten waiting s = Unit
NotForgotten loader_stopped s = Unit
NotForgotten (draining cb) s = Unit
NotForgotten (beginning cb) s = Unit
NotForgotten _ s = (s.keys ≡ s.jwks) ⊎ ((s.triggered ≡ true) ⊎ (s.jwks_pc ≡ sending))

-- A reload request is answered after a scan that has begun after it was taken.
abbrev pub ScannedSince : Option ℕ → ℕ → Type 0
ScannedSince none n = Unit
ScannedSince (some taken) n = taken < n

abbrev pub AnswersOk : LoaderPc → System → Type 0
AnswersOk (draining (some taken)) s = taken ≤ s.scans
AnswersOk (beginning (some taken)) s = taken ≤ s.scans
AnswersOk (scanning cb) s = ScannedSince cb s.scans
AnswersOk (committed old cb) s = ScannedSince cb s.scans
AnswersOk (closing old cb) s = ScannedSince cb s.scans
AnswersOk (finishing cb) s = ScannedSince cb s.scans
AnswersOk _ s = Unit

JwksOk-step :
    (m : Move) (s t : System) → step m s ≡ some t → JwksOk s.jwks_pc s → JwksOk t.jwks_pc t
unfolding step jwks_step loader_step reporter_step when store_set take_first
JwksOk-step m s t e h = ground arith

LoaderOk-step :
    (m : Move) (s t : System) → step m s ≡ some t → LoaderOk s.loader s → LoaderOk t.loader t
unfolding step jwks_step loader_step reporter_step when store_set take_first
LoaderOk-step m s t e h = ground arith

ClosedOk-step :
    (m : Move) (s t : System) → step m s ≡ some t → ClosedOk s.loader s → ClosedOk t.loader t
unfolding step jwks_step loader_step reporter_step when store_set take_first
ClosedOk-step m s t e h = ground arith

-- A set is stored without a trigger before `readyCh` is closed only.
NotForgotten-jwks :
    (m : JwksMove) (pc : JwksPc) (s t : System)
    → jwks_step m pc s ≡ some t
    → s.jwks_pc ≡ pc
    → ((0 < s.ready_ch) → pc ≡ fetching → s.started ≡ true)
    → (l : LoaderPc) → ((l ≡ waiting) ⊎ ((l ≡ loader_stopped) ⊎ (0 < s.ready_ch)))
    → NotForgotten l s
    → NotForgotten l t
unfolding jwks_step when store_set
NotForgotten-jwks m pc s t e p h l r n = ground arith

jwks_step-loader :
    (m : JwksMove) (pc : JwksPc) (s t : System) → jwks_step m pc s ≡ some t → t.loader ≡ s.loader
unfolding jwks_step when store_set
jwks_step-loader m pc s t e = ground arith

NotForgotten-loader :
    (m : LoaderMove) (pc : LoaderPc) (s t : System)
    → loader_step m pc s ≡ some t
    → NotForgotten pc s
    → NotForgotten t.loader t
unfolding loader_step when take_first
NotForgotten-loader m pc s t e n = ground arith

NotForgotten-reporter :
    (m : ReporterMove) (pc : ReporterPc) (s t : System)
    → reporter_step m pc s ≡ some t
    → NotForgotten s.loader s
    → NotForgotten t.loader t
unfolding reporter_step when
NotForgotten-reporter m pc s t e n = ground arith

AnswersOk-step :
    (m : Move) (s t : System)
    → step m s ≡ some t
    → AnswersOk s.loader s × All (λ a. a.0 < a.1) s.answers
    → AnswersOk t.loader t × All (λ a. a.0 < a.1) t.answers
unfolding step jwks_step loader_step reporter_step when store_set take_first
AnswersOk-step m s t e h = ground arith

pub record Invariant (s : System) : Type 0 where
  pub jwks_ok : JwksOk s.jwks_pc s
  pub loader_ok : LoaderOk s.loader s
  pub closed_ok : ClosedOk s.loader s
  pub not_forgotten : NotForgotten s.loader s
  pub answers_ok : AnswersOk s.loader s × All (λ a. a.0 < a.1) s.answers

fetching_started :
    (s : System) → JwksOk s.jwks_pc s → (0 < s.ready_ch) → s.jwks_pc ≡ fetching → s.started ≡ true
fetching_started s h r e = ground arith

runs_when_ready :
    (pc : LoaderPc) (s : System)
    → LoaderOk pc s
    → (pc ≡ waiting) ⊎ ((pc ≡ loader_stopped) ⊎ (0 < s.ready_ch))
runs_when_ready pc s h = ground arith

NotForgotten-step :
    (m : Move) (s t : System) → step m s ≡ some t → Invariant s → NotForgotten t.loader t
unfolding step
NotForgotten-step (Move.by_jwks m) s t e i =
    let kept : t.loader ≡ s.loader = jwks_step-loader m s.jwks_pc s t e in
    subst (λ l. NotForgotten l t) {x = s.loader} (sym kept)
      (NotForgotten-jwks m s.jwks_pc s t e refl (fetching_started s i.jwks_ok) s.loader
        (runs_when_ready s.loader s i.loader_ok) i.not_forgotten)
NotForgotten-step (Move.by_loader m) s t e i = NotForgotten-loader m s.loader s t e i.not_forgotten
NotForgotten-step (Move.by_reporter m) s t e i =
    NotForgotten-reporter m s.reporter s t e i.not_forgotten
NotForgotten-step Move.hangup s t e i = ground (arith, i.not_forgotten)
NotForgotten-step Move.cancel s t e i = ground (arith, i.not_forgotten)

pub step-Invariant : (m : Move) (s t : System) → step m s ≡ some t → Invariant s → Invariant t
step-Invariant m s t e i = record {
  jwks_ok = JwksOk-step m s t e i.jwks_ok;
  loader_ok = LoaderOk-step m s t e i.loader_ok;
  closed_ok = ClosedOk-step m s t e i.closed_ok;
  not_forgotten = NotForgotten-step m s t e i;
  answers_ok = AnswersOk-step m s t e i.answers_ok;
}

pub reach-Invariant : {t : System} → Reach initial t → Invariant t
reach-Invariant r = reach_inv Invariant step-Invariant r (record {
  jwks_ok = (refl, refl, refl);
  loader_ok = (refl, refl);
  closed_ok = refl;
  not_forgotten = tt;
  answers_ok = (tt, tt);
})
