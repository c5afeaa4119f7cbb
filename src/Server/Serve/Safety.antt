-- ===== src/Server/Serve/Safety.antt =====
-- What the goroutines of `Serve` guarantee each other and the handlers (server/server.go).
use kustomer.Common.{
  ℕ, zero, suc, ◌≤◌, ◌<◌, true, false, ◌≡◌, ◌≢◌, refl, arith, All, AllPairs, ◌⊎◌, subst, sym, ap,
  ◌∙◌,
}
use kustomer.Server.Serve.{
  JwksPc, LoaderPc, System, initial, is_closed, Reach, sending, waiting, idle, loader_stopped,
  draining, beginning, scanning, finishing, committed, closing,
}
use kustomer.Server.Serve.Invariant.{
  reach-Invariant, JwksOk, LoaderOk, ClosedOk, below, NotForgotten,
}

below_less : (n m : ℕ) → n ≤ m → All (λ d. d < m) (below n)
below_less zero m h = tt
below_less (suc n) m h = (omega (arith, h), below_less n m (omega (arith, h)))

below_falls : (n : ℕ) → AllPairs (λ c d. d < c) (below n)
below_falls zero = tt
below_falls (suc n) = (below_less n n (omega arith), below_falls n)

below_open : (n c : ℕ) → n ≤ c → is_closed c (below n) ≡ false
unfolding is_closed
below_open zero c h = refl
below_open (suc n) c h = ground (arith, below_open n c (omega (arith, h)))

jwks_closes : (pc : JwksPc) (s : System) → JwksOk pc s → s.ready_ch ≤ 1
jwks_closes pc s h = ground arith

loader_closes : (pc : LoaderPc) (s : System) → LoaderOk pc s → s.ready ≤ 1
loader_closes pc s h = ground arith

pub closed_falls :
    (pc : LoaderPc) (s : System)
    → ClosedOk pc s
    → (n : ℕ) × (n ≤ s.update_ch) × (s.closed ≡ below n)
closed_falls (committed old cb) s h = (old, omega (arith, h.0), h.1)
closed_falls (closing old cb) s h = (old, omega (arith, h.0), h.1)
closed_falls waiting s h = (_, omega arith, h)
closed_falls idle s h = (_, omega arith, h)
closed_falls loader_stopped s h = (_, omega arith, h)
closed_falls (draining cb) s h = (_, omega arith, h)
closed_falls (beginning cb) s h = (_, omega arith, h)
closed_falls (scanning cb) s h = (_, omega arith, h)
closed_falls (finishing cb) s h = (_, omega arith, h)

-- In every state that the goroutines of `Serve` reach, neither `readyCh` has been closed more than
-- once, no `updateCh` has been closed twice (they are closed in order), and the present `updateCh`
-- is open.
pub reach-closes_once :
    (s : System)
    → Reach initial s
    → (s.ready_ch ≤ 1)
      × (s.ready ≤ 1)
      × AllPairs (λ c d. d < c) s.closed
      × (is_closed s.update_ch s.closed ≡ false)
reach-closes_once s r =
    let i = reach-Invariant r in
    let (n, le, e) = closed_falls s.loader s i.closed_ok in
    (
      jwks_closes s.jwks_pc s i.jwks_ok,
      loader_closes s.loader s i.loader_ok,
      subst (AllPairs _) (sym e) (below_falls n),
      ap (is_closed s.update_ch) e ∙ below_open n s.update_ch le,
    )

-- In every state that the goroutines of `Serve` reach: for each reload request that has been
-- answered, a scan has begun after it was taken and before it was answered.
pub reach-reload_answered : (s : System) → Reach initial s → All (λ a. a.0 < a.1) s.answers
reach-reload_answered s r = (reach-Invariant r).answers_ok.1

idle_keys :
    (pc : LoaderPc) (s : System)
    → pc ≡ idle
    → s.keys ≢ s.jwks
    → NotForgotten pc s
    → LoaderOk pc s
    → ((s.triggered ≡ true) ⊎ (s.jwks_pc ≡ sending)) × (s.ready ≡ 1)
idle_keys pc s l stale h k = ground arith

-- In every state that the goroutines of `Serve` reach: if the loader is idle and its last scan did
-- not use the newest key set, then a value is in `triggerCh` or the refresher is about to send one,
-- and the server's `readyCh` has been closed once.
pub reach-keys_scanned :
    (s : System)
    → Reach initial s
    → s.loader ≡ idle
    → s.keys ≢ s.jwks
    → ((s.triggered ≡ true) ⊎ (s.jwks_pc ≡ sending)) × (s.ready ≡ 1)
reach-keys_scanned s r l stale =
    let i = reach-Invariant r in idle_keys s.loader s l stale i.not_forgotten i.loader_ok
