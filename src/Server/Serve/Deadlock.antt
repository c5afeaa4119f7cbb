-- ===== src/Server/Serve/Deadlock.antt =====
-- When the JWKS goroutine and the loader of `Serve` (server/server.go) wait for each other, and when
-- they do not.
use kustomer.Common.{
  ℕ, ◌+◌, true, false, Option, none, some, List, [], ◌∷◌, if◌then◌else◌, ◌≡◌, refl, arith, ◌⊎◌, inl,
  inr, subst, sym, ap, ◌∙◌, Bool-cases, Option-cases,
}
use kustomer.Server.Serve.{
  JwksPc, System, initial, when, JwksMove, store_set, jwks_step, LoaderMove, take_first,
  loader_step, reporter_step, Move, step, Reach, sending, unlocking, announcing, sleeping,
  beginning, scanning,
}
use kustomer.Server.Serve.Invariant.{reach_inv, reach-Invariant, JwksOk}

-- Who waits for whom: the refresher, which holds the mutex, for room in `triggerCh`; the loader,
-- which alone makes room there, for the mutex.
pub record IsStuck (cb : Option ℕ) (s : System) : Type 0 where
  pub jwks_sends : s.jwks_pc ≡ sending
  pub jwks_locks : s.locked ≡ true
  pub full : s.triggered ≡ true
  pub loader_waits : s.loader ≡ beginning cb

IsStuck-step :
    (cb : Option ℕ) (m : Move) (s t : System)
    → step m s ≡ some t
    → IsStuck cb s
    → IsStuck cb t × (t.keys ≡ s.keys) × (t.reported ≡ s.reported) × (t.answers ≡ s.answers)
unfolding step jwks_step loader_step reporter_step when store_set take_first
IsStuck-step cb m s t e h = ground arith

-- Where the refresher, which holds the mutex, sends on a full `triggerCh`, and the loader is about
-- to begin a scan, both stay so after any moves: the loader keeps its key set, no further reload
-- request is answered, and the reporter reads no further claims.
pub IsStuck-forever :
    (cb : Option ℕ) (s t : System)
    → IsStuck cb s
    → Reach s t
    → IsStuck cb t × (t.keys ≡ s.keys) × (t.reported ≡ s.reported) × (t.answers ≡ s.answers)
IsStuck-forever cb s t h r =
    reach_inv
      (λ u. IsStuck cb u × (u.keys ≡ s.keys) × (u.reported ≡ s.reported) × (u.answers ≡ s.answers))
      (λ m u v e (k, a, b, c).
        let (k', a', b', c') = IsStuck-step cb m u v e k in (k', a' ∙ a, b' ∙ b, c' ∙ c))
      r (h, refl, refl, refl)

-- Moves one after the other.
unfoldable pub run : List Move → System → Option System
run [] s = some s
run (m ∷ ms) s = elim (step m s) [ none ↦ none | some t ↦ run ms t ]

pub run-Reach :
    {s t : System} (ms : List Move) (u : System) → Reach s t → run ms t ≡ some u → Reach s u
unfolding run
run-Reach [] u r e = subst (Reach _) (ground arith) r
run-Reach {t} (m ∷ ms) u r e = elim (Option-cases (step m t)) [
  | inl n ↦ absurd (ground arith)
  | inr (v, n) ↦
      run-Reach ms u (Reach.after m r n)
        (sym (ap (λ o. elim o [ none ↦ none | some w ↦ run ms w ]) n) ∙ e)
]

abbrev pub CanScan : Option ℕ → System → Type 0
CanScan cb s =
    (ms : List Move) × (t : System) × (run ms s ≡ some t)
    × (t.loader ≡ scanning cb)
    × (t.keys ≡ s.jwks)

can_later :
    (cb : Option ℕ) (m : Move) (s t : System)
    → step m s ≡ some t
    → t.jwks ≡ s.jwks
    → CanScan cb t
    → CanScan cb s
unfolding run
can_later cb m s t e same (ms, u, go, l, k) =
    (m ∷ ms, u, ap (λ o. elim o [ none ↦ none | some v ↦ run ms v ]) e ∙ go, l, k ∙ same)

unlocked_scans :
    (cb : Option ℕ) (s : System) → s.loader ≡ beginning cb → s.locked ≡ false → CanScan cb s
unfolding step loader_step when run
unlocked_scans cb s l k =
    can_later cb (Move.by_loader LoaderMove.read_server) s
      (record s { keys = s.jwks; scans = s.scans + 1; loader = scanning cb }) (ground arith) refl
      ([], _, refl, refl, refl)

unlocking_scans :
    (cb : Option ℕ) (s : System) → s.loader ≡ beginning cb → s.jwks_pc ≡ unlocking → CanScan cb s
unfolding step jwks_step
unlocking_scans cb s l p =
    can_later cb (Move.by_jwks JwksMove.unlock) s
      (record s { locked = false; jwks_pc = if s.started then sleeping else announcing })
      (ground arith) refl (unlocked_scans cb _ l refl)

sending_scans :
    (cb : Option ℕ) (s : System)
    → s.loader ≡ beginning cb
    → s.jwks_pc ≡ sending
    → s.triggered ≡ false
    → CanScan cb s
unfolding step jwks_step when
sending_scans cb s l p f =
    can_later cb (Move.by_jwks JwksMove.send) s (record s { triggered = true; jwks_pc = unlocking })
      (ground arith) refl (unlocking_scans cb _ l refl)

locked_by :
    (pc : JwksPc) (s : System) → JwksOk pc s → s.locked ≡ true → (pc ≡ sending) ⊎ (pc ≡ unlocking)
locked_by pc s h k = ground arith

-- In every state that the goroutines of `Serve` reach where a scan is about to begin: either the
-- refresher and the loader are stuck (see `IsStuck`), or there are moves after which the scan has
-- begun with the key set that is the newest now.
pub reach-CanScan :
    (cb : Option ℕ) (s : System)
    → Reach initial s
    → s.loader ≡ beginning cb
    → IsStuck cb s ⊎ CanScan cb s
reach-CanScan cb s r l = elim (Bool-cases s.locked) [
  | inr k ↦ inr (unlocked_scans cb s l k)
  | inl k ↦ elim (locked_by s.jwks_pc s (reach-Invariant r).jwks_ok k) [
    | inr p ↦ inr (unlocking_scans cb s l p)
    | inl p ↦ elim (Bool-cases s.triggered) [
      | inr f ↦ inr (sending_scans cb s l p f)
      | inl f ↦ inl (record { jwks_sends = p; jwks_locks = k; full = f; loader_waits = l })
    ]
  ]
]
