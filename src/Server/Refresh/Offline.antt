-- ===== src/Server/Refresh/Offline.antt =====
-- The offline counter of the server (server/server.go) and what clients are told of it
-- (server/handlers.go).
use kustomer.Common.{
  ℕ, ◌+◌, ◌≤◌, ◌<◌, ◌%◌, ◌^◌, Bool, true, false, some, List, [], ◌∷◌, ◌≡◌, ◌≢◌, ap, ◌∙◌, arith, ltb,
  leb, if◌then◌else◌, Bool-cases, Option-cases, inl, inr,
}
use kustomer.Jwks.{Updated}
use kustomer.Server.State.{KeySet, Server}
use kustomer.Server.Refresh.{
  OfflineLog, refresh, refresh_all, store_jwks, next_offline, offline_log,
}

-- The smaller of two.
abbrev pub cap : ℕ → ℕ → ℕ
cap a b = if leb a b then a else b

-- How many rounds at the end of `us` have left the fetcher offline, after `n` before them.
abbrev pub offline_rounds : {J : Type 0} → ℕ → List (Updated J) → ℕ
offline_rounds n [] = n
offline_rounds n (u ∷ us) = offline_rounds (if u.fetcher.offline then n + 1 else 0) us

no_wrap : (m : ℕ) → m < 2 ^ 64 → m % 2 ^ 64 ≡ m
no_wrap m h = omega arith

cap-fits : (threshold n : ℕ) → threshold + 1 < 2 ^ 64 → cap threshold n + 1 < 2 ^ 64
cap-fits threshold n h = ground arith

capped :
    (threshold n : ℕ)
    → (if ltb threshold (cap threshold n + 1) then threshold else cap threshold n + 1)
      ≡ cap threshold (n + 1)
capped threshold n = ground arith

next_offline-cap :
    (threshold n : ℕ) (o : Bool)
    → threshold + 1 < 2 ^ 64
    → next_offline threshold (cap threshold n) o ≡ cap threshold (if o then n + 1 else 0)
unfolding next_offline
next_offline-cap threshold n true h =
    rw (no_wrap (cap threshold n + 1) (cap-fits threshold n h)) (capped threshold n)
next_offline-cap threshold n false h = ground arith

next_offline-bound :
    (threshold offline : ℕ) (o : Bool) → next_offline threshold offline o ≤ threshold
unfolding next_offline
next_offline-bound threshold offline true = ground arith
next_offline-bound threshold offline false = omega arith

leb-cap : (a b : ℕ) → leb a (cap a b) ≡ leb a b
leb-cap a b = ground arith

offline_log-capped :
    (threshold old new : ℕ) (started : Bool)
    → new ≤ threshold
    → offline_log threshold old new started ≢ some OfflineLog.now_offline
unfolding offline_log
offline_log-capped threshold old new started h = ground arith

module _ {F J : Type 0} where
  refresh-offline :
      (started : Bool) (s : Server F J) (u : Updated (KeySet J))
      → ((refresh started s u).server.offline
          ≡ next_offline s.offline_threshold s.offline u.fetcher.offline)
        × ((refresh started s u).server.offline_threshold ≡ s.offline_threshold)
  unfolding refresh store_jwks
  refresh-offline started s u = elim (Bool-cases u.err) [
    | inl e ↦ ground arith
    | inr e ↦ elim (Option-cases u.set) [ inl q ↦ ground arith | inr (set, q) ↦ ground arith ]
  ]

  -- After any rounds the counter is the number of the last rounds that left the fetcher offline,
  -- counted on from what `n` stands for at the start, and capped by the threshold.
  refresh_all-offline :
      (us : List (Updated (KeySet J))) (started : Bool) (s : Server F J) (n : ℕ)
      → s.offline_threshold + 1 < 2 ^ 64
      → s.offline ≡ cap s.offline_threshold n
      → (refresh_all started s us).offline ≡ cap s.offline_threshold (offline_rounds n us)
  unfolding refresh_all
  refresh_all-offline [] started s n h e = e
  refresh_all-offline (u ∷ us) started s n h e =
      let s' = (refresh started s u).server in
      let (c, t) = refresh-offline started s u in
      let m = if u.fetcher.offline then n + 1 else 0 in
      let c' : s'.offline ≡ cap s'.offline_threshold m =
        rw (t, c, e) (next_offline-cap s.offline_threshold n u.fetcher.offline h) in
      refresh_all-offline us true s' m (rw (t) h) c' ∙ ap (λ k. cap k (offline_rounds m us)) t

  -- From a counter at its threshold, which does not reach the greatest 64-bit number, clients are
  -- told after any rounds that the server is offline just where the rounds at the end that left the
  -- fetcher offline are at least as many as the threshold; if all have, the threshold at the start
  -- is counted as well.
  pub refresh_all-tells_offline :
      (us : List (Updated (KeySet J))) (s : Server F J)
      → s.offline_threshold + 1 < 2 ^ 64
      → s.offline ≡ s.offline_threshold
      → leb s.offline_threshold (refresh_all false s us).offline
        ≡ leb s.offline_threshold (offline_rounds s.offline_threshold us)
  refresh_all-tells_offline us s h e =
      rw (refresh_all-offline us false s s.offline_threshold h (ground arith))
        (leb-cap s.offline_threshold (offline_rounds s.offline_threshold us))

  -- No round of the loop logs the warning `now offline`.
  pub refresh-never_now_offline :
      (started : Bool) (s : Server F J) (u : Updated (KeySet J))
      → (refresh started s u).log ≢ some OfflineLog.now_offline
  unfolding refresh
  refresh-never_now_offline started s u =
      offline_log-capped s.offline_threshold s.offline _ started
        (next_offline-bound s.offline_threshold s.offline u.fetcher.offline)
