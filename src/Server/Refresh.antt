-- ===== src/Server/Refresh.antt =====
-- The goroutine of `Serve` that keeps the JWKS up to date (server/server.go): its loop body, with
-- what the fetcher returns as an argument.
pub mod Offline
pub mod Moves
use kustomer.Common.{
  ℕ, ◌+◌, ◌%◌, ◌^◌, Bool, true, false, Option, none, some, List, [], ◌∷◌, ltb, ◌==◌, if◌then◌else◌,
}
use kustomer.Jwks.{Updated}
use kustomer.Server.State.{KeySet, Server}

-- The messages on a change of the offline counter.
pub data OfflineLog : Type 0 where
  now_offline threshold_not_reached no_longer_offline : OfflineLog

-- The server after a round, whether `triggerCh` is sent to, and the message.
pub record Refreshed (F J : Type 0) : Type 0 where
  pub server : Server F J
  pub triggers : Bool
  pub log : Option OfflineLog

-- The counter after a round: a `uint`, so it wraps around at 64 bits.
next_offline : ℕ → ℕ → Bool → ℕ
next_offline threshold offline true =
    let n = (offline + 1) % 2 ^ 64 in if ltb threshold n then threshold else n
next_offline threshold offline false = 0

offline_log : ℕ → ℕ → ℕ → Bool → Option OfflineLog
offline_log threshold old new started =
    if old == new
    then none
    else if started
    then if ltb 0 new
      then if ltb threshold new
        then some OfflineLog.now_offline
        else some OfflineLog.threshold_not_reached
      else some OfflineLog.no_longer_offline
    else none

module _ {F J : Type 0} where
  store_jwks : Bool → Server F J → Bool → Option (KeySet J) → Refreshed F J
  store_jwks started s true set = record { server = s; triggers = false; log = none }
  store_jwks started s false none = record { server = s; triggers = false; log = none }
  store_jwks started s false (some set) = record {
    server = record s { jwks = some set };
    triggers = started;
    log = none;
  }

  -- The loop body, with `started`; `fetcher.Offline()` is read after `fetcher.Update`.
  unfoldable pub refresh : Bool → Server F J → Updated (KeySet J) → Refreshed F J
  unfolding store_jwks next_offline offline_log
  refresh started s u =
      let r = store_jwks started s u.err u.set in
      let offline = next_offline s.offline_threshold s.offline u.fetcher.offline in
      record r {
        server = record r.server { offline = offline };
        log = offline_log s.offline_threshold s.offline offline started;
      }

  -- The rounds one after the other.
  unfoldable pub refresh_all : Bool → Server F J → List (Updated (KeySet J)) → Server F J
  refresh_all started s [] = s
  refresh_all started s (u ∷ us) = refresh_all true (refresh started s u).server us
