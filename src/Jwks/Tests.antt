-- ===== src/Jwks/Tests.antt =====
-- A fetch that succeeds at its second attempt.
use kustomer.Common.{ℕ, false, none, some, [], ◌∷◌, ◌≡◌, ◌==◌, if◌then◌else◌, arith}
use kustomer.Common.Panic.{ok}
use kustomer.Jwks.{Exchange, Network, JwksFetcher, Updated, update}
use kustomer.Jwks.Update.{Tried, update-Tried}

abbrev network : Network ℕ
network = record {
  exchange = λ attempt uri agent etag.
      if attempt == 2 then Exchange.answered 200 "e2" (some 7) else Exchange.unreachable;
  is_done = λ attempt. false;
}

abbrev fetcher : JwksFetcher ℕ
fetcher = record {
  uris = "https://a/jwks" ∷ "https://b/jwks" ∷ [];
  user_agent = "kustomerd";
  max_retries = 3;
  jwks = none;
  etag = "";
  offline = false;
}

update-Tried_example :
    (u : Updated ℕ) × ((update network fetcher ≡ some (ok u)) × Tried network fetcher 1 u)
update-Tried_example = update-Tried network fetcher (omega arith)
