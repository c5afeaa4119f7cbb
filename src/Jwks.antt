-- ===== src/Jwks.antt =====
-- `JWKSFetcher` (jwks.go): fetching a JWK set, with retries over the configured URIs. The HTTP
-- exchange is a parameter.
pub mod Update
mod Tests
use kustomer.Common.{
  ℕ, zero, suc, ◌-◌, ◌+◌, String, Bool, true, false, Option, none, some, List, length, get_elem?,
  leb, ◌==◌, if◌then◌else◌,
}
use kustomer.Common.Panic.{Run, ok, panic}

-- What comes of `http.NewRequestWithContext` and `Client.Do`: an error of one of them, or the
-- status, the `ETag` header and the decoded body (`none` where decoding fails).
pub data Exchange (J : Type 0) : Type 0 where
  unreachable : Exchange J
  answered : (status : ℕ) (etag : String) (body : Option J) → Exchange J

-- The outside world during one `Update`: the exchange of each attempt with a URI, a user agent
-- and the `If-None-Match` header, and whether the context is done before the next attempt.
pub record Network (J : Type 0) : Type 0 where
  pub exchange : ℕ → (uri user_agent etag : String) → Exchange J
  pub is_done : ℕ → Bool

pub record JwksFetcher (J : Type 0) : Type 0 where
  pub uris : List String
  pub user_agent : String
  pub max_retries : ℕ
  pub jwks : Option J
  pub etag : String
  pub offline : Bool

-- What the function literal in `Update` returns: a set or nil and an etag, or an error.
pub data Fetched (J : Type 0) : Type 0 where
  fetched : Option J → String → Fetched J
  failed : Fetched J

-- What `Update` returns, and the fetcher after it. `err` says whether there is an error.
pub record Updated (J : Type 0) : Type 0 where
  pub fetcher : JwksFetcher J
  pub set : Option J
  pub err : Bool

-- `uriIndex`
unfoldable pub uri_index : ℕ → ℕ → ℕ
uri_index attempt n = if leb n (attempt - 1) then 0 else attempt - 1

module _ {J : Type 0} where
  -- The `switch` on the status; `etag` is the fetcher's.
  unfoldable pub read_exchange : String → Exchange J → Fetched J
  read_exchange etag Exchange.unreachable = failed
  read_exchange etag (Exchange.answered status new_etag body) =
      if status == 304
      then fetched none etag
      else if status == 200
      then elim body [ none ↦ failed | some set ↦ fetched (some set) new_etag ]
      else failed

  -- One attempt. Indexing an empty list of URIs panics.
  unfoldable pub fetch : Network J → JwksFetcher J → ℕ → Run (Fetched J)
  fetch net f attempt = elim (get_elem? f.uris (uri_index attempt (length f.uris))) [
    | none ↦ panic
    | some uri ↦ ok (read_exchange f.etag (net.exchange attempt uri f.user_agent f.etag))
  ]

  -- The assignments where there is no error.
  store : JwksFetcher J → Option J → String → JwksFetcher J
  store f none etag = record f { offline = false }
  store f (some set) etag = record f { offline = false; jwks = some set; etag = etag }

  -- The loop, at an attempt. `none` is a loop that has not ended when the fuel has.
  unfoldable pub update_from : Network J → ℕ → JwksFetcher J → ℕ → Option (Run (Updated J))
  unfolding store
  update_from net zero f attempt = none
  update_from net (suc fuel) f attempt =
      let gone_offline = record f { offline = true } in
      let rest = update_from net fuel gone_offline (attempt + 1) in
      elim (fetch net f attempt) [
        | panic ↦ some panic
        | ok (fetched set etag) ↦
            some (ok (record { fetcher = store f set etag; set = set; err = false }))
        | ok failed ↦
            if leb f.max_retries attempt
            then some (ok (record { fetcher = gone_offline; set = none; err = true }))
            else if net.is_done attempt
            then some (ok (record { fetcher = gone_offline; set = none; err = false }))
            else rest
      ]

  unfoldable pub update : Network J → JwksFetcher J → Option (Run (Updated J))
  update net f = update_from net (f.max_retries + 1) f 1
