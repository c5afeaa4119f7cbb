-- ===== src/Server/New/Fresh.antt =====
-- The server that `NewServer` builds (server/server.go), before its loops run.
use kustomer.Common.{
  String, true, false, Option, none, some, List, [], ◌≡◌, ◌≢◌, refl, arith, All, if_pos, if_neg,
  string_dec, ap, ◌∙◌, sym, subst, leb,
}
use kustomer.Common.Text.{codes, cut}
use kustomer.Jwks.{Updated}
use kustomer.Loader.Jose.{Jose}
use kustomer.Server.Email.{is_valid_email}
use kustomer.Server.Email.Accepts.{hide_email_lem}
use kustomer.Server.State.{KeySet, Server}
use kustomer.Server.Refresh.{refresh_all}
use kustomer.Server.Refresh.Offline.{offline_rounds, refresh_all-tells_offline}
use kustomer.Server.Reload.{Watch}
use kustomer.Server.Reload.Consistent.{Consistent}
use kustomer.Server.New.{Config, built, offline_threshold, configured_sub, new_with, new_server}

-- The variables of `f` before its first call (server/server.go).
abbrev pub first_watch : {F K : Type 0} → Watch F K
first_watch = record {
  load_history = some [];
  activate_history = some [];
  last_sub = "";
  first = true;
  jwks = none;
}

-- What the loops of `Serve` start from.
pub record IsFresh {F : Type 0} (j : Jose F) (s : Server F j.KeySet) : Type 0 where
  pub hidden : is_valid_email s.sub ≡ false
  pub consistent : (pool : Option j.CertPool) → Consistent j pool s first_watch
  pub offline :
      (us : List (Updated (KeySet j.KeySet)))
      → leb s.offline_threshold (refresh_all false s us).offline
        ≡ leb offline_threshold (offline_rounds offline_threshold us)

empty_hidden : is_valid_email "" ≡ false
unfolding is_valid_email cut
empty_hidden = refl

configured_sub_hidden :
    (hash_sub : String → String)
    → ((s : String) → All (λ c. c ≢ 0x40) (codes (hash_sub s)))
    → (sub : String) → is_valid_email (configured_sub hash_sub sub) ≡ false
unfolding configured_sub
configured_sub_hidden hash_sub no_at sub = elim (string_dec sub "") [
  | yes e ↦ rw (if_pos _ e) empty_hidden
  | no n ↦ rw (if_neg _ n) (hide_email_lem hash_sub no_at _)
]

new_with-IsFresh :
    {F : Type 0} (j : Jose F) (c : Config) (sub : String) (license listen : Option String)
    (s : Server F j.KeySet)
    → is_valid_email sub ≡ false
    → new_with c sub license listen ≡ built s
    → IsFresh j s
unfolding new_with
new_with-IsFresh j c sub none listen s h e = absurd (ground arith)
new_with-IsFresh j c sub (some license) none s h e = absurd (ground arith)
new_with-IsFresh j c sub (some license) (some listen) s h e =
    let offline : s.offline ≡ offline_threshold = ground arith in
    let threshold : s.offline_threshold ≡ offline_threshold = ground arith in
    let same : sub ≡ s.sub = ground arith in
    record {
      hidden = subst (λ x. is_valid_email x ≡ false) same h;
      consistent = λ pool. record { is_ready = λ q. cc; same_sub = λ q. cc; keyed = tt };
      offline = λ us.
          refresh_all-tells_offline us s (omega (arith, threshold)) (offline ∙ sym threshold)
          ∙ ap (λ t. leb t (offline_rounds t us)) threshold;
    }

-- If hashes have no `@`, a server that `NewServer` builds has no email as its sub, is consistent
-- with the variables of `f` before its first call, and its offline counter reaches the threshold
-- after rounds of the refresh loop exactly if that many rounds at the end, the threshold at the
-- start counted, have left the fetcher offline.
pub new_server-IsFresh :
    {F : Type 0} (j : Jose F) (hash_sub : String → String) (absolute : String → Option String)
    (c : Config) (s : Server F j.KeySet)
    → ((t : String) → All (λ d. d ≢ 0x40) (codes (hash_sub t)))
    → new_server hash_sub absolute c ≡ built s
    → IsFresh j s
unfolding new_server
new_server-IsFresh j hash_sub absolute c s no_at e =
    new_with-IsFresh j c (configured_sub hash_sub c.sub) _ _ s
      (configured_sub_hidden hash_sub no_at c.sub) e

new_with_claims :
    {F J : Type 0} (c : Config) (sub : String) (license listen : Option String) (s : Server F J)
    → new_with c sub license listen ≡ built s
    → s.claims ≡ []
unfolding new_with
new_with_claims c sub none listen s e = absurd (ground arith)
new_with_claims c sub (some license) none s e = absurd (ground arith)
new_with_claims c sub (some license) (some listen) s e = ground arith

-- A new server has no claims.
pub new_server_claims :
    {F J : Type 0} (hash_sub : String → String) (absolute : String → Option String) (c : Config)
    (s : Server F J)
    → new_server hash_sub absolute c ≡ built s
    → s.claims ≡ []
unfolding new_server
new_server_claims hash_sub absolute c s e = new_with_claims c _ _ _ s e
