-- ===== src/Server/New.antt =====
-- `NewServer` (server/server.go) on a `Config` (server/config.go).
mod Tests
pub mod Fresh
use kustomer.Common.{
  ℕ, String, Bool, true, false, Option, none, some, List, [], ◌∷◌, ite, string_dec,
}
use kustomer.Loader.Trim.{trim_text}
use kustomer.Server.Email.{hide_email}
use kustomer.Server.State.{Server}

-- The fields that `NewServer` reads, but for the certificate pool, the logger and the hook.
pub record Config : Type 0 where
  pub sub : String
  pub licenses_path : String
  pub listen_path : String
  pub insecure : Bool
  pub trusted : Bool

pub data PathError : Type 0 where
  invalid_license_path invalid_listen_path : PathError

pub data Built (F J : Type 0) : Type 0 where
  built : Server F J → Built F J
  failed : PathError → Built F J

-- `offlineThreshold`
abbrev pub offline_threshold : ℕ
offline_threshold = 3

configured_sub : (hash_sub : String → String) → String → String
configured_sub hash_sub sub = ite (string_dec sub "") "" (hide_email hash_sub (trim_text sub))

-- A path that is set is made absolute. `absolute` is `filepath.Abs`, which asks the system for the
-- working directory.
absolute_path : (absolute : String → Option String) → String → Option String
absolute_path absolute path = ite (string_dec path "") (some "") (absolute path)

new_with : {F J : Type 0} → Config → String → Option String → Option String → Built F J
new_with c sub none listen = failed invalid_license_path
new_with c sub (some license) none = failed invalid_listen_path
new_with c sub (some license) (some listen) = built (record {
  license_path = license;
  listen_path = listen;
  sub = sub;
  insecure = c.insecure;
  trusted = c.trusted;
  offline = offline_threshold;
  offline_threshold = offline_threshold;
  jwks = none;
  ready = false;
  update_ch = 1;
  claims = [];
})

unfoldable pub new_server :
    {F J : Type 0} → (String → String) → (String → Option String) → Config → Built F J
unfolding configured_sub absolute_path new_with
new_server hash_sub absolute c =
    new_with c (configured_sub hash_sub c.sub) (absolute_path absolute c.licenses_path)
      (absolute_path absolute c.listen_path)
