-- ===== src/Server/New/Tests.antt =====
-- A server that is built from a concrete configuration.
use kustomer.Common.{
  ℕ, String, true, false, Option, none, some, List, [], ◌≡◌, refl, arith, string_dec,
}
use kustomer.Common.Text.{cut, split}
use kustomer.Loader.Example.{jose}
use kustomer.Loader.Trim.{trim_text}
use kustomer.Server.Email.{is_valid_email, hide_email}
use kustomer.Server.State.{Server}
use kustomer.Server.New.{Config, built, new_server}
use kustomer.Server.New.Fresh.{IsFresh, new_server-IsFresh}

abbrev config : Config
config = record {
  sub = " a@b.c ";
  licenses_path = "a";
  listen_path = "";
  insecure = false;
  trusted = true;
}

-- Every hash is `0f`, and every path is `/a`.
abbrev hash : String → String
hash s = "0f"

abbrev absolute : String → Option String
absolute path = some "/a"

abbrev fresh : Server ℕ (List ℕ)
fresh = record {
  license_path = "/a";
  listen_path = "";
  sub = "0f";
  insecure = false;
  trusted = true;
  offline = 3;
  offline_threshold = 3;
  jwks = none;
  ready = false;
  update_ch = 1;
  claims = [];
}

builds : new_server {F = ℕ} {J = List ℕ} hash absolute config ≡ built fresh
unfolding new_server hide_email is_valid_email cut split trim_text string_dec
builds = refl

new_server-IsFresh_example : IsFresh jose fresh
new_server-IsFresh_example =
    new_server-IsFresh jose hash absolute config fresh
      (λ s. (λ e. ground (arith, e), (λ e. ground (arith, e), tt))) builds
