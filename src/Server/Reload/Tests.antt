-- ===== src/Server/Reload/Tests.antt =====
-- From a configuration and a license file to an answer of the products endpoint.
use kustomer.Common.{
  ℕ, ◌+◌, String, Bool, true, false, Option, none, some, List, [], ◌∷◌, ◌≡◌, refl, Any, ◌==◌,
  string_dec,
}
use kustomer.Common.Map.{get, put}
use kustomer.Common.Panic.{ok, each}
use kustomer.License.{Kopano, Claims}
use kustomer.License.Dynamic.{Value, FloatOps}
use kustomer.Loader.Jose.{Jose}
use kustomer.Loader.Example.{jose, decoded_token, license_of}
use kustomer.Loader.File.{read_license, select_key, is_accepted_alg}
use kustomer.Loader.Trim.{trim_text, trim_bytes}
use kustomer.Loader.Folder.{is_known, scan_file, scan_files}
use kustomer.Loader.Dedupe.{kept, dedupe, dedupe_step, sort_and_deduplicate}
use kustomer.Loader.ScanFolder.{mode_of, scan_folder, scan_folder_for_license_claims}
use kustomer.Loader.Sort.{sort_newest}
use kustomer.Products.Entry.{
  Entry, new_entry, add_product, flagged, accept, aggregate_claim, append_if_missing, pin_claims,
}
use kustomer.Products.Answer.{
  Request, Wait, Reply, Response, claims_kopano_products_handler, products_of, add_claim,
  add_if_requested, is_requested, entry_of,
}
use kustomer.Products.Answer.Offered.{Offers}
use kustomer.Server.State.{KeySet, Server}
use kustomer.Server.New.{Config, built, new_server}
use kustomer.Server.New.Fresh.{first_watch}
use kustomer.Server.Reload.{
  Watch, subject_of, with_sub, changed, loader_of, renew, scan, apply_scan, reload,
}
use kustomer.Server.Reload.Backed.{LoaderCall, loader_call, BackedBy}
use kustomer.Server.Reload.Products.{answered-BackedBy}

abbrev kopano : Kopano ℕ
kopano = record {
  version = 0;
  products = some (("groupware", some (record { license_id = "p"; unknown = [] })) ∷ []);
}

-- Every token that is verified holds a license for one product.
abbrev issuer : Jose ℕ
issuer = record jose { verified_claims = λ t k. record (decoded_token 7) { kopano = kopano } }

abbrev config : Config
config = record {
  sub = "";
  licenses_path = "a";
  listen_path = "";
  insecure = false;
  trusted = true;
}

abbrev hash : String → String
hash s = "0f"

abbrev absolute : String → Option String
absolute path = some "/a"

abbrev fresh : Server ℕ (List ℕ)
fresh = record {
  license_path = "/a";
  listen_path = "";
  sub = "";
  insecure = false;
  trusted = true;
  offline = 3;
  offline_threshold = 3;
  jwks = none;
  ready = false;
  update_ch = 1;
  claims = [];
}

builds : new_server {F = ℕ} {J = List ℕ} hash absolute config ≡ built fresh
unfolding new_server string_dec
builds = refl

abbrev key_set : KeySet (List ℕ)
key_set = record { address = 1; set = 5 ∷ [] }

abbrev calls : List (LoaderCall issuer)
calls =
    record {
      files = some (record { name = "l"; is_dir = false; content = some (some (65 ∷ [])) } ∷ []);
      expected = tt;
      jwks = some key_set;
      offline = 0;
    }
    ∷ []

abbrev license : Claims ℕ
license = record (license_of "/a/l" "1" 7 (65 ∷ [])) { kopano = kopano }

abbrev serving : Server ℕ (List ℕ)
serving = record fresh {
  jwks = some key_set;
  offline = 0;
  claims = license ∷ [];
  update_ch = 2;
  ready = true;
}

abbrev watching : Watch ℕ (List ℕ)
watching = record {
  load_history = some (("1", tt) ∷ []);
  activate_history = some (("1", license) ∷ []);
  last_sub = "acme";
  first = false;
  jwks = some key_set;
}

runs : each (loader_call issuer none) (fresh, first_watch) calls ≡ ok (serving, watching)
unfolding read_license is_accepted_alg string_dec select_key trim_text trim_bytes scan_files
    scan_file each is_known mode_of loader_of renew get put reload scan apply_scan scan_folder
    scan_folder_for_license_claims sort_and_deduplicate sort_newest dedupe dedupe_step subject_of
    with_sub changed kept loader_call
runs = refl

abbrev ops : FloatOps ℕ
ops = record { add = λ a b. a + b; eq = λ a b. a == b }

abbrev cmp : Value ℕ → Value ℕ → Bool
cmp a b = true

abbrev request : Request
request = record { parses = true; product = some ("groupware" ∷ []); credentials = none }

abbrev entry : Entry ℕ
entry = record new_entry { expiry = none ∷ [] }

abbrev response : Response ℕ
response = record { trusted = true; offline = false; products = ("groupware", entry) ∷ [] }

answers :
    claims_kopano_products_handler ops cmp serving request Wait.ready ≡ Reply.answered response
unfolding claims_kopano_products_handler products_of add_claim add_if_requested is_requested
    entry_of each get put add_product flagged string_dec new_entry accept aggregate_claim
    append_if_missing pin_claims
answers = refl

answered-BackedBy_example :
    Any
      (λ claim.
        Offers "groupware" claim
        × Any (λ q. BackedBy issuer none calls fresh.license_path fresh.sub q claim) calls)
      serving.claims
unfolding get string_dec
answered-BackedBy_example =
    answered-BackedBy issuer none ops cmp hash absolute config fresh serving watching calls request
      response "groupware" builds runs answers (λ e. cc)
