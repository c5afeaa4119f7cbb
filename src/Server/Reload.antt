-- ===== src/Server/Reload.antt =====
-- The goroutine of `Serve` that loads the licenses (server/server.go): the function literal `f`,
-- with what `ioutil.ReadDir` and the clock give it as arguments.
mod Tests
pub mod Changes
pub mod Notify
pub mod Consistent
pub mod Backed
pub mod Products
pub mod Moves
use kustomer.Common.{
  ℕ, ◌+◌, String, Bool, true, false, not, ◌&&◌, ◌||◌, Option, none, some, List, [], ◌∷◌, ltb, ◌==◌,
  if◌then◌else◌, string_dec, ite,
}
use kustomer.Common.Map.{Map}
use kustomer.Common.Panic.{Run, ok, panic, ◌>>=◌}
use kustomer.License.{JwtClaims, Claims}
use kustomer.Loader.Jose.{Jose}
use kustomer.Loader.Folder.{FileInfo}
use kustomer.Loader.Dedupe.{Hook, on_activate, on_remove, on_new, on_skip}
use kustomer.Loader.ScanFolder.{LicensesLoader, Scanned, scan_folder}
use kustomer.Server.State.{KeySet, Server}

-- The variables that `f` keeps from one call to the next. `K` is the type of key sets.
pub record Watch (F K : Type 0) : Type 0 where
  pub load_history : Option (Map (Unit {0}))
  pub activate_history : Option (Map (Claims F))
  pub last_sub : String
  pub first : Bool
  pub jwks : Option (KeySet K)

-- `jwks != s.jwks` compares the pointers.
pub same_set : {K : Type 0} → Option (KeySet K) → Option (KeySet K) → Bool
same_set none none = true
same_set (some a) (some b) = a.address == b.address
same_set none (some b) = false
same_set (some a) none = false

-- `changed`, which `OnRemove` and `OnNew` set.
unfoldable pub changed : {F : Type 0} → List (Hook F) → Bool
changed [] = false
changed (on_remove c ∷ hooks) = true
changed (on_new c ∷ hooks) = true
changed (on_activate c ∷ hooks) = changed hooks
changed (on_skip c ∷ hooks) = changed hooks

-- `claims[0].Claims.Subject`, and "" where there are no claims
unfoldable pub subject_of : {F : Type 0} → List (Claims F) → String
subject_of [] = ""
subject_of (c ∷ cs) = c.subject

-- The license that stands for the globally configured sub.
pub sub_claims : {F : Type 0} → String → Claims F
sub_claims sub = record {
  claims = record {
    issuer = "";
    subject = sub;
    audience = [];
    expiry = none;
    not_before = none;
    issued_at = none;
    id = "";
  };
  license_file_name = "";
  license_id = "";
  raw = [];
  license_file_id = "";
  display_name = "";
  support_identification_number = "";
  kopano = record { version = 0; products = none };
}

unfoldable pub with_sub : {F : Type 0} → String → List (Claims F) → List (Claims F)
unfolding sub_claims
with_sub sub claims = ite (string_dec sub "") claims (sub_claims sub ∷ claims)

pub or_empty : {F : Type 0} → Option (List (Claims F)) → List (Claims F)
or_empty none = []
or_empty (some claims) = claims

-- `!first && sub == lastSub && !changed`
pub is_silent : {F : Type 0} → Bool → (sub last_sub : String) → List (Hook F) → Bool
is_silent first sub last_sub hooks =
    not first && (ite (string_dec sub last_sub) true false && not (changed hooks))

module _ {F : Type 0} (j : Jose F) (cert_pool : Option j.CertPool) where
  -- A new key set makes `f` forget which files it has loaded.
  unfoldable pub renew : Server F j.KeySet → Watch F j.KeySet → Watch F j.KeySet
  unfolding same_set
  renew s w =
      if same_set w.jwks s.jwks then w else record w { jwks = s.jwks; load_history = some [] }

  pub set_of : Option (KeySet j.KeySet) → Option j.KeySet
  set_of none = none
  set_of (some k) = some k.set

  unfoldable pub loader_of : Server F j.KeySet → Watch F j.KeySet → LicensesLoader j
  unfolding set_of
  loader_of s w = record {
    cert_pool = cert_pool;
    jwks = set_of w.jwks;
    offline = ltb 0 s.offline;
    load_history = w.load_history;
    activate_history = w.activate_history;
  }

  -- The scan, if there is a license path. What is logged of an error is left out.
  unfoldable pub scan :
      Option (List FileInfo) → j.Expected → Server F j.KeySet → Watch F j.KeySet → Run (Scanned F)
  unfolding loader_of
  scan files expected s w =
      ite (string_dec s.license_path "")
        (ok (record {
          claims = none;
          load_history = w.load_history;
          activate_history = w.activate_history;
          hooks = [];
        }))
        (scan_folder j (loader_of s w) s.license_path files expected)

  -- What `f` does after the scan.
  unfoldable pub apply_scan :
      Server F j.KeySet → Watch F j.KeySet → Scanned F → Server F j.KeySet × Watch F j.KeySet
  unfolding is_silent changed subject_of sub_claims with_sub or_empty
  apply_scan s w r =
      let claims = with_sub s.sub (or_empty r.claims) in
      let sub = subject_of claims in
      let w' = record w { load_history = r.load_history; activate_history = r.activate_history } in
      if is_silent w.first sub w.last_sub r.hooks then (s, w') else (
        record s { claims = claims; update_ch = s.update_ch + 1; ready = s.ready || w.first },
        record w' { last_sub = sub; first = false },
      )

  -- The function `f`.
  unfoldable pub reload :
      Option (List FileInfo)
      → j.Expected
      → Server F j.KeySet
      → Watch F j.KeySet
      → Run (Server F j.KeySet × Watch F j.KeySet)
  unfolding renew
  reload files expected s w =
      let w₁ = renew s w in scan files expected s w₁ >>= λ r. ok (apply_scan s w₁ r)
