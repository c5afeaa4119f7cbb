-- ===== src/Loader/ScanFolder.antt =====
-- `LicensesLoader` with `ScanFolder` and `UnsafeScanFolderWithoutVerification` (licenses.go).
use kustomer.Common.{String, Bool, true, false, Option, none, some, List, []}
use kustomer.Common.Map.{Map}
use kustomer.Common.Panic.{Run, ok, ◌>>=◌}
use kustomer.License.{Claims}
use kustomer.Loader.Jose.{Jose}
use kustomer.Loader.File.{Mode}
use kustomer.Loader.Folder.{FileInfo, Scan, scan_files}
use kustomer.Loader.Dedupe.{Hook, sort_and_deduplicate}

pub record LicensesLoader {F : Type 0} (j : Jose F) : Type 0 where
  pub cert_pool : Option j.CertPool
  pub jwks : Option j.KeySet
  pub offline : Bool
  pub load_history : Option (Map (Unit {0}))
  pub activate_history : Option (Map (Claims F))

-- What a scan returns, and what it changes: the claims, or the error of `ioutil.ReadDir` (`none`),
-- the two histories, and the calls of the hooks.
pub record Scanned (F : Type 0) : Type 0 where
  pub claims : Option (List (Claims F))
  pub load_history : Option (Map (Unit {0}))
  pub activate_history : Option (Map (Claims F))
  pub hooks : List (Hook F)

module _ {F : Type 0} (j : Jose F) (ll : LicensesLoader j) where
  unfoldable pub mode_of : Bool → Mode j
  mode_of unsafe = record {
    cert_pool = ll.cert_pool;
    jwks = ll.jwks;
    offline = ll.offline;
    unsafe = unsafe;
  }

  finish : Scan F → Scanned F
  finish s =
      let a = sort_and_deduplicate j ll.activate_history s.claims in
      record {
        claims = some a.claims;
        load_history = s.load_history;
        activate_history = a.activate_history;
        hooks = a.hooks;
      }

  -- `scanFolderForLicenseClaims`; `files` is what `ioutil.ReadDir` returns.
  unfoldable pub scan_folder_for_license_claims :
      String → Option (List FileInfo) → j.Expected → Bool → Run (Scanned F)
  unfolding mode_of finish
  scan_folder_for_license_claims folder none expected unsafe = ok (record {
    claims = none;
    load_history = ll.load_history;
    activate_history = ll.activate_history;
    hooks = [];
  })
  scan_folder_for_license_claims folder (some files) expected unsafe =
      scan_files j (mode_of unsafe) expected folder ll.load_history files >>= λ s. ok (finish s)

  unfoldable pub scan_folder : String → Option (List FileInfo) → j.Expected → Run (Scanned F)
  scan_folder folder files expected = scan_folder_for_license_claims folder files expected false

  unfoldable pub unsafe_scan_folder_without_verification :
      String → Option (List FileInfo) → j.Expected → Run (Scanned F)
  unsafe_scan_folder_without_verification folder files expected =
      scan_folder_for_license_claims folder files expected true
