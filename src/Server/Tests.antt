-- ===== src/Server/Tests.antt =====
-- The theorems on the loops of `Serve` at concrete servers.
use kustomer.Common.{
  ◌||◌, ◌⊎◌, ◌+◌, ◌↔◌, ℕ, String, Bool, true, false, none, some, List, [], ◌∷◌, ◌≡◌, ◌≢◌, refl, sym,
  arith, ite, string_dec,
}
use kustomer.Common.Map.{Map, get, put}
use kustomer.Common.Panic.{ok, each}
use kustomer.License.{Claims}
use kustomer.Jwks.{Updated}
use kustomer.Loader.Example.{jose, license_of}
use kustomer.Loader.File.{read_license, select_key, is_accepted_alg}
use kustomer.Loader.Trim.{trim_text, trim_bytes}
use kustomer.Loader.Folder.{FileInfo, is_known, scan_file, scan_files}
use kustomer.Loader.Dedupe.{kept, dedupe, dedupe_step, sort_and_deduplicate}
use kustomer.Server.State.{KeySet, Server}
use kustomer.Server.Refresh.{refresh}
use kustomer.Server.Refresh.Moves.{refresh_moves}
use kustomer.Server.Reload.{
  Watch, subject_of, with_sub, changed, loader_of, renew, scan, apply_scan, reload,
}
use kustomer.Loader.ScanFolder.{mode_of, scan_folder, scan_folder_for_license_claims}
use kustomer.Loader.Sort.{sort_newest}
use kustomer.Server.ReloadRequest.{
  ReloadRequest, unix, taken, closed, reload_handler, reload_handler_iff,
}
use kustomer.Server.Reload.Notify.{Scans, is_changed, active, reload-notifies, reload-silent}
use kustomer.Server.Reload.Moves.{Mirrors, reload-Mirrors}
use kustomer.Server.Serve.{System, Move, initial, beginning, finishing, fetching, sleeping}
use kustomer.Server.Serve.Deadlock.{run}
use kustomer.Server.Reload.Consistent.{Consistent, Told, reload-Consistent}

-- A key set is the list of its keys.
abbrev key_set : KeySet (List ℕ)
key_set = record { address = 1; set = 5 ∷ [] }

abbrev server : Server ℕ (List ℕ)
server = record {
  license_path = "/a";
  listen_path = "/run/kustomerd";
  sub = "";
  insecure = false;
  trusted = true;
  offline = 3;
  offline_threshold = 3;
  jwks = some key_set;
  ready = false;
  update_ch = 1;
  claims = [];
}

abbrev updated : Bool → Updated (KeySet (List ℕ))
updated offline = record {
  fetcher = record {
    uris = "https://a/jwks" ∷ [];
    user_agent = "kustomerd";
    max_retries = 3;
    jwks = none;
    etag = "";
    offline = offline;
  };
  set = none;
  err = offline;
}

-- A round brings a new set while the goroutines run.
abbrev new_set : Updated (KeySet (List ℕ))
new_set = record (updated false) { set = some key_set; err = false }

abbrev due : System
due = record initial { jwks_pc = fetching; started = true; ready_ch = 1 }

refresh_moves_example :
    (ms : List Move) × (t : System) × (run ms due ≡ some t)
    × (t.jwks_pc ≡ sleeping)
    × (t.started ≡ true)
    × (t.triggered ≡ (due.triggered || (refresh true server new_set).triggers))
    × (((t.jwks ≡ due.jwks) × ((refresh true server new_set).server.jwks ≡ server.jwks))
        ⊎ ((t.jwks ≡ due.jwks + 1)
            × ((k : KeySet (List ℕ)) × (new_set.set ≡ some k)
                × ((refresh true server new_set).server.jwks ≡ some k))))
unfolding refresh
refresh_moves_example = refresh_moves true server new_set due refl refl refl refl

abbrev watch : Bool → String → Map (Claims ℕ) → Watch ℕ (List ℕ)
watch first last_sub history = record {
  load_history = some [];
  activate_history = some history;
  last_sub = last_sub;
  first = first;
  jwks = some key_set;
}

abbrev files : List FileInfo
files = record { name = "l"; is_dir = false; content = some (some (65 ∷ [])) } ∷ []

abbrev found : List (Claims ℕ)
found = license_of "/a/l" "1" 7 (65 ∷ []) ∷ []

-- The same license in the history.
abbrev known : Map (Claims ℕ)
known = ("1", license_of "/a/l" "1" 7 (65 ∷ [])) ∷ []

ne : (s t : String) → ite (string_dec s t) true false ≡ false → s ≢ t
ne s t h e = ground arith

first_scan : Scans jose none files tt server (watch true "" []) [] found
unfolding read_license is_accepted_alg string_dec select_key trim_text trim_bytes scan_files
    scan_file each is_known mode_of loader_of renew get put
first_scan = record {
  has_path = ne _ _ refl;
  has_history = refl;
  keyed = tt;
  loads = some (("1", tt) ∷ []);
  scans = refl;
}

next_scan : Scans jose none files tt server (watch false "acme" known) known found
unfolding read_license is_accepted_alg string_dec select_key trim_text trim_bytes scan_files
    scan_file each is_known mode_of loader_of renew get put
next_scan = record {
  has_path = ne _ _ refl;
  has_history = refl;
  keyed = (refl, tt);
  loads = some (("1", tt) ∷ []);
  scans = refl;
}

reload-notifies_example :
    (s' : Server ℕ (List ℕ)) × ((w' : Watch ℕ (List ℕ)) × ((reload jose none
            (some files)
            tt
            server
            (watch true "" [])
          ≡ ok (s', w'))
        × (s'.update_ch ≡ 2)
        × (s'.claims ≡ active jose none server [] found)))
unfolding string_dec get
reload-notifies_example =
    reload-notifies jose none files tt server (watch true "" []) [] found "1" first_scan refl

nothing_changed : (k : String) → is_changed known found k ≡ false
unfolding get string_dec
nothing_changed k = elim (string_dec "1" k) [ yes e ↦ rw (sym e) refl | no n ↦ ground arith ]

reload-silent_example :
    (w' : Watch ℕ (List ℕ)) × (reload jose none (some files) tt server (watch false "acme" known)
      ≡ ok (server, w'))
unfolding string_dec get subject_of with_sub sort_and_deduplicate sort_newest dedupe dedupe_step
reload-silent_example =
    reload-silent jose none files tt server (watch false "acme" known) known found next_scan
      nothing_changed refl refl

abbrev server_after : Server ℕ (List ℕ)
server_after = record server { claims = found; update_ch = 2; ready = true }

abbrev watch_after : Watch ℕ (List ℕ)
watch_after = record {
  load_history = some (("1", tt) ∷ []);
  activate_history = some known;
  last_sub = "acme";
  first = false;
  jwks = some key_set;
}

runs : reload jose none (some files) tt server (watch true "" []) ≡ ok (server_after, watch_after)
unfolding read_license is_accepted_alg string_dec select_key trim_text trim_bytes scan_files
    scan_file each is_known mode_of loader_of renew get put reload scan apply_scan scan_folder
    scan_folder_for_license_claims sort_and_deduplicate sort_newest dedupe dedupe_step subject_of
    with_sub changed kept
runs = refl

start : Consistent jose none server (watch true "" [])
start = record { is_ready = λ h. cc; same_sub = λ h. cc; keyed = tt }

reload-Consistent_example :
    Consistent jose none server_after watch_after × Told jose none server server_after watch_after
reload-Consistent_example =
    reload-Consistent jose none (some files) tt server server_after (watch true "" []) watch_after
      runs start

abbrev root_request : ReloadRequest
root_request = record {
  parses = true;
  method = "POST";
  connection = unix (some (record { pid = 7; uid = 0 }));
  sending = taken;
  callback = closed;
}

reload_handler_iff_example : ((reload_handler root_request).triggers ≡ true) ↔ (
    (true ≡ true)
    × ((root_request.method ≡ "POST")
        × ((pid : ℕ) × ((root_request.connection ≡ unix (some (record { pid = pid; uid = 0 })))
              × (root_request.sending ≡ taken)))))
reload_handler_iff_example = reload_handler_iff root_request

-- The goroutines before the first scan, with a key set.
abbrev before_scan : System
before_scan = record initial { loader = beginning none; ready_ch = 1; jwks = 1 }

mirrors : Mirrors before_scan server (watch true "" [])
mirrors = record { channel = refl; is_first = refl; is_ready = refl }

reload-Mirrors_example :
    (ms : List Move) × (t : System) × (run ms before_scan ≡ some t)
    × (t.loader ≡ finishing none)
    × (t.keys ≡ before_scan.jwks)
    × Mirrors t server_after watch_after
reload-Mirrors_example =
    reload-Mirrors jose none none before_scan (some files) tt server server_after (watch true "" [])
      watch_after refl refl mirrors runs
