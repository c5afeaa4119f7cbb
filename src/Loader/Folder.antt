-- ===== src/Loader/Folder.antt =====
-- The loop of `scanFolderForLicenseClaims` over the files of a folder (licenses.go).
pub mod Found
use Prim.Native.String
use kustomer.Common.{
  ℕ, String, Bool, true, false, not, ◌&&◌, Option, none, some, List, [], ◌∷◌, ◌++◌, ite,
  if◌then◌else◌, string_dec,
}
use kustomer.Common.Map.{Map, put, has}
use kustomer.Common.Panic.{Run, ok, panic, ◌>>=◌, each}
use kustomer.License.{Claims}
use kustomer.Loader.Jose.{Jose}
use kustomer.Loader.File.{Mode, Reading, read_license}

-- An entry of `ioutil.ReadDir` with what opening and reading it gives: `content` is `none` if the
-- file cannot be opened, and holds `none` if it cannot be read.
pub record FileInfo : Type 0 where
  pub name : String
  pub is_dir : Bool
  pub content : Option (Option (List ℕ))

-- `filepath.Join` of a clean absolute folder and a file name
join_path : String → String → String
join_path folder name =
    ite (string_dec folder "/") (String.◌++◌ "/" name) (String.◌++◌ folder (String.◌++◌ "/" name))

-- `LoadHistory`, whose values are never read; a nil map is `none`. And the claims so far.
pub record Scan (F : Type 0) : Type 0 where
  pub load_history : Option (Map (Unit {0}))
  pub claims : List (Claims F)

-- `_, ok := ll.LoadHistory[id]`
unfoldable pub is_known : Option (Map (Unit {0})) → String → Bool
is_known none id = false
is_known (some history) id = has id history

remember : Option (Map (Unit {0})) → String → Option (Map (Unit {0}))
remember none id = none
remember (some history) id = some (put id tt history)

append_loaded : {F : Type 0} → List (Claims F) → Option (Claims F) → List (Claims F)
append_loaded claims none = claims
append_loaded claims (some c) = claims ++ c ∷ []

-- What the end of the loop body makes of a reading.
after_reading : {F : Type 0} → Scan F → String → Reading F → Scan F
unfolding remember append_loaded
after_reading s fn reading =
    let is_new =
      not (is_known s.load_history fn) && not (is_known s.load_history reading.license_id) in
    record {
      load_history = if is_new then remember s.load_history reading.license_id else s.load_history;
      claims = append_loaded s.claims reading.loaded;
    }

module _ {F : Type 0} (j : Jose F) (mode : Mode j) (expected : j.Expected) (folder : String) where
  -- The loop body.
  unfoldable pub scan_file : Scan F → FileInfo → Run (Scan F)
  unfolding join_path after_reading
  scan_file s info = if info.is_dir then ok s else elim info.content [
    | none ↦ ok s
    | some bytes ↦
        let fn = join_path folder info.name in
        read_license j mode expected fn bytes >>= λ reading. ok (after_reading s fn reading)
  ]

  unfoldable pub scan_files : Option (Map (Unit {0})) → List FileInfo → Run (Scan F)
  scan_files history files = each scan_file (record { load_history = history; claims = [] }) files
