-- ===== src/Loader/Tests.antt =====
-- The theorems on the loader at concrete licenses.
use kustomer.Common.{
  ◌↔◌, ◌⊎◌, take, ℕ, Bool, true, false, none, some, List, [], ◌∷◌, ◌≡◌, refl, All, Any, string_dec,
}
use kustomer.Common.Map.{get}
use kustomer.Common.Panic.{ok, panic, each}
use kustomer.License.{Claims}
use kustomer.Loader.File.{Mode, select_key, read_license, is_accepted_alg, license_size_limit_bytes}
use kustomer.Loader.File.Unsafe.{LacksKey, LacksClaims, read_license-panic_iff}
use kustomer.Loader.Trim.{trim_text, trim_bytes}
use kustomer.Loader.Folder.{FileInfo, Scan, is_known, scan_file, scan_files}
use kustomer.Loader.Folder.Found.{GenuineOf, scan_files-Genuine, scan_files_history}
use kustomer.Loader.Dedupe.{sort_and_deduplicate, was_active}
use kustomer.Loader.Dedupe.Newest.{NewestPerUid, sort_and_deduplicate-NewestPerUid}
use kustomer.Loader.Dedupe.Calls.{calls_new, calls_remove}
use kustomer.Loader.Dedupe.Hooks.{sort_and_deduplicate-hooks}
use kustomer.Loader.Example.{jose, license_of}

abbrev mode : Bool → List ℕ → Mode jose
mode unsafe keys = record { cert_pool = none; jwks = some keys; offline = false; unsafe = unsafe }

abbrev loaded : Claims ℕ
loaded = license_of "/a/l" "1" 7 (65 ∷ [])

abbrev files : List FileInfo
files = record { name = "l"; is_dir = false; content = some (some (65 ∷ [])) } ∷ []

scan_files-Genuine_example :
    All (λ c. Any (λ info. GenuineOf jose (mode false (5 ∷ [])) tt "/a" info c) files) (loaded ∷ [])
unfolding read_license is_accepted_alg string_dec select_key trim_text trim_bytes scan_files
    scan_file each is_known
scan_files-Genuine_example =
    scan_files-Genuine jose (mode false (5 ∷ [])) tt "/a" files none
      (record { load_history = none; claims = loaded ∷ [] }) refl refl

scan_files_history_example :
    (t' : Scan ℕ) × (each
        (scan_file jose (mode false (5 ∷ [])) tt "/a")
        (record { load_history = some (("1", tt) ∷ []); claims = [] })
        files
      ≡ ok t')
    × (t'.claims ≡ loaded ∷ [])
unfolding read_license is_accepted_alg string_dec select_key trim_text trim_bytes scan_files
    scan_file each is_known
scan_files_history_example =
    scan_files_history jose (mode false (5 ∷ [])) tt "/a" files
      (record { load_history = none; claims = [] })
      (record { load_history = none; claims = loaded ∷ [] })
      (record { load_history = some (("1", tt) ∷ []); claims = [] }) refl refl

read_license-panic_iff_example :
    (read_license jose (mode true []) tt "/a/l" (some (65 ∷ [])) ≡ panic) ↔ (
      (token : List ℕ) × (header : jose.Header) × (jose.parse_signed
          (trim_bytes (take license_size_limit_bytes (65 ∷ [])))
        ≡ some token)
      × (jose.headers token ≡ header ∷ [])
      × (is_accepted_alg (jose.algorithm header) ≡ true)
      × (LacksKey jose (mode true []) header ⊎ LacksClaims jose (mode true []) token header))
read_license-panic_iff_example = read_license-panic_iff jose (mode true []) tt "/a/l" (65 ∷ [])

-- Two files with one license id, as when a license is copied.
abbrev twice : List (Claims ℕ)
twice = license_of "a" "1" 7 [] ∷ license_of "b" "1" 9 [] ∷ license_of "c" "2" 8 [] ∷ []

sort_and_deduplicate-NewestPerUid_example :
    NewestPerUid jose twice (sort_and_deduplicate jose none twice).claims
sort_and_deduplicate-NewestPerUid_example = sort_and_deduplicate-NewestPerUid jose none twice

sort_and_deduplicate-hooks_example :
    (calls_new "1" (sort_and_deduplicate jose (some []) twice).hooks ≡ false)
    × (calls_remove "1" (sort_and_deduplicate jose (some []) twice).hooks ≡ false)
    × (was_active (sort_and_deduplicate jose (some []) twice).activate_history "1" ≡ true)
unfolding string_dec get
sort_and_deduplicate-hooks_example = sort_and_deduplicate-hooks jose [] twice "1" tt
