-- ===== src/Loader/Folder/Found.antt =====
-- The claims that a scan of a folder finds (licenses.go).
use kustomer.Common.{
  String, false, Option, none, some, List, [], ◌∷◌, ◌≡◌, refl, sym, inl, inr, ℕ, arith,
  Option-cases, Bool-cases, All, All-append, All-witness, Any,
}
use kustomer.Common.Map.{Map}
use kustomer.Common.Panic.{ok, >>=-eq-ok, each, each_inv_all}
use kustomer.License.{Claims}
use kustomer.Loader.Jose.{Jose}
use kustomer.Loader.File.{Mode, Reading, read_license}
use kustomer.Loader.File.Genuine.{Genuine, read_license-Genuine}
use kustomer.Loader.Folder.{
  FileInfo, Scan, join_path, append_loaded, after_reading, scan_file, scan_files,
}

module _ {F : Type 0} (j : Jose F) (mode : Mode j) (expected : j.Expected) (folder : String) where
  -- The claims are the genuine content of the file.
  abbrev pub GenuineOf : FileInfo → Claims F → Type 0
  GenuineOf info c =
      (info.is_dir ≡ false)
      × ((bytes : List ℕ) × (info.content ≡ some (some bytes)) × Genuine j mode expected bytes c)

  -- What one file adds to the claims, which no history changes.
  data Step (s s' : Scan F) (info : FileInfo) : Type 0 where
    passed :
        s'.claims ≡ s.claims
        → ((t : Scan F) → scan_file j mode expected folder t info ≡ ok t)
        → Step s s' info
    read :
        info.is_dir ≡ false
        → (bytes : Option (List ℕ)) → info.content ≡ some bytes
        → (reading : Reading F)
        → read_license j mode expected (join_path folder info.name) bytes ≡ ok reading
        → s'.claims ≡ append_loaded s.claims reading.loaded
        → ((t : Scan F)
            → scan_file j mode expected folder t info
              ≡ ok (after_reading t (join_path folder info.name) reading))
        → Step s s' info

  scan_file-Step :
      (s s' : Scan F) (info : FileInfo)
      → scan_file j mode expected folder s info ≡ ok s'
      → Step s s' info
  unfolding scan_file
  scan_file-Step s s' info e = elim (Bool-cases info.is_dir) [
    | inl d ↦ passed (ground arith) (λ t. ground arith)
    | inr d ↦ elim (Option-cases info.content) [
      | inl c ↦ passed (ground arith) (λ t. ground arith)
      | inr (bytes, c) ↦
          let (reading, found, rest) =
            >>=-eq-ok (read_license j mode expected (join_path folder info.name) bytes)
              (λ reading. ok (after_reading s (join_path folder info.name) reading)) {b = s'}
              (ground arith) in
          read d bytes c reading found (ground arith) (λ t. ground arith)
    ]
  ]

  scan_file_history :
      (s s' t : Scan F) (info : FileInfo)
      → Step s s' info
      → t.claims ≡ s.claims
      → (t' : Scan F) × (scan_file j mode expected folder t info ≡ ok t') × (t'.claims ≡ s'.claims)
  unfolding after_reading
  scan_file_history s s' t info (passed q again) same = (t, again t, ground arith)
  scan_file_history s s' t info (read d bytes c reading found q again) same =
      (after_reading t (join_path folder info.name) reading, again t, rw same (sym q))

  -- If a scan does not panic with one load history, it does not with any other, and the claims that
  -- it finds are the same.
  pub scan_files_history :
      (files : List FileInfo) (s s' t : Scan F)
      → each (scan_file j mode expected folder) s files ≡ ok s'
      → t.claims ≡ s.claims
      → (t' : Scan F) × (each (scan_file j mode expected folder) t files ≡ ok t')
        × (t'.claims ≡ s'.claims)
  unfolding each
  scan_files_history [] s s' t e same = (t, refl, ground arith)
  scan_files_history (info ∷ files) s s' t e same =
      let (mid, first, rest) = >>=-eq-ok (scan_file j mode expected folder s info) _ e in
      let (t₁, again, same₁) =
        scan_file_history s mid t info (scan_file-Step s mid info first) same in
      rw again (scan_files_history files mid s' t₁ rest same₁)

  read_license-GenuineOf :
      (info : FileInfo) (bytes : Option (List ℕ)) (reading : Reading F) (c : Claims F)
      → mode.unsafe ≡ false
      → info.is_dir ≡ false
      → info.content ≡ some bytes
      → read_license j mode expected (join_path folder info.name) bytes ≡ ok reading
      → reading.loaded ≡ some c
      → GenuineOf info c
  unfolding read_license
  read_license-GenuineOf info none reading c safe d content run found = ground arith
  read_license-GenuineOf info (some bytes) reading c safe d content run found =
      (d, (bytes, content, read_license-Genuine j mode expected _ bytes reading c safe run found))

  append_loaded-All :
      (P : Claims F → Type 0) (claims : List (Claims F)) (o : Option (Claims F))
      → All P claims
      → ((c : Claims F) → o ≡ some c → P c)
      → All P (append_loaded claims o)
  unfolding append_loaded
  append_loaded-All P claims none h k = h
  append_loaded-All P claims (some c) h k = All-append P claims (c ∷ []) h (k c refl, tt)

  -- Where a scan without `unsafe` does not panic, every claim set that it finds is the genuine
  -- content of a file of the folder.
  pub scan_files-Genuine :
      (files : List FileInfo) (history : Option (Map (Unit {0}))) (s : Scan F)
      → mode.unsafe ≡ false
      → scan_files j mode expected folder history files ≡ ok s
      → All (λ c. Any (λ info. GenuineOf info c) files) s.claims
  unfolding scan_files
  scan_files-Genuine files history s safe run =
      each_inv_all (λ (t : Scan F). All In t.claims) Listed (scan_file j mode expected folder) keep
        files (record { load_history = history; claims = [] }) s (All-witness GenuineOf files) run
        tt
    where
      In : Claims F → Type 0
      In c = Any (λ info. GenuineOf info c) files

      Listed : FileInfo → Type 0
      Listed info = (c : Claims F) → GenuineOf info c → In c

      go :
          (t t' : Scan F) (info : FileInfo)
          → Listed info
          → Step t t' info
          → All In t.claims
          → All In t'.claims
      go t t' info listed (passed q _) h = rw q h
      go t t' info listed (read d bytes c reading found q _) h = rw q (
          append_loaded-All In t.claims reading.loaded h
            (λ x e. listed x (read_license-GenuineOf info bytes reading x safe d c found e)))

      keep :
          (t t' : Scan F) (info : FileInfo)
          → Listed info
          → scan_file j mode expected folder t info ≡ ok t'
          → All In t.claims
          → All In t'.claims
      keep t t' info listed step h = go t t' info listed (scan_file-Step t t' info step) h
