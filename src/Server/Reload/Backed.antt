-- ===== src/Server/Reload/Backed.antt =====
-- Where the claims of the server come from (server/server.go, licenses.go): the calls of `f`, one
-- after the other, with what the refresher has stored before each.
use kustomer.Common.{
  ℕ, String, false, Option, none, some, List, [], ◌∷◌, ◌≡◌, refl, subst, arith, ltb, string_dec,
  if_pos, if_neg, All, All-imp, All-both, Any, All-witness, ◌⊎◌, inl, inr, Bool-cases,
}
use kustomer.Common.Panic.{Run, ok, >>=-eq-ok, each, each_inv_all}
use kustomer.License.{Claims}
use kustomer.Loader.Jose.{Jose}
use kustomer.Loader.File.{Mode}
use kustomer.Loader.Folder.{FileInfo, scan_files}
use kustomer.Loader.Folder.Found.{GenuineOf, scan_files-Genuine}
use kustomer.Loader.Dedupe.{sort_and_deduplicate}
use kustomer.Loader.Dedupe.Newest.{sort_and_deduplicate-NewestPerUid}
use kustomer.Loader.ScanFolder.{Scanned, mode_of, scan_folder, scan_folder_for_license_claims}
use kustomer.Server.State.{KeySet, Server}
use kustomer.Server.Reload.Consistent.{ok_inj}
use kustomer.Server.Reload.{
  Watch, same_set, is_silent, subject_of, sub_claims, with_sub, or_empty, renew, set_of, loader_of,
  scan, apply_scan, reload,
}

-- One call of `f`: what it reads of the folder and of the clock, and what the refresher has stored.
pub record LoaderCall {F : Type 0} (j : Jose F) : Type 0 where
  pub files : Option (List FileInfo)
  pub expected : j.Expected
  pub jwks : Option (KeySet j.KeySet)
  pub offline : ℕ

module _ {F : Type 0} (j : Jose F) (cert_pool : Option j.CertPool) where
  unfoldable pub loader_call :
      Server F j.KeySet × Watch F j.KeySet
      → LoaderCall j
      → Run (Server F j.KeySet × Watch F j.KeySet)
  loader_call (s, w) r =
      reload j cert_pool r.files r.expected (record s { jwks = r.jwks; offline = r.offline }) w

  -- What a scan without `unsafe` trusts.
  abbrev pub trusting : Option (KeySet j.KeySet) → ℕ → Mode j
  trusting keys offline = record {
    cert_pool = cert_pool;
    jwks = set_of j cert_pool keys;
    offline = ltb 0 offline;
    unsafe = false;
  }

  abbrev pub GenuineIn : Option (List FileInfo) → Mode j → j.Expected → String → Claims F → Type 0
  GenuineIn files mode expected path c =
      (infos : List FileInfo) × (files ≡ some infos)
      × Any (λ info. GenuineOf j mode expected path info c) infos

  or_empty_none :
      (P : Claims F → Type 0) (r : Scanned F) → r.claims ≡ none → All P (or_empty r.claims)
  unfolding or_empty
  or_empty_none P r e = rw e tt

  All-sound :
      (P : Claims F → Type 0) (xs : List (Claims F)) (c : Claims F)
      → All P xs
      → Any (λ x. x ≡ c) xs
      → P c
  All-sound P (x ∷ xs) c h (inl e) = subst P e h.0
  All-sound P (x ∷ xs) c h (inr k) = All-sound P xs c h.1 k
  All-sound P [] c h k = absurd k

  scan_folder-Genuine :
      (files : Option (List FileInfo)) (expected : j.Expected) (s : Server F j.KeySet)
      (w : Watch F j.KeySet) (r : Scanned F)
      → scan_folder j (loader_of j cert_pool s w) s.license_path files expected ≡ ok r
      → All
          (GenuineIn files (trusting w.jwks s.offline) expected s.license_path)
          (or_empty r.claims)
  unfolding loader_of mode_of scan_folder scan_folder_for_license_claims or_empty
      sort_and_deduplicate
  scan_folder-Genuine none expected s w r e = or_empty_none _ r (ground arith)
  scan_folder-Genuine (some infos) expected s w r e =
      let mode = trusting w.jwks s.offline in
      let (found, scanned, out) =
        >>=-eq-ok (scan_files j mode expected s.license_path w.load_history infos) _ e in
      let result = (sort_and_deduplicate j w.activate_history found.claims).claims in
      let same : some result ≡ r.claims = ground (arith, out) in
      let genuine =
        scan_files-Genuine j mode expected s.license_path infos w.load_history found refl scanned in
      let newest = sort_and_deduplicate-NewestPerUid j w.activate_history found.claims in
      subst (λ o. All (GenuineIn (some infos) mode expected s.license_path) (or_empty o)) same
        (All-imp _ _ (λ c k. (infos, refl, All-sound _ found.claims c genuine k)) result
          newest.sound)

  scan-Genuine :
      (files : Option (List FileInfo)) (expected : j.Expected) (s : Server F j.KeySet)
      (w : Watch F j.KeySet) (r : Scanned F)
      → scan j cert_pool files expected s w ≡ ok r
      → All
          (GenuineIn files (trusting w.jwks s.offline) expected s.license_path)
          (or_empty r.claims)
  unfolding scan loader_of mode_of scan_folder scan_folder_for_license_claims
  scan-Genuine files expected s w r e = elim (string_dec s.license_path "") [
    | yes p ↦ or_empty_none _ r (ground arith)
    | no p ↦ scan_folder-Genuine files expected s w r (ground arith)
  ]

  -- Every license that is served is the entry of the configured sub, or the genuine content of a
  -- file that one of the calls has read, by a key of the pool or of a key set that has been stored.
  module _ (calls : List (LoaderCall j)) (path sub : String) where
    abbrev pub Stored : Option (KeySet j.KeySet) → Type 0
    Stored keys = (keys ≡ none) ⊎ Any (λ r. r.jwks ≡ keys) calls

    abbrev pub BackedBy : LoaderCall j → Claims F → Type 0
    BackedBy r c =
        (keys : Option (KeySet j.KeySet)) × Stored keys
        × GenuineIn r.files (trusting keys r.offline) r.expected path c

    abbrev pub IsBacked : Claims F → Type 0
    IsBacked c = (c ≡ sub_claims sub) ⊎ Any (λ r. BackedBy r c) calls

    pub record Served (s : Server F j.KeySet) (w : Watch F j.KeySet) : Type 0 where
      pub same_path : s.license_path ≡ path
      pub same_sub : s.sub ≡ sub
      pub stored : Stored w.jwks
      pub backed : All IsBacked s.claims

    -- What one call has to do with all calls.
    abbrev Among : LoaderCall j → Type 0
    Among r =
        Any (λ q. q.jwks ≡ r.jwks) calls
        × ((c : Claims F) → BackedBy r c → Any (λ q. BackedBy q c) calls)

    renew-Stored :
        (s : Server F j.KeySet) (w : Watch F j.KeySet)
        → Stored s.jwks
        → Stored w.jwks
        → Stored (renew j cert_pool s w).jwks
    unfolding renew
    renew-Stored s w hs hw = elim (Bool-cases (same_set w.jwks s.jwks)) [
      | inl e ↦ rw (renew, e) hw
      | inr e ↦ rw (renew, e) hs
    ]

    with_sub-All :
        (claims : List (Claims F)) → All IsBacked claims → All IsBacked (with_sub sub claims)
    unfolding with_sub
    with_sub-All claims h = elim (string_dec sub "") [
      | yes e ↦ rw (if_pos (string_dec sub "") e claims (sub_claims sub ∷ claims)) h
      | no e ↦ rw (if_neg (string_dec sub "") e claims (sub_claims sub ∷ claims)) (inl refl, h)
    ]

    apply_scan-Served :
        (s : Server F j.KeySet) (w : Watch F j.KeySet) (r : Scanned F)
        → Served s w
        → All IsBacked (or_empty r.claims)
        → Served (apply_scan j cert_pool s w r).0 (apply_scan j cert_pool s w r).1
    unfolding apply_scan
    apply_scan-Served s w r h k =
        elim (Bool-cases (
          is_silent w.first (subject_of (with_sub s.sub (or_empty r.claims))) w.last_sub r.hooks)) [
            | inl e ↦
                rw (apply_scan, e)
                  (record {
                    same_path = h.same_path;
                    same_sub = h.same_sub;
                    stored = h.stored;
                    backed = h.backed;
                  })
            | inr e ↦
                rw (apply_scan, e)
                  (record {
                    same_path = h.same_path;
                    same_sub = h.same_sub;
                    stored = h.stored;
                    backed = rw h.same_sub (with_sub-All (or_empty r.claims) k);
                  })
          ]

    loader_call-Served :
        (p q : Server F j.KeySet × Watch F j.KeySet) (r : LoaderCall j)
        → Among r
        → loader_call p r ≡ ok q
        → Served p.0 p.1
        → Served q.0 q.1
    unfolding loader_call reload
    loader_call-Served (s, w) q r (known, among) e h =
        let s₁ : Server F j.KeySet = record s { jwks = r.jwks; offline = r.offline } in
        let w₁ = renew j cert_pool s₁ w in
        let (found, scanned, out) = >>=-eq-ok (scan j cert_pool r.files r.expected s₁ w₁) _ e in
        let stored = renew-Stored s₁ w (inr known) h.stored in
        let genuine = scan-Genuine r.files r.expected s₁ w₁ found scanned in
        let backed =
          All-imp _ IsBacked
            (λ c g. inr (
              among c (
                w₁.jwks,
                stored,
                subst (λ x. GenuineIn r.files (trusting w₁.jwks r.offline) r.expected x c)
                    h.same_path g,
              )))
            (or_empty found.claims) genuine in
        let before : Served s₁ w₁ = record {
          same_path = h.same_path;
          same_sub = h.same_sub;
          stored = stored;
          backed = h.backed;
        } in
        subst (λ x. Served x.0 x.1) {x = apply_scan j cert_pool s₁ w₁ found} {y = q} (ok_inj out)
          (apply_scan-Served s₁ w₁ found before backed)

  all-Among : (calls : List (LoaderCall j)) (path sub : String) → All (Among calls path sub) calls
  all-Among calls path sub =
      All-both _ _ calls
        (All-imp _ _ (λ (r : LoaderCall j) h. h r.jwks refl) calls
          (All-witness (λ (r : LoaderCall j) o. r.jwks ≡ o) calls))
        (All-witness (λ r c. BackedBy calls path sub r c) calls)

  pub calls-Served :
      (calls : List (LoaderCall j)) (path sub : String) (p q : Server F j.KeySet × Watch F j.KeySet)
      → each loader_call p calls ≡ ok q
      → Served calls path sub p.0 p.1
      → Served calls path sub q.0 q.1
  calls-Served calls path sub p q run h =
      each_inv_all (λ x. Served calls path sub x.0 x.1) (Among calls path sub) loader_call
        (λ x y r among e k. loader_call-Served calls path sub x y r among e k) calls p q
        (all-Among calls path sub) run h
