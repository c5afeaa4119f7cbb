-- ===== src/Server/Reload/Notify.antt =====
-- When `f` tells the watchers of the claims (server/server.go), and when it does not.
use kustomer.Common.{
  ◌+◌, String, Bool, true, false, not, ◌&&◌, ◌||◌, Option, some, List, ◌≡◌, refl, ◌∙◌, ap, ◌≢◌, inl,
  inr, arith, ◌==◌, string_dec, if_neg, Bool-cases,
}
use kustomer.Common.Map.{Map, has}
use kustomer.Common.Panic.{ok}
use kustomer.License.{Claims}
use kustomer.Loader.Jose.{Jose}
use kustomer.Loader.Folder.{FileInfo, scan_files}
use kustomer.Loader.Dedupe.{sort_and_deduplicate}
use kustomer.Loader.Dedupe.History.{count_id}
use kustomer.Loader.Dedupe.Calls.{Keyed, calls_new}
use kustomer.Loader.Dedupe.Hooks.{sort_and_deduplicate-hooks}
use kustomer.Loader.ScanFolder.{Scanned, mode_of, scan_folder, scan_folder_for_license_claims}
use kustomer.Server.State.{Server}
use kustomer.Server.Reload.{
  Watch, changed, subject_of, with_sub, renew, loader_of, scan, apply_scan, reload,
}
use kustomer.Server.Reload.Changes.{
  changed-calls_new, changed-calls_remove, unchanged, is_silent-changed, is_silent-unchanged,
}

or_left : (a b : Bool) → (a || b) ≡ false → a ≡ false
or_left false b h = refl
or_left true b h = h

or_right : (a b : Bool) → (a || b) ≡ false → b ≡ false
or_right false b h = h
or_right true b h = cc

-- What a scan does to a license id: it is there for the first time, in one license, or it was
-- there and no license has it any more.
abbrev pub is_changed : {F : Type 0} → Map (Claims F) → List (Claims F) → String → Bool
is_changed history claims k =
    (not (has k history) && (count_id k claims == 1)) || (has k history && (count_id k claims == 0))

module _ {F : Type 0} (j : Jose F) (cert_pool : Option j.CertPool) where
  -- The folder is read, without a panic, and `found` holds the licenses that are valid.
  pub record Scans (files : List FileInfo) (expected : j.Expected) (s : Server F j.KeySet)
      (w : Watch F j.KeySet) (history : Map (Claims F)) (found : List (Claims F)) : Type 0 where
    pub has_path : s.license_path ≢ ""
    pub has_history : w.activate_history ≡ some history
    pub keyed : Keyed history
    pub loads : Option (Map (Unit {0}))
    pub scans :
        scan_files j
          (mode_of j (loader_of j cert_pool s (renew j cert_pool s w)) false)
          expected
          s.license_path
          (renew j cert_pool s w).load_history
          files
        ≡ ok (record { claims = found; load_history = loads })

  -- What `f` computes from the valid licenses.
  abbrev scanned : Watch F j.KeySet → Option (Map (Unit {0})) → List (Claims F) → Scanned F
  scanned w loads found =
      let a = sort_and_deduplicate j w.activate_history found in
      record {
        claims = some a.claims;
        load_history = loads;
        activate_history = a.activate_history;
        hooks = a.hooks;
      }

  renew-history :
      (s : Server F j.KeySet) (w : Watch F j.KeySet)
      → ((renew j cert_pool s w).activate_history ≡ w.activate_history)
        × ((renew j cert_pool s w).first ≡ w.first)
        × ((renew j cert_pool s w).last_sub ≡ w.last_sub)
  unfolding renew
  renew-history s w = ground arith

  reload-scanned :
      (files : List FileInfo) (expected : j.Expected) (s : Server F j.KeySet) (w : Watch F j.KeySet)
      (history : Map (Claims F)) (found : List (Claims F))
      (p : Scans files expected s w history found)
      → reload j cert_pool (some files) expected s w
        ≡ ok (
            apply_scan j cert_pool s
              (renew j cert_pool s w)
              (scanned (renew j cert_pool s w) p.loads found))
  unfolding reload scan scan_folder scan_folder_for_license_claims
  reload-scanned files expected s w history found p =
      rw (if_neg (string_dec s.license_path "") p.has_path, p.scans) refl

  -- The active licenses of a scan.
  abbrev pub active : Server F j.KeySet → Map (Claims F) → List (Claims F) → List (Claims F)
  active s history found = with_sub s.sub (sort_and_deduplicate j (some history) found).claims

  apply_scan-notifies :
      (s : Server F j.KeySet) (w : Watch F j.KeySet) (r : Scanned F) (claims : List (Claims F))
      → r.claims ≡ some claims
      → changed r.hooks ≡ true
      → ((apply_scan j cert_pool s w r).0.update_ch ≡ s.update_ch + 1)
        × ((apply_scan j cert_pool s w r).0.claims ≡ with_sub s.sub claims)
  unfolding apply_scan
  apply_scan-notifies s w r claims q h =
      rw (apply_scan, is_silent-changed w.first _ w.last_sub r.hooks h, q) (refl, refl)

  apply_scan-silent :
      (s : Server F j.KeySet) (w : Watch F j.KeySet) (r : Scanned F) (claims : List (Claims F))
      → r.claims ≡ some claims
      → changed r.hooks ≡ false
      → w.first ≡ false
      → subject_of (with_sub s.sub claims) ≡ w.last_sub
      → (apply_scan j cert_pool s w r).0 ≡ s
  unfolding apply_scan
  apply_scan-silent s w r claims q h f l =
      rw (apply_scan, q, is_silent-unchanged w.first _ w.last_sub r.hooks f l h) refl

  changed_by :
      (history : Map (Claims F)) (found : List (Claims F)) (k : String)
      → Keyed history
      → is_changed history found k ≡ true
      → changed (sort_and_deduplicate j (some history) found).hooks ≡ true
  changed_by history found k keyed h =
      let hooks = (sort_and_deduplicate j (some history) found).hooks in
      let (n, r, a) = sort_and_deduplicate-hooks j history found k keyed in
      elim (Bool-cases (calls_new k hooks)) [
        | inl e ↦ changed-calls_new k hooks e
        | inr e ↦ changed-calls_remove k hooks (r ∙ ground (arith, n, e, h))
      ]

  unchanged_by :
      (history : Map (Claims F)) (found : List (Claims F))
      → Keyed history
      → ((k : String) → is_changed history found k ≡ false)
      → changed (sort_and_deduplicate j (some history) found).hooks ≡ false
  unchanged_by history found keyed h =
      unchanged _ (λ k. (sort_and_deduplicate-hooks j history found k keyed).0 ∙ or_left _ _ (h k))
        (λ k. (sort_and_deduplicate-hooks j history found k keyed).1 ∙ or_right _ _ (h k))

  -- Where the folder is scanned without a panic and the history is keyed by the license ids: if, of
  -- the valid licenses, exactly one has a license id that is not in the history, or none has one
  -- that is, then `f` tells the watchers (the update channel is a new one) and the active licenses
  -- become the claims of the server.
  pub reload-notifies :
      (files : List FileInfo) (expected : j.Expected) (s : Server F j.KeySet) (w : Watch F j.KeySet)
      (history : Map (Claims F)) (found : List (Claims F)) (k : String)
      → Scans files expected s w history found
      → is_changed history found k ≡ true
      → (s' : Server F j.KeySet) × ((w' : Watch F j.KeySet) × ((reload j cert_pool
                (some files)
                expected
                s
                w
              ≡ ok (s', w'))
            × (s'.update_ch ≡ s.update_ch + 1)
            × (s'.claims ≡ active s history found)))
  reload-notifies files expected s w history found k p h =
      let w₁ = renew j cert_pool s w in
      let e = (renew-history s w).0 ∙ p.has_history in
      let r = scanned w₁ p.loads found in
      let n = apply_scan-notifies s w₁ r _ refl (rw (e) (changed_by history found k p.keyed h)) in
      (
        _,
        (
          _,
          (
            reload-scanned files expected s w history found p,
            n.0,
            n.1 ∙ ap (λ o. with_sub s.sub (sort_and_deduplicate j o found).claims) e,
          ),
        ),
      )

  -- Where the folder is scanned without a panic, the history is keyed by the license ids, and there
  -- is no such license id: a call of `f` that is not the first, and whose first active license has
  -- the subject of the call before, leaves the server as it is. This is so also where two licenses
  -- with one new license id were found.
  pub reload-silent :
      (files : List FileInfo) (expected : j.Expected) (s : Server F j.KeySet) (w : Watch F j.KeySet)
      (history : Map (Claims F)) (found : List (Claims F))
      → Scans files expected s w history found
      → ((k : String) → is_changed history found k ≡ false)
      → w.first ≡ false
      → subject_of (active s history found) ≡ w.last_sub
      → (w' : Watch F j.KeySet) × (reload j cert_pool (some files) expected s w ≡ ok (s, w'))
  reload-silent files expected s w history found p h f l =
      let w₁ = renew j cert_pool s w in
      let (a, b, c) = renew-history s w in
      let e = a ∙ p.has_history in
      let r = scanned w₁ p.loads found in
      let q =
        apply_scan-silent s w₁ r _ refl (rw (e) (unchanged_by history found p.keyed h)) (b ∙ f)
          (rw (e, c) l) in
      (
        (apply_scan j cert_pool s w₁ r).1,
        reload-scanned files expected s w history found p
            ∙ ap (λ t. ok (t, (apply_scan j cert_pool s w₁ r).1)) q,
      )
