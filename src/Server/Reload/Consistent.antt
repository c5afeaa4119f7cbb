-- ===== src/Server/Reload/Consistent.antt =====
-- What every call of `f` keeps (server/server.go).
use kustomer.Common.{
  ℕ, ◌+◌, ◌≤◌, String, Bool, true, false, ◌||◌, Option, none, some, List, ◌≡◌, refl, subst, arith,
  if◌then◌else◌, string_dec,
}
use kustomer.Common.Panic.{Run, ok, >>=-eq-ok}
use kustomer.Loader.Jose.{Jose}
use kustomer.Loader.Folder.{FileInfo, scan_files}
use kustomer.Loader.Dedupe.Hooks.{KeyedHistory, sort_and_deduplicate-Keyed}
use kustomer.Loader.Dedupe.{Hook, sort_and_deduplicate}
use kustomer.Loader.ScanFolder.{
  LicensesLoader, Scanned, mode_of, scan_folder, scan_folder_for_license_claims,
}
use kustomer.Server.State.{Server}
use kustomer.Server.Reload.{
  Watch, same_set, is_silent, or_empty, subject_of, with_sub, renew, loader_of, scan, apply_scan,
  reload,
}

if-of {ℓ κ} :
    {A : Type ℓ} (P : A → Type κ) (b : Bool) {x y : A}
    → (b ≡ true → P x)
    → (b ≡ false → P y)
    → P (if b then x else y)
if-of P true f g = f refl
if-of P false f g = g refl

pub is_silent-not_first :
    {F : Type 0} (first : Bool) (sub last_sub : String) (hooks : List (Hook F))
    → is_silent first sub last_sub hooks ≡ true
    → first ≡ false
unfolding is_silent
is_silent-not_first first sub last_sub hooks h = ground arith

not_next : (n : ℕ) → n + 1 ≡ n → ⊥
not_next n h = omega arith

pub ok_inj {ℓ} : {A : Type ℓ} {x y : A} → Run.ok x ≡ ok y → x ≡ y
ok_inj h = cc

or_cases : (a b : Bool) → (b ≡ false → a ≡ true) → (a || b) ≡ true
or_cases true b h = refl
or_cases false true h = refl
or_cases false false h = h refl

module _ {F : Type 0} (j : Jose F) (cert_pool : Option j.CertPool) where
  -- Once `f` has been called the server is ready, and the subject it keeps is that of the claims;
  -- the history is keyed by the license ids.
  pub record Consistent (s : Server F j.KeySet) (w : Watch F j.KeySet) : Type 0 where
    pub is_ready : w.first ≡ false → s.ready ≡ true
    pub same_sub : w.first ≡ false → w.last_sub ≡ subject_of s.claims
    pub keyed : KeyedHistory w.activate_history

  -- How one call changes what the watchers of the claims see.
  pub record Told (s s' : Server F j.KeySet) (w' : Watch F j.KeySet) : Type 0 where
    pub not_first : w'.first ≡ false
    pub channel : s.update_ch ≤ s'.update_ch
    -- the claims are changed only with a message to the watchers
    pub silent : s'.update_ch ≡ s.update_ch → s'.claims ≡ s.claims

  folder-Keyed :
      (ll : LicensesLoader j) (folder : String) (files : Option (List FileInfo))
      (expected : j.Expected) (r : Scanned F)
      → scan_folder j ll folder files expected ≡ ok r
      → KeyedHistory ll.activate_history
      → KeyedHistory r.activate_history
  unfolding scan_folder scan_folder_for_license_claims
  folder-Keyed ll folder none expected r e k =
      let q : ll.activate_history ≡ r.activate_history = ground arith in subst KeyedHistory q k
  folder-Keyed ll folder (some files) expected r e k =
      let (found, p, q) =
        >>=-eq-ok (scan_files j (mode_of j ll false) expected folder ll.load_history files) _ e in
      let a = sort_and_deduplicate j ll.activate_history found.claims in
      let same : a.activate_history ≡ r.activate_history = ground (arith, q) in
      subst KeyedHistory same (sort_and_deduplicate-Keyed j ll.activate_history found.claims k)

  scan-Keyed :
      (files : Option (List FileInfo)) (expected : j.Expected) (s : Server F j.KeySet)
      (w : Watch F j.KeySet) (r : Scanned F)
      → scan j cert_pool files expected s w ≡ ok r
      → KeyedHistory w.activate_history
      → KeyedHistory r.activate_history
  unfolding scan
  scan-Keyed files expected s w r e k = elim (string_dec s.license_path "") [
    | yes p ↦
        let q : w.activate_history ≡ r.activate_history = ground arith in subst KeyedHistory q k
    | no p ↦
        folder-Keyed (loader_of j cert_pool s w) s.license_path files expected r (ground arith) k
  ]

  renew-Consistent :
      (s : Server F j.KeySet) (w : Watch F j.KeySet)
      → Consistent s w
      → Consistent s (renew j cert_pool s w)
  unfolding renew
  renew-Consistent s w c =
      if-of (Consistent s) (same_set w.jwks s.jwks) (λ h. c)
        (λ h. record { is_ready = c.is_ready; same_sub = c.same_sub; keyed = c.keyed })

  apply_scan-Consistent :
      (s : Server F j.KeySet) (w : Watch F j.KeySet) (r : Scanned F)
      → Consistent s w
      → KeyedHistory r.activate_history
      → Consistent (apply_scan j cert_pool s w r).0 (apply_scan j cert_pool s w r).1
        × Told s (apply_scan j cert_pool s w r).0 (apply_scan j cert_pool s w r).1
  unfolding apply_scan
  apply_scan-Consistent s w r c k =
      if-of (λ (p : Server F j.KeySet × Watch F j.KeySet). Consistent p.0 p.1 × Told s p.0 p.1)
        (is_silent w.first (subject_of (with_sub s.sub (or_empty r.claims))) w.last_sub r.hooks)
        (λ h. (
          record { is_ready = c.is_ready; same_sub = c.same_sub; keyed = k },
          record {
            not_first = is_silent-not_first w.first _ w.last_sub r.hooks h;
            channel = omega arith;
            silent = λ q. refl;
          },
        ))
        (λ h. (
          record {
            is_ready = λ q. or_cases s.ready w.first c.is_ready;
            same_sub = λ q. refl;
            keyed = k;
          },
          record { not_first = refl; channel = omega arith; silent = λ q. elim (not_next _ q) [ ] },
        ))

  -- A call of `f` that does not panic keeps the server and the variables of `f` consistent, is not
  -- followed by a first call, never takes back an update channel, and changes the claims only where
  -- it tells the watchers.
  pub reload-Consistent :
      (files : Option (List FileInfo)) (expected : j.Expected) (s s' : Server F j.KeySet)
      (w w' : Watch F j.KeySet)
      → reload j cert_pool files expected s w ≡ ok (s', w')
      → Consistent s w
      → Consistent s' w' × Told s s' w'
  unfolding reload
  reload-Consistent files expected s s' w w' e c =
      let w₁ = renew j cert_pool s w in
      let (r, p, q) = >>=-eq-ok (scan j cert_pool files expected s w₁) _ e in
      let c₁ = renew-Consistent s w c in
      subst (λ t. Consistent t.0 t.1 × Told s t.0 t.1) (ok_inj q)
        (apply_scan-Consistent s w₁ r c₁ (scan-Keyed files expected s w₁ r p c₁.keyed))
