-- ===== src/Server/Reload/Moves.antt =====
-- The function `f` (server/server.go) and the loader's moves in the model of all goroutines.
use kustomer.Common.{
  ℕ, ◌+◌, Bool, true, false, ◌||◌, Option, some, List, ◌≡◌, ◌⊎◌, inl, inr, refl, sym, ap, subst,
  ◌∙◌, arith, ltb, Bool-cases, if◌then◌else◌,
}
use kustomer.Common.Panic.{ok, >>=-eq-ok}
use kustomer.Loader.Jose.{Jose}
use kustomer.Loader.Folder.{FileInfo}
use kustomer.Loader.ScanFolder.{Scanned}
use kustomer.Server.State.{Server}
use kustomer.Server.Serve.{System, Move, beginning, finishing}
use kustomer.Server.Serve.Scans.{scanned, told, run-unchanged, run-changed}
use kustomer.Server.Serve.Deadlock.{run}
use kustomer.Server.Reload.{
  Watch, is_silent, or_empty, subject_of, with_sub, renew, scan, apply_scan, reload,
}
use kustomer.Server.Reload.Consistent.{is_silent-not_first, ok_inj}

ready_lem :
    (first : Bool) (n : ℕ) (ready was : Bool)
    → first ≡ was
    → ltb 0 n ≡ ready
    → ltb 0 (if first then n + 1 else n) ≡ (ready || was)
ready_lem true n ready true e h = ground arith
ready_lem true n ready false e h = absurd (ground arith)
ready_lem false n ready true e h = absurd (ground arith)
ready_lem false n ready false e h = ground arith

-- The model of the goroutines has the channel, the `readyCh` and the variable `first` of the server
-- and of `f`. Its channels are numbered from 0.
pub record Mirrors {F K : Type 0} (sys : System) (s : Server F K) (w : Watch F K) : Type 0 where
  pub channel : sys.update_ch + 1 ≡ s.update_ch
  pub is_first : sys.first ≡ w.first
  pub is_ready : ltb 0 sys.ready ≡ s.ready

ready_after :
    {F K : Type 0} (sys : System) (s : Server F K) (w : Watch F K)
    → Mirrors sys s w
    → ltb 0 (if sys.first then sys.ready + 1 else sys.ready) ≡ (s.ready || w.first)
ready_after sys s w h = ready_lem sys.first sys.ready s.ready w.first h.is_first h.is_ready

module _ {F : Type 0} (j : Jose F) (cert_pool : Option j.CertPool) where
  apply_scan-cases :
      (s : Server F j.KeySet) (w : Watch F j.KeySet) (r : Scanned F)
      → ((w.first ≡ false)
          × ((apply_scan j cert_pool s w r).0 ≡ s)
          × ((apply_scan j cert_pool s w r).1.first ≡ w.first))
        ⊎ (((apply_scan j cert_pool s w r).0.update_ch ≡ s.update_ch + 1)
            × ((apply_scan j cert_pool s w r).0.ready ≡ (s.ready || w.first))
            × ((apply_scan j cert_pool s w r).1.first ≡ false))
  unfolding apply_scan
  apply_scan-cases s w r =
      elim (Bool-cases
        (is_silent w.first (subject_of (with_sub s.sub (or_empty r.claims))) w.last_sub r.hooks)) [
          | inl e ↦ inl (
            is_silent-not_first {F = F} w.first _ w.last_sub r.hooks e,
            ground arith,
            ground arith,
          )
          | inr e ↦ inr (ground arith, ground arith, ground arith)
        ]

  renew_first :
      (s : Server F j.KeySet) (w : Watch F j.KeySet) → (renew j cert_pool s w).first ≡ w.first
  unfolding renew
  renew_first s w = ground arith

  Mirrors-apply_scan :
      (cb : Option ℕ) (sys : System) (s : Server F j.KeySet) (w : Watch F j.KeySet) (r : Scanned F)
      → sys.loader ≡ beginning cb
      → sys.locked ≡ false
      → Mirrors sys s w
      → (ms : List Move) × (t : System) × (run ms sys ≡ some t)
        × (t.loader ≡ finishing cb)
        × (t.keys ≡ sys.jwks)
        × Mirrors t (apply_scan j cert_pool s w r).0 (apply_scan j cert_pool s w r).1
  Mirrors-apply_scan cb sys s w r l k h = elim (apply_scan-cases s w r) [
    | inl (f, same, first) ↦ (
      _,
      record (scanned cb sys) { loader = finishing cb },
      run-unchanged cb sys l k (h.is_first ∙ f),
      refl,
      refl,
      record {
        channel = h.channel ∙ sym (ap (λ (x : Server F j.KeySet). x.update_ch) same);
        is_first = h.is_first ∙ sym first;
        is_ready = h.is_ready ∙ sym (ap (λ (x : Server F j.KeySet). x.ready) same);
      },
    )
    | inr (channel, ready, first) ↦ (
      _,
      told cb sys,
      run-changed cb sys l k,
      refl,
      refl,
      record {
        channel = omega (arith, channel, h.channel);
        is_first = sym first;
        is_ready = ready_after sys s w h ∙ sym ready;
      },
    )
  ]

  -- In a state of the goroutines where a scan is about to begin and the mutex is free, and which
  -- mirrors the server and the variables of `f` (see `Mirrors`): if a call of `f` does not panic,
  -- some moves lead to a state at the end of the scan, with the newest key set, which mirrors what
  -- the call makes of the server and the variables.
  pub reload-Mirrors :
      (cb : Option ℕ) (sys : System) (files : Option (List FileInfo)) (expected : j.Expected)
      (s s' : Server F j.KeySet) (w w' : Watch F j.KeySet)
      → sys.loader ≡ beginning cb
      → sys.locked ≡ false
      → Mirrors sys s w
      → reload j cert_pool files expected s w ≡ ok (s', w')
      → (ms : List Move) × (t : System) × (run ms sys ≡ some t)
        × (t.loader ≡ finishing cb)
        × (t.keys ≡ sys.jwks)
        × Mirrors t s' w'
  unfolding reload
  reload-Mirrors cb sys files expected s s' w w' l k h e =
      let (r, _, out) = >>=-eq-ok (scan j cert_pool files expected s (renew j cert_pool s w)) _ e in
      let renewed : Mirrors sys s (renew j cert_pool s w) = record {
        channel = h.channel;
        is_first = h.is_first ∙ sym (renew_first s w);
        is_ready = h.is_ready;
      } in
      subst
        (λ (p : Server F j.KeySet × Watch F j.KeySet).
          (ms : List Move) × (t : System) × (run ms sys ≡ some t)
          × (t.loader ≡ finishing cb)
          × (t.keys ≡ sys.jwks)
          × Mirrors t p.0 p.1)
        {x = apply_scan j cert_pool s (renew j cert_pool s w) r} {y = (s', w')} (ok_inj out)
        (Mirrors-apply_scan cb sys s (renew j cert_pool s w) r l k renewed)
