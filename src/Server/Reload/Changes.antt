-- ===== src/Server/Reload/Changes.antt =====
-- `changed` and the early return of `f` (server/server.go), from the hooks that a scan calls.
use kustomer.Common.{
  String, Bool, true, false, List, [], ◌∷◌, ◌≡◌, refl, sym, ◌∙◌, arith, string_dec, if_pos,
}
use kustomer.Loader.Dedupe.{Hook, on_activate, on_remove, on_new, on_skip}
use kustomer.Loader.Dedupe.Calls.{calls_new, calls_remove}
use kustomer.Server.Reload.{changed, is_silent}

module _ {F : Type 0} where
  pub changed-calls_new :
      (k : String) (hooks : List (Hook F)) → calls_new k hooks ≡ true → changed hooks ≡ true
  unfolding changed
  changed-calls_new k [] h = h
  changed-calls_new k (on_remove c ∷ hooks) h = refl
  changed-calls_new k (on_new c ∷ hooks) h = refl
  changed-calls_new k (on_activate c ∷ hooks) h = changed-calls_new k hooks h
  changed-calls_new k (on_skip c ∷ hooks) h = changed-calls_new k hooks h

  pub changed-calls_remove :
      (k : String) (hooks : List (Hook F)) → calls_remove k hooks ≡ true → changed hooks ≡ true
  unfolding changed
  changed-calls_remove k [] h = h
  changed-calls_remove k (on_remove c ∷ hooks) h = refl
  changed-calls_remove k (on_new c ∷ hooks) h = refl
  changed-calls_remove k (on_activate c ∷ hooks) h = changed-calls_remove k hooks h
  changed-calls_remove k (on_skip c ∷ hooks) h = changed-calls_remove k hooks h

  pub is_silent-changed :
      (first : Bool) (sub last_sub : String) (hooks : List (Hook F))
      → changed hooks ≡ true
      → is_silent first sub last_sub hooks ≡ false
  unfolding is_silent
  is_silent-changed first sub last_sub hooks h = ground arith

  pub is_silent-unchanged :
      (first : Bool) (sub last_sub : String) (hooks : List (Hook F))
      → first ≡ false
      → sub ≡ last_sub
      → changed hooks ≡ false
      → is_silent first sub last_sub hooks ≡ true
  unfolding is_silent
  is_silent-unchanged first sub last_sub hooks f l h = ground arith

  -- Where no license id is called for, nothing has changed.
  pub unchanged :
      (hooks : List (Hook F))
      → ((k : String) → calls_new k hooks ≡ false)
      → ((k : String) → calls_remove k hooks ≡ false)
      → changed hooks ≡ false
  unfolding changed
  unchanged [] n r = refl
  unchanged (on_remove c ∷ hooks) n r =
      sym (if_pos (string_dec c.license_id c.license_id) refl _ _) ∙ r c.license_id
  unchanged (on_new c ∷ hooks) n r =
      sym (if_pos (string_dec c.license_id c.license_id) refl _ _) ∙ n c.license_id
  unchanged (on_activate c ∷ hooks) n r = unchanged hooks n r
  unchanged (on_skip c ∷ hooks) n r = unchanged hooks n r
