-- ===== src/Server/Refresh/Moves.antt =====
-- The loop body of the refresher (server/server.go) and its moves in the model of all goroutines.
use kustomer.Common.{
  ℕ, ◌+◌, Bool, true, false, ◌&&◌, ◌||◌, Option, none, some, List, ◌≡◌, ◌⊎◌, inl, inr, refl, sym,
  ap, ◌∙◌, if◌then◌else◌,
}
use kustomer.Jwks.{Updated}
use kustomer.Server.State.{KeySet, Server}
use kustomer.Server.Refresh.{refresh, store_jwks}
use kustomer.Server.Serve.{System, Move, fetching, sleeping}
use kustomer.Server.Serve.Deadlock.{run}
use kustomer.Server.Serve.Rounds.{round_moves, round_over, run-round}

-- Whether `Update` has returned a set and no error.
abbrev is_new : {J : Type 0} → Bool → Option (KeySet J) → Bool
is_new true set = false
is_new false none = false
is_new false (some k) = true

module _ {F J : Type 0} where
  -- The server keeps its set, or has the new one; so does the model, which counts the sets.
  abbrev Stores : (s s' : Server F J) → Option (KeySet J) → (was now : ℕ) → Type 0
  Stores s s' set was now =
      ((now ≡ was) × (s'.jwks ≡ s.jwks))
      ⊎ ((now ≡ was + 1) × ((k : KeySet J) × (set ≡ some k) × (s'.jwks ≡ some k)))

  store_jwks-Stores :
      (started err : Bool) (s : Server F J) (set : Option (KeySet J)) (n : ℕ)
      → ((store_jwks started s err set).triggers ≡ (is_new err set && started))
        × Stores s (store_jwks started s err set).server set n (if is_new err set then n + 1 else n)
  unfolding store_jwks
  store_jwks-Stores started true s set n = (refl, inl (refl, refl))
  store_jwks-Stores started false s none n = (refl, inl (refl, refl))
  store_jwks-Stores started false s (some k) n = (refl, inr (refl, (k, refl, refl)))

  -- In a state of the goroutines where the refresher is fetching and the mutex is free, let a round
  -- of the loop body run with the same `started`. Unless it sends while `triggerCh` is full, the
  -- refresher's moves lead to the end of its round, with a value in `triggerCh` just where there
  -- was one or the round has sent one; and either the model and the server keep their key set, or
  -- the model counts a new one and the server has the one that `Update` has returned.
  pub refresh_moves :
      (started : Bool) (s : Server F J) (u : Updated (KeySet J)) (sys : System)
      → sys.jwks_pc ≡ fetching
      → sys.locked ≡ false
      → sys.started ≡ started
      → (sys.triggered && (refresh started s u).triggers) ≡ false
      → (ms : List Move) × (t : System) × (run ms sys ≡ some t)
        × (t.jwks_pc ≡ sleeping)
        × (t.started ≡ true)
        × (t.triggered ≡ (sys.triggered || (refresh started s u).triggers))
        × (((t.jwks ≡ sys.jwks) × ((refresh started s u).server.jwks ≡ s.jwks))
            ⊎ ((t.jwks ≡ sys.jwks + 1)
                × ((k : KeySet J) × (u.set ≡ some k)
                    × ((refresh started s u).server.jwks ≡ some k))))
  unfolding refresh
  refresh_moves started s u sys p l e w =
      let (sends, stores) = store_jwks-Stores started u.err s u.set sys.jwks in
      let new = is_new u.err u.set in
      (
        round_moves started new,
        round_over started new sys,
        run-round started new sys p l e (ap (λ b. sys.triggered && b) (sym sends) ∙ w),
        refl,
        refl,
        ap (λ b. sys.triggered || b) (sym sends),
        stores,
      )
