-- ===== src/Jwks/Update.antt =====
-- What one `Update` of the fetcher tries, and what it leaves (jwks.go).
use kustomer.Common.{
  ℕ, zero, suc, ◌+◌, ◌≤◌, ◌<◌, String, Bool, true, false, none, some, List, [], ◌∷◌, ◌≡◌, refl, sym,
  ◌⊎◌, inl, inr, arith, subst, ap, ℕ_discrete, dec_le, length, get_elem?, leb, Bool-cases, ◌∙◌,
}
use kustomer.Common.Panic.{ok, IsOk}
use kustomer.Jwks.{
  Network, JwksFetcher, Fetched, fetched, failed, Updated, read_exchange, uri_index, fetch,
  update_from, update,
}

none_below : (i : ℕ) → i < 0 → ⊥
none_below i h = omega arith

get_elem?-in_range :
    {A : Type 0} (xs : List A) (i : ℕ) → i < length xs → (a : A) × (get_elem? xs i ≡ some a)
get_elem?-in_range [] i h = elim (none_below i h) [ ]
get_elem?-in_range (x ∷ xs) zero h = (x, refl)
get_elem?-in_range (x ∷ xs) (suc i) h = get_elem?-in_range xs i (omega arith)

uri_index-in_range : (attempt n : ℕ) → 0 < n → uri_index attempt n < n
unfolding uri_index
uri_index-in_range attempt n h = ground arith

leb-true : (m n : ℕ) → m ≤ n → leb m n ≡ true
leb-true m n h = ground arith

leb-false : (m n : ℕ) → n < m → leb m n ≡ false
leb-false m n h = ground arith

module _ {J : Type 0} (net : Network J) where
  fetch-IsOk : (f : JwksFetcher J) (attempt : ℕ) → 0 < length f.uris → IsOk (fetch net f attempt)
  unfolding fetch
  fetch-IsOk f attempt h =
      let i = uri_index attempt (length f.uris) in
      let (uri, e) = get_elem?-in_range f.uris i (uri_index-in_range attempt (length f.uris) h) in
      (read_exchange f.etag (net.exchange attempt uri f.user_agent f.etag), rw (fetch, e) refl)

  -- How the last attempt ends, and what the fetcher is then.
  pub data Last (f : JwksFetcher J) (attempt : ℕ) (u : Updated J) : Type 0 where
    stored :
        (set : J) (etag : String)
        → fetch net f attempt ≡ ok (fetched (some set) etag)
        → u ≡ record {
          fetcher = record f { offline = false; jwks = some set; etag = etag };
          set = some set;
          err = false;
        }
        → Last f attempt u
    unchanged :
        (etag : String)
        → fetch net f attempt ≡ ok (fetched none etag)
        → u ≡ record { fetcher = record f { offline = false }; set = none; err = false }
        → Last f attempt u
    exhausted :
        fetch net f attempt ≡ ok failed
        → f.max_retries ≤ attempt
        → u ≡ record { fetcher = record f { offline = true }; set = none; err = true }
        → Last f attempt u
    cancelled :
        fetch net f attempt ≡ ok failed
        → attempt < f.max_retries
        → net.is_done attempt ≡ true
        → u ≡ record { fetcher = record f { offline = true }; set = none; err = false }
        → Last f attempt u

  -- The attempts from `first` on: all but the last fail, and the context is not done after them.
  pub record Tried (f : JwksFetcher J) (first : ℕ) (u : Updated J) : Type 0 where
    pub attempts : ℕ
    pub bound : (attempts ≤ f.max_retries) ⊎ (attempts ≡ first)
    pub earlier :
        (b : ℕ) → first ≤ b → b < attempts → (fetch net f b ≡ ok failed) × (net.is_done b ≡ false)
    pub last : Last f attempts u

  next :
      (f : JwksFetcher J) (attempt : ℕ) (u : Updated J)
      → fetch net f attempt ≡ ok failed
      → attempt < f.max_retries
      → net.is_done attempt ≡ false
      → Tried f (attempt + 1) u
      → Tried f attempt u
  next f attempt u e lt d t = record {
    attempts = t.attempts;
    bound = within t.bound;
    earlier = λ b lo hi. elim (ℕ_discrete attempt b) [
      | yes p ↦ (subst (λ a. fetch net f a ≡ ok failed) p e, ap net.is_done (sym p) ∙ d)
      | no p ↦ t.earlier b (omega arith) hi
    ];
    last = t.last;
  }
    where
      within :
          {n : ℕ} → (n ≤ f.max_retries) ⊎ (n ≡ attempt + 1) → (n ≤ f.max_retries) ⊎ (n ≡ attempt)
      within (inl h) = inl h
      within (inr h) = inl (omega (arith, h, lt))

  -- One attempt that is the last.
  at_once : (f : JwksFetcher J) (attempt : ℕ) (u : Updated J) → Last f attempt u → Tried f attempt u
  at_once f attempt u last = record {
    attempts = attempt;
    bound = inr refl;
    earlier = λ b lo hi. elim (none_below 0 (omega (arith, lo, hi))) [ ];
    last = last;
  }

  Fetched-cases :
      (r : Fetched J)
      → ((set : J) × ((etag : String) × (r ≡ fetched (some set) etag)))
        ⊎ (((etag : String) × (r ≡ fetched none etag)) ⊎ (r ≡ failed))
  Fetched-cases (fetched (some set) etag) = inl (set, (etag, refl))
  Fetched-cases (fetched none etag) = inr (inl (etag, refl))
  Fetched-cases failed = inr (inr refl)

  abbrev Returns : ℕ → ℕ → JwksFetcher J → Bool → Type 0
  Returns fuel attempt f offline =
      (u : Updated J) × ((update_from net fuel (record f { offline = offline }) attempt
          ≡ some (ok u))
        × Tried f attempt u)

  fetch-offline :
      (f : JwksFetcher J) (attempt : ℕ) (offline : Bool)
      → fetch net (record f { offline = offline }) attempt ≡ fetch net f attempt
  unfolding fetch
  fetch-offline f attempt offline = refl

  stores :
      (fuel attempt : ℕ) (f : JwksFetcher J) (offline : Bool) (set : J) (etag : String)
      → fetch net f attempt ≡ ok (fetched (some set) etag)
      → Returns (suc fuel) attempt f offline
  unfolding update_from
  stores fuel attempt f offline set etag e =
      let o = fetch-offline f attempt offline in
      (_, (rw (update_from, o, e) refl, at_once f attempt _ (stored set etag e refl)))

  keeps :
      (fuel attempt : ℕ) (f : JwksFetcher J) (offline : Bool) (etag : String)
      → fetch net f attempt ≡ ok (fetched none etag)
      → Returns (suc fuel) attempt f offline
  unfolding update_from
  keeps fuel attempt f offline etag e =
      let o = fetch-offline f attempt offline in
      (_, (rw (update_from, o, e) refl, at_once f attempt _ (unchanged etag e refl)))

  gives_up :
      (fuel attempt : ℕ) (f : JwksFetcher J) (offline : Bool)
      → fetch net f attempt ≡ ok failed
      → f.max_retries ≤ attempt
      → Returns (suc fuel) attempt f offline
  unfolding update_from
  gives_up fuel attempt f offline e h =
      let o = fetch-offline f attempt offline in
      (
        _,
        (
          rw (update_from, o, e, leb-true f.max_retries attempt h) refl,
          at_once f attempt _ (exhausted e h refl),
        ),
      )

  is_cancelled :
      (fuel attempt : ℕ) (f : JwksFetcher J) (offline : Bool)
      → fetch net f attempt ≡ ok failed
      → attempt < f.max_retries
      → net.is_done attempt ≡ true
      → Returns (suc fuel) attempt f offline
  unfolding update_from
  is_cancelled fuel attempt f offline e h d =
      let o = fetch-offline f attempt offline in
      (
        _,
        (
          rw (update_from, o, e, leb-false f.max_retries attempt h, d) refl,
          at_once f attempt _ (cancelled e h d refl),
        ),
      )

  goes_on :
      (fuel attempt : ℕ) (f : JwksFetcher J) (offline : Bool)
      → fetch net f attempt ≡ ok failed
      → attempt < f.max_retries
      → net.is_done attempt ≡ false
      → Returns fuel (attempt + 1) f true
      → Returns (suc fuel) attempt f offline
  unfolding update_from
  goes_on fuel attempt f offline e h d (u, (q, t)) =
      let o = fetch-offline f attempt offline in
      (
        u,
        (rw (update_from, o, e, leb-false f.max_retries attempt h, d) q, next f attempt u e h d t),
      )

  update_from-Tried :
      (fuel attempt : ℕ) (f : JwksFetcher J) (offline : Bool)
      → 0 < length f.uris
      → 0 < fuel
      → f.max_retries < fuel + attempt
      → Returns fuel attempt f offline
  update_from-Tried zero attempt f offline l p q = elim (none_below 0 p) [ ]
  update_from-Tried (suc fuel) attempt f offline l p q =
      let (r, e) = fetch-IsOk f attempt l in
      elim (Fetched-cases r) [
        | inl (set, (etag, h)) ↦ stores fuel attempt f offline set etag (e ∙ ap ok h)
        | inr (inl (etag, h)) ↦ keeps fuel attempt f offline etag (e ∙ ap ok h)
        | inr (inr h) ↦ elim (dec_le f.max_retries attempt) [
          | yes le ↦ gives_up fuel attempt f offline (e ∙ ap ok h) le
          | no gt ↦ elim (Bool-cases (net.is_done attempt)) [
            | inl d ↦ is_cancelled fuel attempt f offline (e ∙ ap ok h) (omega (arith, gt)) d
            | inr d ↦ goes_on fuel attempt f offline (e ∙ ap ok h) (omega (arith, gt)) d (
                update_from-Tried fuel (attempt + 1) f true l (omega (arith, gt, q))
                  (omega (arith, gt, q)))
          ]
        ]
      ]

  -- Where there is a URI, `Update` returns without a panic: at most `MaxRetries` attempts are made
  -- (and at least one), each but the last fails while the context is not done, and the last stores
  -- the set and its etag, or finds it not modified, or fails and is the last one allowed, or fails
  -- and the context is done. The fetcher is offline afterwards just where the last attempt failed.
  pub update-Tried :
      (f : JwksFetcher J)
      → 0 < length f.uris
      → (u : Updated J) × ((update net f ≡ some (ok u)) × Tried f 1 u)
  unfolding update
  update-Tried f l =
      update_from-Tried (f.max_retries + 1) 1 f f.offline l (omega arith) (omega arith)
