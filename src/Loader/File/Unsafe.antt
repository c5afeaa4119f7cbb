-- ===== src/Loader/File/Unsafe.antt =====
-- When the loader panics at a file (licenses.go).
use kustomer.Common.{
  String, true, false, Option, none, some, [], ◌∷◌, List, ◌≡◌, ◌↔◌, ◌⊎◌, inl, inr, ℕ, take, arith,
  refl, Option-cases, Bool-cases,
}
use kustomer.Common.Panic.{Run, ok, panic, ◌>>=◌}
use kustomer.Loader.Jose.{Jose}
use kustomer.Loader.Trim.{trim_bytes}
use kustomer.Loader.File.{
  Mode, Choice, ignore, go_on, license_size_limit_bytes, is_accepted_alg, online_key, select_key,
  decode, check_claims, with_key, with_headers, with_raw, read_license,
}

module _ {F : Type 0} (j : Jose F) (mode : Mode j) where
  -- The key set lacks the key of a license, and it does not matter.
  abbrev pub LacksKey : j.Header → Type 0
  LacksKey header =
      (mode.unsafe ≡ true)
      × ((set : j.KeySet) × (mode.jwks ≡ some set) × (j.keys_of set (j.key_id header) ≡ []))

  -- The payload is decoded without an error, and holds no object of claims.
  abbrev pub LacksClaims : j.Token → j.Header → Type 0
  LacksClaims token header =
      (key : Option j.Key) × (select_key j mode header ≡ ok (go_on key))
      × ((decode j mode token key).failed ≡ false)
      × ((decode j mode token key).claims ≡ none)

  online_key-panic :
      (header : j.Header) (set : j.KeySet) (keys : List j.Key)
      → mode.jwks ≡ some set
      → j.keys_of set (j.key_id header) ≡ keys
      → online_key j mode keys ≡ panic
      → LacksKey header
  unfolding online_key
  online_key-panic header set [] q k e = (ground arith, (set, q, k))
  online_key-panic header set (x ∷ xs) q k e = cc

  select_key-LacksKey : (header : j.Header) → select_key j mode header ≡ panic → LacksKey header
  unfolding select_key
  select_key-LacksKey header e = elim (Option-cases mode.jwks) [
    | inl q ↦ absurd (ground arith)
    | inr (set, q) ↦ online_key-panic header set _ q refl (ground arith)
  ]

  LacksKey-select_key : (header : j.Header) → LacksKey header → select_key j mode header ≡ panic
  unfolding select_key online_key
  LacksKey-select_key header (unsafe, (set, q, lacks)) = ground arith

  module _ (expected : j.Expected) (fn : String) (raw : List ℕ) (token : j.Token) where
    abbrev Lacks : j.Header → Type 0
    Lacks header = LacksKey header ⊎ LacksClaims token header

    with_key-Lacks :
        (header : j.Header) (r : Run (Choice j.Key))
        → select_key j mode header ≡ r
        → (r >>= with_key j mode expected fn raw token) ≡ panic
        → Lacks header
    unfolding with_key check_claims
    with_key-Lacks header panic q e = inl (select_key-LacksKey header q)
    with_key-Lacks header (ok ignore) q e = cc
    with_key-Lacks header (ok (go_on key)) q e = inr (key, q, ground arith, ground arith)

    Lacks-with_headers :
        (header : j.Header)
        → is_accepted_alg (j.algorithm header) ≡ true
        → Lacks header
        → with_headers j mode expected fn raw token (header ∷ []) ≡ panic
    unfolding with_headers with_key check_claims
    Lacks-with_headers header alg (inl lacks) = ground (arith, LacksKey-select_key header lacks)
    Lacks-with_headers header alg (inr (key, q, works, empty)) = ground arith

    with_headers-Lacks :
        (headers : List j.Header)
        → with_headers j mode expected fn raw token headers ≡ panic
        → (header : j.Header) × (headers ≡ header ∷ [])
          × (is_accepted_alg (j.algorithm header) ≡ true)
          × Lacks header
    unfolding with_headers
    with_headers-Lacks [] e = cc
    with_headers-Lacks (h ∷ (h' ∷ hs)) e = cc
    with_headers-Lacks (h ∷ []) e = elim (Bool-cases (is_accepted_alg (j.algorithm h))) [
      | inl a ↦ (h, refl, a, with_key-Lacks h (select_key j mode h) refl (ground arith))
      | inr a ↦ absurd (ground arith)
    ]

  -- The loader panics at a file that can be read exactly if its license can be parsed, has one
  -- header and an accepted algorithm, and either `unsafe` is set and there is a key set that has no
  -- key for it, or the key search does not ignore it, its payload is decoded without an error, and
  -- the payload holds no claims (a nil `*jwt.Claims`).
  pub read_license-panic_iff :
      (expected : j.Expected) (fn : String) (bytes : List ℕ)
      → (read_license j mode expected fn (some bytes) ≡ panic) ↔ (
          (token : j.Token) × (header : j.Header) × (j.parse_signed
              (trim_bytes (take license_size_limit_bytes bytes))
            ≡ some token)
          × (j.headers token ≡ header ∷ [])
          × (is_accepted_alg (j.algorithm header) ≡ true)
          × (LacksKey header ⊎ LacksClaims token header))
  unfolding read_license with_raw
  read_license-panic_iff expected fn bytes =
      let raw = trim_bytes (take license_size_limit_bytes bytes) in
      (
        λ e. elim (Option-cases (j.parse_signed raw)) [
          | inl q ↦ absurd (ground arith)
          | inr (token, q) ↦
              let (header, one, alg, lacks) =
                with_headers-Lacks expected fn raw token (j.headers token) (ground arith) in
              (token, header, q, one, alg, lacks)
        ],
        λ (token, header, q, one, alg, lacks).
            ground (arith, Lacks-with_headers expected fn raw token header alg lacks),
      )
