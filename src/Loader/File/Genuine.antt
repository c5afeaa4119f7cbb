-- ===== src/Loader/File/Genuine.antt =====
-- What a license file went through before its claims are used (licenses.go).
use kustomer.Common.{
  ℕ, String, true, false, Option, none, some, List, [], ◌∷◌, ◌≡◌, refl, ◌≢◌, ◌⊎◌, inl, inr,
  string_dec, arith, Option-cases, Bool-cases, subst, ite, take,
}
use kustomer.Common.Panic.{ok, >>=-eq-ok}
use kustomer.License.{JwtClaims, Claims}
use kustomer.Loader.Jose.{Jose, Decoded}
use kustomer.Loader.Trim.{trim_bytes, trim_text}
use kustomer.Loader.File.{
  Mode, Choice, ignore, go_on, Reading, default_license_leeway, license_size_limit_bytes,
  is_accepted_alg, online_key, first_public_key, offline_choice, offline_key, select_key, decode,
  loaded_claims, check_claims, ignored, with_key, with_headers, with_raw, read_license,
}

module _ {F : Type 0} (j : Jose F) (mode : Mode j) where
  -- The key is the first key of that name in the key set; without a key set it is the key of the
  -- first certificate of a chain that was verified with the certificate pool, offline only.
  pub data Trusted (header : j.Header) (key : j.Key) : Type 0 where
    online :
        (set : j.KeySet)
        → mode.jwks ≡ some set
        → (others : List j.Key) → j.keys_of set (j.key_id header) ≡ key ∷ others
        → Trusted header key
    offline :
        mode.jwks ≡ none
        → mode.offline ≡ true
        → (pool : j.CertPool) → mode.cert_pool ≡ some pool
        → (cert : j.Cert) (chain : List j.Cert) (chains : List (List j.Cert))
        → j.certificates header pool ≡ some ((cert ∷ chain) ∷ chains)
        → j.public_key cert ≡ some key
        → Trusted header key

  first_public_key_inv :
      (chains : List (List j.Cert)) (key : j.Key)
      → first_public_key j mode chains ≡ some key
      → (cert : j.Cert) × (chain : List j.Cert) × (rest : List (List j.Cert)) × (chains
          ≡ (cert ∷ chain) ∷ rest)
        × (j.public_key cert ≡ some key)
  unfolding first_public_key
  first_public_key_inv ((cert ∷ chain) ∷ rest) key e = (cert, chain, rest, refl, e)
  first_public_key_inv ([] ∷ rest) key e = cc
  first_public_key_inv [] key e = cc

  offline_key_inv :
      (header : j.Header) (k : Option j.Key)
      → mode.unsafe ≡ false
      → offline_key j mode header ≡ go_on k
      → (mode.offline ≡ true)
        × ((pool : j.CertPool) × (chains : List (List j.Cert)) × (key : j.Key) × (mode.cert_pool
              ≡ some pool)
            × (j.certificates header pool ≡ some chains)
            × (first_public_key j mode chains ≡ some key)
            × (k ≡ some key))
  unfolding offline_key offline_choice
  offline_key_inv header k safe e = elim (Option-cases mode.cert_pool) [
    | inl p ↦ ground arith
    | inr (pool, p) ↦ elim (Option-cases (j.certificates header pool)) [
      | inl c ↦ ground arith
      | inr (chains, c) ↦ elim (Option-cases (first_public_key j mode chains)) [
        | inl f ↦ ground arith
        | inr (key, f) ↦ (ground arith, (pool, chains, key, p, c, f, ground arith))
      ]
    ]
  ]

  -- Without `unsafe`, the code goes on only with a trusted key.
  select_key-Trusted :
      (header : j.Header) (k : Option j.Key)
      → mode.unsafe ≡ false
      → select_key j mode header ≡ ok (go_on k)
      → (key : j.Key) × (k ≡ some key) × Trusted header key
  unfolding select_key
  select_key-Trusted header k safe e = elim (Option-cases mode.jwks) [
    | inr (set, q) ↦ on_keys set q (j.keys_of set (j.key_id header)) refl (ground arith)
    | inl q ↦
        let (on, (pool, chains, key, p, c, f, same)) =
          offline_key_inv header k safe (ground arith) in
        let (cert, chain, rest, shape, public) = first_public_key_inv chains key f in
        (key, same, offline q on pool p cert chain rest (rw shape at c) public)
  ]
    where
      on_keys :
          (set : j.KeySet)
          → mode.jwks ≡ some set
          → (keys : List j.Key) → j.keys_of set (j.key_id header) ≡ keys
          → online_key j mode keys ≡ ok (go_on k)
          → (key : j.Key) × (k ≡ some key) × Trusted header key
      on_keys set q [] same h = ground arith
      on_keys set q (key ∷ others) same h = (key, ground arith, online set q others same)

  abbrev IsAcceptedAlg : String → Type 0
  IsAcceptedAlg alg = (alg ≡ "EdDSA") ⊎ (alg ≡ "ES256") ⊎ (alg ≡ "ES384") ⊎ (alg ≡ "ES512")

  is_accepted_alg_sound : (alg : String) → is_accepted_alg alg ≡ true → IsAcceptedAlg alg
  unfolding is_accepted_alg
  is_accepted_alg_sound alg e = ground arith

  -- The claims of a file were signed with a trusted key, by an accepted algorithm and under the
  -- only header of the token; they are valid now, with a leeway of a day, and name a subject.
  pub record Genuine (expected : j.Expected) (bytes : List ℕ) (c : Claims F) : Type 0 where
    pub token : j.Token
    pub header : j.Header
    pub key : j.Key
    pub parsed : j.parse_signed (trim_bytes (take license_size_limit_bytes bytes)) ≡ some token
    pub single : j.headers token ≡ header ∷ []
    pub algorithm : IsAcceptedAlg (j.algorithm header)
    pub trusted : Trusted header key
    pub verified : (j.verified_claims token key).failed ≡ false
    pub signed : (j.verified_claims token key).claims ≡ some c.claims
    pub signed_uid : (j.verified_claims token key).license_file_id ≡ c.license_file_id
    pub signed_license : (j.verified_claims token key).kopano ≡ c.kopano
    pub valid : j.validates c.claims expected default_license_leeway ≡ true
    pub named : trim_text c.subject ≢ ""

  -- The claims that a decoded payload becomes, and what was checked.
  check_claims_inv :
      (expected : j.Expected) (fn : String) (raw : List ℕ) (d : Decoded F) (r : Reading F)
      (c : Claims F)
      → check_claims j mode expected fn raw d ≡ ok r
      → r.loaded ≡ some c
      → (claims : JwtClaims) × (d.claims ≡ some claims)
        × (loaded_claims j mode expected fn raw claims
              (ite (string_dec claims.id "") fn claims.id)
              d
            ≡ c)
        × (j.validates claims expected default_license_leeway ≡ true)
        × (trim_text claims.subject ≢ "")
  unfolding check_claims
  check_claims_inv expected fn raw d r c e h = elim (Option-cases d.claims) [
    | inl q ↦ ground arith
    | inr (claims, q) ↦ elim (Bool-cases (j.validates claims expected default_license_leeway)) [
      | inr b ↦ ground arith
      | inl b ↦ elim (string_dec (trim_text claims.subject) "") [
        | yes p ↦ ground arith
        | no p ↦ (claims, q, ground arith, b, p)
      ]
    ]
  ]

  with_headers_inv :
      (expected : j.Expected) (fn : String) (raw : List ℕ) (token : j.Token)
      (headers : List j.Header) (r : Reading F) (c : Claims F)
      → with_headers j mode expected fn raw token headers ≡ ok r
      → r.loaded ≡ some c
      → (header : j.Header) × (k : Option j.Key) × (headers ≡ header ∷ [])
        × (is_accepted_alg (j.algorithm header) ≡ true)
        × (select_key j mode header ≡ ok (go_on k))
        × ((decode j mode token k).failed ≡ false)
        × (check_claims j mode expected fn raw (decode j mode token k) ≡ ok r)
  unfolding with_headers with_key ignored
  with_headers_inv expected fn raw token [] r c e h = ground arith
  with_headers_inv expected fn raw token (_ ∷ _ ∷ _) r c e h = ground arith
  with_headers_inv expected fn raw token (header ∷ []) r c e h =
      elim (Bool-cases (is_accepted_alg (j.algorithm header))) [
        | inr b ↦ ground arith
        | inl b ↦
            let (choice, chosen, rest) =
              >>=-eq-ok (select_key j mode header) (with_key j mode expected fn raw token) {b = r}
                (ground arith) in
            go b choice chosen rest
      ]
    where
      go :
          is_accepted_alg (j.algorithm header) ≡ true
          → (choice : Choice j.Key) → select_key j mode header ≡ ok choice
          → with_key j mode expected fn raw token choice ≡ ok r
          → (header' : j.Header) × (k : Option j.Key) × (◌≡◌ {A = List j.Header}
              (header ∷ [])
              (header' ∷ []))
            × (is_accepted_alg (j.algorithm header') ≡ true)
            × (select_key j mode header' ≡ ok (go_on k))
            × ((decode j mode token k).failed ≡ false)
            × (check_claims j mode expected fn raw (decode j mode token k) ≡ ok r)
      go b ignore chosen rest = ground arith
      go b (go_on k) chosen rest = elim (Bool-cases (decode j mode token k).failed) [
        | inl f ↦ ground arith
        | inr f ↦ (header, k, refl, b, chosen, f, ground arith)
      ]

  -- Where a file is read without `unsafe` and without a panic, the claims that it adds are its
  -- genuine content: one header with an accepted algorithm, verified with a trusted key, valid at
  -- the expected time, and with a subject.
  pub read_license-Genuine :
      (expected : j.Expected) (fn : String) (bytes : List ℕ) (r : Reading F) (c : Claims F)
      → mode.unsafe ≡ false
      → read_license j mode expected fn (some bytes) ≡ ok r
      → r.loaded ≡ some c
      → Genuine expected bytes c
  unfolding read_license with_raw loaded_claims
  read_license-Genuine expected fn bytes r c safe e h = elim (Option-cases (j.parse_signed raw)) [
    | inl q ↦ ground arith
    | inr (token, q) ↦
        let (header, k, single, alg, selected, fine, checked) =
          with_headers_inv expected fn raw token (j.headers token) r c (ground arith) h in
        let (key, same, trusted) = select_key-Trusted header k safe selected in
        signed token header key q single alg trusted (rw (same, decode) at fine) (
          check_claims_inv expected fn raw (j.verified_claims token key) r c
            (rw (same, decode) at checked) h)
  ]
    where
      raw : List ℕ
      raw = trim_bytes (take license_size_limit_bytes bytes)

      signed :
          (token : j.Token) (header : j.Header) (key : j.Key)
          → j.parse_signed raw ≡ some token
          → j.headers token ≡ header ∷ []
          → is_accepted_alg (j.algorithm header) ≡ true
          → Trusted header key
          → (j.verified_claims token key).failed ≡ false
          → (claims : JwtClaims) × ((j.verified_claims token key).claims ≡ some claims)
            × (loaded_claims j mode expected fn raw claims
                  (ite (string_dec claims.id "") fn claims.id)
                  (j.verified_claims token key)
                ≡ c)
            × (j.validates claims expected default_license_leeway ≡ true)
            × (trim_text claims.subject ≢ "")
          → Genuine expected bytes c
      signed token header key q single alg trusted fine (claims, found, built, valid, named) =
          subst (Genuine expected bytes) built (record {
            token = token;
            header = header;
            key = key;
            parsed = q;
            single = single;
            algorithm = is_accepted_alg_sound (j.algorithm header) alg;
            trusted = trusted;
            verified = fine;
            signed = found;
            signed_uid = refl;
            signed_license = refl;
            valid = valid;
            named = named;
          })
