-- ===== src/Server/Reload/Products.antt =====
-- From the license files to the products endpoint (licenses.go, server/server.go,
-- server/handlers.go).
use kustomer.Common.{
  String, Bool, Option, none, List, ◌≡◌, ◌≢◌, refl, arith, All-Any, Any, Any-imp, inl, inr,
}
use kustomer.Common.Map.{get}
use kustomer.Common.Panic.{ok, each}
use kustomer.License.{Claims}
use kustomer.License.Dynamic.{Value, FloatOps}
use kustomer.Loader.Jose.{Jose}
use kustomer.Products.Answer.{Request, Wait, Reply, Response, claims_kopano_products_handler}
use kustomer.Products.Answer.Offered.{Offers, products_of_iff, answered-products_of}
use kustomer.Server.State.{Server}
use kustomer.Server.New.{Config, built, new_server}
use kustomer.Server.New.Fresh.{first_watch, new_server_claims}
use kustomer.Server.Reload.{Watch, sub_claims}
use kustomer.Server.Reload.Backed.{
  LoaderCall, loader_call, BackedBy, IsBacked, Served, calls-Served,
}

module _ {F : Type 0} (j : Jose F) (cert_pool : Option j.CertPool) where
  -- The entry of the configured sub offers no product.
  offered-BackedBy :
      (calls : List (LoaderCall j)) (path sub name : String) (c : Claims F)
      → IsBacked j cert_pool calls path sub c
      → Offers name c
      → Any (λ r. BackedBy j cert_pool calls path sub r c) calls
  unfolding sub_claims
  offered-BackedBy calls path sub name c (inr h) offers = h
  offered-BackedBy calls path sub name c (inl e) (named, has, _) = absurd (ground arith)

  new_server-Served :
      (calls : List (LoaderCall j)) (hash_sub : String → String) (absolute : String → Option String)
      (c : Config) (s : Server F j.KeySet)
      → new_server hash_sub absolute c ≡ built s
      → Served j cert_pool calls s.license_path s.sub s first_watch
  new_server-Served calls hash_sub absolute c s e = record {
    same_path = refl;
    same_sub = refl;
    stored = inl refl;
    backed = rw (new_server_claims hash_sub absolute c s e) tt;
  }

  -- The server is one that `NewServer` builds, `f` has been called any number of times without a
  -- panic, each time with any folder, time, key set and offline counter, and the products endpoint
  -- has answered a request. Then for each product of the answer some active license offers it that
  -- some call of `f` has read, without `unsafe`, from a file of the license folder: as that file's
  -- genuine content, verified with a key of the certificate pool (this only without a key set, and
  -- with the counter above 0) or of a key set that one of the calls had.
  pub answered-BackedBy :
      (ops : FloatOps F) (cmp_equal : Value F → Value F → Bool) (hash_sub : String → String)
      (absolute : String → Option String) (c : Config) (s s' : Server F j.KeySet)
      (w' : Watch F j.KeySet) (calls : List (LoaderCall j)) (req : Request) (r : Response F)
      (name : String)
      → new_server hash_sub absolute c ≡ built s
      → each (loader_call j cert_pool) (s, first_watch) calls ≡ ok (s', w')
      → claims_kopano_products_handler ops cmp_equal s' req Wait.ready ≡ Reply.answered r
      → get name r.products ≢ none
      → Any
          (λ claim.
            Offers name claim
            × Any (λ q. BackedBy j cert_pool calls s.license_path s.sub q claim) calls)
          s'.claims
  answered-BackedBy ops cmp_equal hash_sub absolute c s s' w' calls req r name builds run answers
        there =
      let served =
        calls-Served j cert_pool calls s.license_path s.sub (s, first_watch) (s', w') run
          (new_server-Served calls hash_sub absolute c s builds) in
      let run' = answered-products_of ops cmp_equal s' req r answers in
      let offered =
        (products_of_iff ops cmp_equal req.product name s'.claims r.products run').0 there in
      Any-imp _ _
        (λ claim (backed, (_, offers)).
          (offers, offered-BackedBy calls s.license_path s.sub name claim backed offers))
        s'.claims
        (All-Any (IsBacked j cert_pool calls s.license_path s.sub) _ s'.claims served.backed
          offered)
