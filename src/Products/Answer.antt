-- ===== src/Products/Answer.antt =====
-- The products of a response, and the handler around them: `ClaimsKopanoProductsHandler`
-- (server/handlers.go) with the response of server/api-v1/models.go.
pub mod Entries
pub mod Offered
pub mod Total
use kustomer.Common.{
  String, Bool, true, false, Option, none, some, List, [], ◌∷◌, ite, if◌then◌else◌, leb, string_dec,
}
use kustomer.Common.Map.{Map, get, put}
use kustomer.Common.Panic.{Run, ok, panic, ◌>>=◌, each}
use kustomer.License.{Product, Claims}
use kustomer.License.Dynamic.{Value, FloatOps}
use kustomer.Products.Entry.{Entry, new_entry, add_product}
use kustomer.Server.State.{Server}
use kustomer.Server.ReloadRequest.{Ucred, get_ucred_context_value}

-- `productFilter[name]`
pub contains : List String → String → Bool
contains [] name = false
contains (n ∷ ns) name = ite (string_dec n name) true (contains ns name)

-- Whether a product passes `productFilter`; a nil filter lets every product pass.
unfoldable pub is_requested : Option (List String) → String → Bool
unfolding contains
is_requested none name = true
is_requested (some names) name = contains names name

-- `entry, ok := products[name]`, with the new entry
unfoldable pub entry_of : {F : Type 0} → String → Map (Entry F) → Entry F
entry_of name products = elim (get name products) [ none ↦ new_entry | some e ↦ e ]

module _ {F : Type 0} (ops : FloatOps F) (cmp_equal : Value F → Value F → Bool)
    (filter : Option (List String)) where
  -- The inner loop body behind the filter; a nil product panics when its claims are read.
  add_named : Claims F → Map (Entry F) → String → Option (Product F) → Run (Map (Entry F))
  add_named claim products name none = panic
  add_named claim products name (some product) =
      add_product ops cmp_equal claim product (entry_of name products) >>= λ entry.
      ok (put name entry products)

  -- The inner loop body.
  unfoldable pub add_if_requested :
      Claims F → Map (Entry F) → String × Option (Product F) → Run (Map (Entry F))
  unfolding add_named
  add_if_requested claim products (name, product) =
      if is_requested filter name then add_named claim products name product else ok products

  -- The outer loop body.
  unfoldable pub add_claim : Map (Entry F) → Claims F → Run (Map (Entry F))
  add_claim products claim = elim claim.kopano.products [
    | none ↦ ok products
    | some named ↦ each (add_if_requested claim) products named
  ]

  unfoldable pub products_of : List (Claims F) → Run (Map (Entry F))
  products_of claims = each add_claim [] claims

-- `ClaimsKopanoProductsResponse`
pub record Response (F : Type 0) : Type 0 where
  pub trusted : Bool
  pub offline : Bool
  pub products : Map (Entry F)

-- A request: whether its form can be parsed, `req.Form["product"]`, and the credentials in its
-- context.
pub record Request : Type 0 where
  pub parses : Bool
  pub product : Option (List String)
  pub credentials : Option (Option Ucred)

-- Which branch of the `select` on readiness is taken.
pub data Wait : Type 0 where
  ready gone timeout : Wait

-- Status 400, status 503, no answer, a panic of the handler, or a response.
pub data Reply (F : Type 0) : Type 0 where
  bad_request unavailable dropped crashed : Reply F
  answered : Response F → Reply F

-- The function literal that logs the request: it reads `ucred.Pid` where there is a pointer, also
-- a nil one.
log_request : Option Ucred × Bool → Run (Unit {0})
log_request (ucred, false) = ok tt
log_request (some ucred, true) = ok tt
log_request (none, true) = panic

-- The handler goes on where `log_request` does not panic.
logged : {F : Type 0} → Run (Unit {0}) → Reply F → Reply F
logged panic reply = Reply.crashed
logged (ok _) reply = reply

reply_with : {F : Type 0} → Bool → Bool → Run (Map (Entry F)) → Reply F
reply_with trusted offline panic = Reply.crashed
reply_with trusted offline (ok products) =
    Reply.answered (record { trusted = trusted; offline = offline; products = products })

unfoldable pub claims_kopano_products_handler :
    {F J : Type 0} → FloatOps F → (Value F → Value F → Bool) → Server F J → Request → Wait → Reply F
unfolding log_request logged reply_with get_ucred_context_value
claims_kopano_products_handler ops cmp_equal s req wait =
    if req.parses
    then logged (log_request (get_ucred_context_value req.credentials)) (elim wait [
      | Wait.gone ↦ Reply.dropped
      | Wait.timeout ↦ Reply.unavailable
      | Wait.ready ↦
          reply_with s.trusted (leb s.offline_threshold s.offline)
            (products_of ops cmp_equal req.product s.claims)
    ])
    else Reply.bad_request
