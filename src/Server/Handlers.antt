-- ===== src/Server/Handlers.antt =====
-- The other handlers of server/handlers.go, with the responses of server/api-v1/models.go, and the
-- routes of `AddRoutes` (server/server.go).
use kustomer.Common.{ℕ, String, Bool, not, Option, none, some, List, [], ◌∷◌, if◌then◌else◌}
use kustomer.Common.Map.{Map}
use kustomer.License.{Claims}
use kustomer.License.Generate.{GenerateResult, GenerateError, Generated, generate_claims}
use kustomer.Server.State.{Server}
use kustomer.Server.ReloadRequest.{
  Connection, Ucred, handle_connection_context, get_ucred_context_value,
}

pub data Route : Type 0 where
  health_check reload claims_gen claims claims_kopano_products claims_watch : Route

unfoldable pub routes : Map Route
routes =
    ("/health-check", health_check)
    ∷ ("/reload", reload)
    ∷ ("/api/v1/claims-gen", claims_gen)
    ∷ ("/api/v1/claims", claims)
    ∷ ("/api/v1/claims/kopano/products", claims_kopano_products)
    ∷ ("/api/v1/claims/watch", claims_watch)
    ∷ []

-- `HealthCheckHandler`: the status
unfoldable pub health_check_handler : ℕ
health_check_handler = 200

-- Status 400 with what failed, status 200 with what is encoded, or a panic.
pub data HandlerReply (E A : Type 0) : Type 0 where
  bad_form : HandlerReply E A
  bad_request : E → HandlerReply E A
  reply : A → HandlerReply E A
  panicked : HandlerReply E A

generated_reply :
    {F : Type 0} → GenerateResult (Generated F) → HandlerReply GenerateError (Generated F)
generated_reply (GenerateResult.value g) = reply g
generated_reply (GenerateResult.error e) = bad_request e
generated_reply GenerateResult.crash = panicked

-- `ClaimsGenHandler`, with whether the form can be parsed, and the form.
unfoldable pub claims_gen_handler :
    {F : Type 0}
    → (String → Option F)
    → (ℕ → Option String)
    → Bool
    → List (String × List String)
    → HandlerReply GenerateError (Generated F)
unfolding generated_reply
claims_gen_handler parse_float uuids parses form =
    if parses then generated_reply (generate_claims parse_float uuids form) else bad_form

unfoldable pub claims_handler :
    {F J : Type 0} → Bool → Server F J → HandlerReply ⊥ (List (Claims F))
claims_handler parses s = if parses then reply s.claims else bad_form

pub data Event : Type 0 where
  hello claims_updated : Event

-- What ends the wait of a watch, and whether the event can be written.
pub data Wake : Type 0 where
  closed gone : Wake
  updated tick : Bool → Wake

-- The loop of a watch: the events that are written.
unfoldable pub watch_loop : List Wake → List Event
watch_loop [] = []
watch_loop (closed ∷ wakes) = []
watch_loop (gone ∷ wakes) = []
watch_loop (updated written ∷ wakes) =
    let rest = watch_loop wakes in if written then claims_updated ∷ rest else []
watch_loop (tick written ∷ wakes) =
    let rest = watch_loop wakes in if written then hello ∷ rest else []

pub record WatchRequest : Type 0 where
  pub parses : Bool
  pub upgrades : Bool
  pub connection : Connection
  pub greeted : Bool
  pub wakes : List Wake

-- Status 400, 500 without credentials, or the events.
pub data Watched : Type 0 where
  bad_watch_form not_upgraded no_watch_credentials : Watched
  events : List Event → Watched

watch_as : Option Ucred → Bool → List Wake → Watched
watch_as none greeted wakes = no_watch_credentials
watch_as (some ucred) greeted wakes = events (if greeted then hello ∷ watch_loop wakes else [])

-- The function that `MakeClaimsWatchHandler` returns.
unfoldable pub claims_watch_handler : WatchRequest → Watched
unfolding watch_as
claims_watch_handler req =
    if not req.parses
    then bad_watch_form
    else if not req.upgrades
    then not_upgraded
    else watch_as (get_ucred_context_value (handle_connection_context req.connection)).0 req.greeted
        req.wakes
