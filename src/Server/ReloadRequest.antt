-- ===== src/Server/ReloadRequest.antt =====
-- `ReloadHandler` (server/handlers.go) with `handleConnectionContext` and `GetUcredContextValue`
-- (server/connection.go).
use kustomer.Common.{
  ℕ, String, Bool, true, false, not, Option, none, some, ◌==◌, ◌≡◌, ◌↔◌, ◌⊎◌, inl, inr, ◌∙◌, ap,
  refl, arith, ite, if◌then◌else◌, string_dec,
}

pub record Ucred : Type 0 where
  pub pid : ℕ
  pub uid : ℕ

-- What a connection is: not a Unix socket, one without a file, or one with what
-- `GetsockoptUcred` gives, which is nil (`none`) where it fails.
pub data Connection : Type 0 where
  other no_file : Connection
  unix : Option Ucred → Connection

-- The value of the context for `UcredContextKey`: nil (`none`), or a pointer, which may be nil.
unfoldable pub handle_connection_context : Connection → Option (Option Ucred)
handle_connection_context other = none
handle_connection_context no_file = none
handle_connection_context (unix ucred) = some ucred

-- The pointer and whether there is one.
unfoldable pub get_ucred_context_value : Option (Option Ucred) → Option Ucred × Bool
get_ucred_context_value none = (none, false)
get_ucred_context_value (some ucred) = (ucred, true)

-- What becomes of the send on `reloadCh` and of the wait for the callback.
pub data Sending : Type 0 where
  taken gone timeout : Sending

pub data Callback : Type 0 where
  closed abandoned : Callback

pub record ReloadRequest : Type 0 where
  pub parses : Bool
  pub method : String
  pub connection : Connection
  pub sending : Sending
  pub callback : Callback

-- Status 400, 500 without credentials, 403, 500 after 30 seconds, no answer, or 200.
pub data ReloadReply : Type 0 where
  bad_request no_credentials forbidden timed_out dropped reloaded : ReloadReply

-- Whether a reload was triggered, and the answer.
pub record Triggered : Type 0 where
  pub triggers : Bool
  pub reply : ReloadReply

unfoldable pub rejected : ReloadReply → Triggered
rejected reply = record { triggers = false; reply = reply }

unfoldable pub wait_for : Callback → Triggered
wait_for closed = record { triggers = true; reply = reloaded }
wait_for abandoned = record { triggers = true; reply = dropped }

unfoldable pub trigger : Sending → Callback → Triggered
trigger taken callback = wait_for callback
trigger gone callback = rejected dropped
trigger timeout callback = rejected timed_out

unfoldable pub with_ucred : Option Ucred → Sending → Callback → Triggered
with_ucred none sending callback = rejected no_credentials
with_ucred (some ucred) sending callback =
    if ucred.uid == 0 then trigger sending callback else rejected forbidden

unfoldable pub reload_handler : ReloadRequest → Triggered
unfolding rejected wait_for trigger with_ucred
reload_handler req =
    if not req.parses
    then rejected bad_request
    else ite (string_dec req.method "POST")
        (with_ucred (get_ucred_context_value (handle_connection_context req.connection)).0
          req.sending req.callback)
        (rejected bad_request)

pub caller :
    (c : Connection)
    → ((u : Ucred) × (c ≡ unix (some u)))
      ⊎ ((get_ucred_context_value (handle_connection_context c)).0 ≡ none)
unfolding get_ucred_context_value handle_connection_context
caller other = inr refl
caller no_file = inr refl
caller (unix none) = inr refl
caller (unix (some u)) = inl (u, refl)

no_credentials_reply :
    (req : ReloadRequest)
    → (get_ucred_context_value (handle_connection_context req.connection)).0 ≡ none
    → (reload_handler req).triggers ≡ true
    → ⊥
unfolding reload_handler rejected wait_for trigger with_ucred
no_credentials_reply req q h = ground arith

-- A request triggers a reload exactly if its form can be parsed, it is a POST, the process at the
-- other end of the Unix socket is root, and the watcher takes the request in time.
pub reload_handler_iff :
    (req : ReloadRequest)
    → ((reload_handler req).triggers ≡ true) ↔ (
        (req.parses ≡ true)
        × ((req.method ≡ "POST")
            × ((pid : ℕ) × ((req.connection ≡ unix (some (record { pid = pid; uid = 0 })))
                  × (req.sending ≡ taken)))))
unfolding reload_handler get_ucred_context_value handle_connection_context rejected wait_for trigger
    with_ucred
reload_handler_iff req = (
  λ h. elim (caller req.connection) [
    | inl (u, q) ↦
        let root : u.uid ≡ 0 = ground arith in
        let it = ap (λ n. unix (some (record { pid = u.pid; uid = n }))) root in
        (ground arith, (ground arith, (u.pid, (q ∙ it, ground arith))))
    | inr q ↦ elim (no_credentials_reply req q h) [ ]
  ],
  λ (p, (m, (pid, (c, s)))). ground arith,
)
