-- ===== src/Cmd/Client.antt =====
-- The commands `reload` and `healthcheck` (cmd/kustomerd/reload.go, cmd/kustomerd/healthcheck.go),
-- with the server's handlers at the other end.
use kustomer.Common.{
  ℕ, true, some, ◌==◌, if◌then◌else◌, ◌≡◌, ◌↔◌, ◌⊎◌, inl, inr, arith, string_dec, ap, ◌∙◌,
}
use kustomer.Server.ReloadRequest.{
  Connection, unix, Sending, taken, gone, Callback, closed, abandoned, ReloadRequest, ReloadReply,
  bad_request, no_credentials, forbidden, timed_out, dropped, reloaded, reload_handler,
  get_ucred_context_value, handle_connection_context, rejected, wait_for, trigger, with_ucred,
  caller,
}

-- What `client.Do` returns: an error, or a response with its status.
pub data HttpResponse : Type 0 where
  request_error : HttpResponse
  status : ℕ → HttpResponse

-- What a command returns.
pub data CommandResult : Type 0 where
  request_failed : CommandResult
  failed_with_status : ℕ → CommandResult
  successful : CommandResult

check_status : HttpResponse → CommandResult
check_status request_error = request_failed
check_status (status n) = if n == 200 then successful else failed_with_status n

unfoldable pub reload_command : HttpResponse → CommandResult
unfolding check_status
reload_command r = check_status r

unfoldable pub healthcheck_command : HttpResponse → CommandResult
unfolding check_status
healthcheck_command r = check_status r

-- The status of an answer. `net/http` sends 200 for a handler that returns without an answer.
unfoldable pub reply_status : ReloadReply → ℕ
reply_status bad_request = 400
reply_status no_credentials = 500
reply_status forbidden = 403
reply_status timed_out = 500
reply_status dropped = 200
reply_status reloaded = 200

-- The request of the command `reload`.
abbrev pub command_request : Connection → Sending → Callback → ReloadRequest
command_request connection sending callback = record {
  parses = true;
  method = "POST";
  connection = connection;
  sending = sending;
  callback = callback;
}

-- What the command `reload` returns, if it waits for the answer.
unfoldable pub reload_over : Connection → Sending → Callback → CommandResult
reload_over connection sending callback =
    reload_command
      (status (reply_status (reload_handler (command_request connection sending callback)).reply))

-- The command `reload`, if it gets the server's answer, is successful exactly if root runs it and
-- either the loader has taken the request and has closed the callback, or the context of the
-- request is done before the request is taken, or after that.
pub reload_over_iff :
    (connection : Connection) (sending : Sending) (callback : Callback)
    → (reload_over connection sending callback ≡ successful) ↔ (
        (pid : ℕ) × (connection ≡ unix (some (record { pid = pid; uid = 0 })))
        × (((sending ≡ taken) × (callback ≡ closed))
            ⊎ ((sending ≡ gone) ⊎ ((sending ≡ taken) × (callback ≡ abandoned)))))
unfolding reload_over reload_command check_status reply_status reload_handler rejected wait_for
    trigger with_ucred string_dec get_ucred_context_value handle_connection_context
reload_over_iff connection sending callback = (
  λ h. elim (caller connection) [
    | inl (u, q) ↦
        let root : u.uid ≡ 0 = ground arith in
        (u.pid, q ∙ ap (λ n. unix (some (record { pid = u.pid; uid = n }))) root, ground arith)
    | inr q ↦ absurd (ground arith)
  ],
  λ (pid, q, how). ground arith,
)
