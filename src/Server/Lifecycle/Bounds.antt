-- ===== src/Server/Lifecycle/Bounds.antt =====
-- That no send on `errCh` waits, and that no channel is closed twice (server/server.go).
use kustomer.Common.{ℕ, ◌+◌, ◌≤◌, ◌<◌, some, [], ◌∷◌, ◌≡◌, refl, arith, length, length-append}
use kustomer.Server.Lifecycle.{
  listener_failed, client_failed, MainPc, ListenerPc, ClientPc, Lifecycle, started_up, err_capacity,
  send_err, to_listener, listener_step, to_client, client_step, take_first_error, on_signal,
  return_on, main_step, receive, LifeMove, life_step, Lives, begins, goes_on, signals_wait, closing,
  accepting, failing, ending, ended, standby, failed_start, started,
}

pub Lives-inv {κ} :
    (P : Lifecycle → Type κ)
    → ((m : LifeMove) (s t : Lifecycle) → life_step m s ≡ some t → P s → P t)
    → {s t : Lifecycle} → Lives s t
    → P s
    → P t
Lives-inv P keep begins h = h
Lives-inv P keep (goes_on {t} {u} m r e) h = keep m t u e (Lives-inv P keep r h)

pub Lives-trans : {s t u : Lifecycle} → Lives s t → Lives t u → Lives s u
Lives-trans r begins = r
Lives-trans r (goes_on m q e) = goes_on m (Lives-trans r q) e

-- How many sends a goroutine still has to do.
abbrev pub listener_sends : ListenerPc → ℕ
listener_sends accepting = 1
listener_sends failing = 1
listener_sends ending = 0
listener_sends ended = 0

abbrev pub client_sends : ClientPc → ℕ
client_sends standby = 1
client_sends failed_start = 1
client_sends started = 0

abbrev pub exits : ListenerPc → ℕ
exits ended = 1
exits _ = 0

abbrev closes : MainPc → ℕ
closes signals_wait = 0
closes closing = 0
closes _ = 1

pub record Fits (s : Lifecycle) : Type 0 where
  pub room : length s.err_ch + (listener_sends s.listener + client_sends s.client) ≤ 2
  pub exit_once : s.exit_ch ≡ exits s.listener
  pub close_once : s.close_ch ≡ closes s.main

life_step-Fits : (m : LifeMove) (s t : Lifecycle) → life_step m s ≡ some t → Fits s → Fits t
unfolding life_step main_step listener_step client_step receive take_first_error on_signal return_on
    to_listener to_client send_err
life_step-Fits m s t e h = ground (
  arith,
  length-append s.err_ch (listener_failed ∷ []),
  length-append s.err_ch (client_failed ∷ []),
)

pub all-Fits : (s : Lifecycle) → Lives started_up s → Fits s
all-Fits s r =
    Lives-inv Fits life_step-Fits r
      (record { room = omega arith; exit_once = refl; close_once = refl })

closes_once : (pc : MainPc) (n : ℕ) → n ≡ closes pc → n ≤ 1
closes_once pc n h = ground arith

exits_once : (pc : ListenerPc) (n : ℕ) → n ≡ exits pc → n ≤ 1
exits_once pc n h = ground arith

-- In every state that `Serve` reaches: a goroutine that is about to send on `errCh` finds room
-- there, and neither `closeCh` nor `exitCh` has been closed twice.
pub Lives-Fits :
    (s : Lifecycle)
    → Lives started_up s
    → (s.listener ≡ failing → length s.err_ch < err_capacity)
      × (s.client ≡ failed_start → length s.err_ch < err_capacity)
      × (s.close_ch ≤ 1)
      × (s.exit_ch ≤ 1)
Lives-Fits s r =
    let h = all-Fits s r in
    (
      λ e. ground (arith, h.room),
      λ e. ground (arith, h.room),
      closes_once s.main s.close_ch h.close_once,
      exits_once s.listener s.exit_ch h.exit_once,
    )
