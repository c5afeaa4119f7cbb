-- ===== src/Server/Lifecycle/Ends.antt =====
-- That `Serve` cannot go on for ever once it is ending (server/server.go).
use kustomer.Common.{
  ℕ, ◌+◌, ◌≤◌, ◌<◌, true, some, [], ◌∷◌, ◌++◌, ◌≡◌, ◌≢◌, refl, ◌∙◌, arith, length, inl, inr, ◌⊎◌,
}
use kustomer.Server.Lifecycle.{
  listener_failed, MainPc, MainMove, ListenerMove, ListenerPc, Result, Lifecycle, started_up,
  err_capacity, send_err, to_listener, listener_step, to_client, client_step, take_first_error,
  on_signal, return_on, main_step, receive, LifeMove, life_step, Lives, begins, goes_on,
  signals_wait, closing, shutting_down, cancelling, exit_wait, exit_pause, returned, accepting,
  failing, ending, ended, standby,
}
use kustomer.Server.Lifecycle.Bounds.{Fits, all-Fits, Lives-trans}

-- `Serve` has left the loop on errors and signals.
abbrev pub IsEnding : MainPc → Type 0
IsEnding signals_wait = ⊥
IsEnding _ = Unit

-- What `Serve` has returned, or else returns if nothing writes `err` any more.
abbrev pub returns : MainPc → Result → Result
returns (returned r) err = r
returns _ err = err

life_step-IsEnding :
    (m : LifeMove) (s t : Lifecycle) → life_step m s ≡ some t → IsEnding s.main → IsEnding t.main
unfolding life_step main_step listener_step client_step receive take_first_error on_signal return_on
    to_listener to_client send_err
life_step-IsEnding m s t e h = ground arith

life_step-returns :
    (m : LifeMove) (s t : Lifecycle)
    → life_step m s ≡ some t
    → IsEnding s.main
    → s.client ≢ standby
    → (t.client ≢ standby) × (returns t.main t.err ≡ returns s.main s.err)
unfolding life_step main_step listener_step client_step receive take_first_error on_signal return_on
    to_listener to_client send_err
life_step-returns m s t e h c = ground arith

-- The moves of the main goroutine and of the listener, but a look at `exitCh` that finds it open and
-- the pause after it.
abbrev pub progresses : LifeMove → ℕ
progresses (LifeMove.by_main MainMove.no_exit) = 0
progresses (LifeMove.by_main MainMove.pause) = 0
progresses (LifeMove.by_main _) = 1
progresses (LifeMove.by_listener _) = 1
progresses (LifeMove.by_client _) = 0
progresses (LifeMove.signal _) = 0

unfoldable pub progress : {s t : Lifecycle} → Lives s t → ℕ
progress begins = 0
progress (goes_on m r e) = progress r + progresses m

abbrev main_left : MainPc → ℕ
main_left signals_wait = 5
main_left closing = 4
main_left shutting_down = 3
main_left cancelling = 2
main_left exit_wait = 1
main_left exit_pause = 1
main_left (returned r) = 0

abbrev listener_left : ListenerPc → ℕ
listener_left accepting = 3
listener_left failing = 2
listener_left ending = 1
listener_left ended = 0

abbrev pub left_to_do : Lifecycle → ℕ
left_to_do s = main_left s.main + listener_left s.listener

life_step-left_to_do :
    (m : LifeMove) (s t : Lifecycle)
    → life_step m s ≡ some t
    → IsEnding s.main
    → progresses m + left_to_do t ≤ left_to_do s
unfolding life_step main_step listener_step client_step receive take_first_error on_signal return_on
    to_listener to_client send_err
life_step-left_to_do m s t e h = ground arith

pub progress_bound :
    (s t : Lifecycle)
    → IsEnding s.main
    → (run : Lives s t) → IsEnding t.main × (progress run + left_to_do t ≤ left_to_do s)
unfolding progress
progress_bound s t h begins = (h, omega arith)
progress_bound s t h (goes_on {t = u} m run e) =
    let (over, le) = progress_bound s u h run in
    (life_step-IsEnding m u t e over, omega (arith, le, life_step-left_to_do m u t e over))

left_at_most : (pc : MainPc) (l : ListenerPc) → IsEnding pc → main_left pc + listener_left l ≤ 7
left_at_most pc l h = ground arith

-- Once the reporter has started the survey client, nothing changes what `Serve` returns.
pub Lives-returns :
    (s t : Lifecycle)
    → IsEnding s.main
    → s.client ≢ standby
    → (run : Lives s t) → (t.client ≢ standby) × (returns t.main t.err ≡ returns s.main s.err)
Lives-returns s t h c begins = (c, refl)
Lives-returns s t h c (goes_on {t = u} m run e) =
    let (over, _) = progress_bound s u h run in
    let (started_before, same) = Lives-returns s u h c run in
    let (started_now, kept) = life_step-returns m u t e over started_before in
    (started_now, kept ∙ same)

-- One more move that counts can be made, after a pause perhaps.
abbrev pub GoesOn : Lifecycle → Type 0
GoesOn s = (t : Lifecycle) × ((run : Lives s t) × (progress run ≡ 1))

one_move : (m : LifeMove) (s t : Lifecycle) → progresses m ≡ 1 → life_step m s ≡ some t → GoesOn s
unfolding progress
one_move m s t p e = (t, (goes_on m begins e, omega (arith, p)))

main-GoesOn :
    (m : MainMove) (s t : Lifecycle)
    → progresses (LifeMove.by_main m) ≡ 1
    → main_step m s.main s ≡ some t
    → GoesOn s
unfolding life_step
main-GoesOn m s t p e = one_move (LifeMove.by_main m) s t p e

listener-GoesOn :
    (s : Lifecycle) (pc : ListenerPc) → s.listener ≡ pc → Fits s → (s.exit_ch ≡ 1) ⊎ GoesOn s
unfolding life_step listener_step to_listener send_err
listener-GoesOn s accepting l f = inr (
    one_move (LifeMove.by_listener ListenerMove.serve_returns) s (record s { listener = failing })
      refl (ground arith))
listener-GoesOn s failing l f =
    let room : length s.err_ch < err_capacity = ground (arith, f.room) in
    inr (
      one_move (LifeMove.by_listener ListenerMove.send_failure) s
        (record s { err_ch = s.err_ch ++ listener_failed ∷ []; listener = ending }) refl
        (ground (arith, room)))
listener-GoesOn s ending l f = inr (
    one_move (LifeMove.by_listener ListenerMove.close_exit) s
      (record s { exit_ch = s.exit_ch + 1; listener = ended }) refl (ground arith))
listener-GoesOn s ended l f = inl (ground (arith, f.exit_once))

wait-GoesOn : (s : Lifecycle) → s.main ≡ exit_wait → s.exit_ch ≡ 1 → GoesOn s
unfolding main_step
wait-GoesOn s p e =
    main-GoesOn MainMove.see_exit s (record s { main = returned s.err }) refl (ground arith)

pause-GoesOn : (s : Lifecycle) → s.main ≡ exit_pause → s.exit_ch ≡ 1 → GoesOn s
unfolding main_step life_step progress
pause-GoesOn s p e = (
  record s { main = returned s.err },
  (
    goes_on (LifeMove.by_main MainMove.see_exit)
        (goes_on {t = s} {u = record s { main = exit_wait }} (LifeMove.by_main MainMove.pause)
          begins (ground arith))
        (ground arith),
    refl,
  ),
)

-- `Serve` has returned, or can go on.
abbrev ReturnsOrGoes : Lifecycle → Type 0
ReturnsOrGoes s = ((r : Result) × (s.main ≡ returned r)) ⊎ GoesOn s

main-ReturnsOrGoes :
    (pc : MainPc) (s : Lifecycle) → s.main ≡ pc → IsEnding pc → Fits s → ReturnsOrGoes s
unfolding main_step
main-ReturnsOrGoes signals_wait s p h f = elim h [ ]
main-ReturnsOrGoes closing s p h f = inr (
    main-GoesOn MainMove.close_channel s
      (record s { close_ch = s.close_ch + 1; main = shutting_down }) refl (ground arith))
main-ReturnsOrGoes shutting_down s p h f =
    inr (main-GoesOn MainMove.shutdown s (record s { main = cancelling }) refl (ground arith))
main-ReturnsOrGoes cancelling s p h f = inr (
    main-GoesOn MainMove.cancel_context s (record s { cancelled = true; main = exit_wait }) refl
      (ground arith))
main-ReturnsOrGoes exit_wait s p h f = elim (listener-GoesOn s s.listener refl f) [
  | inl e ↦ inr (wait-GoesOn s p e)
  | inr g ↦ inr g
]
main-ReturnsOrGoes exit_pause s p h f = elim (listener-GoesOn s s.listener refl f) [
  | inl e ↦ inr (pause-GoesOn s p e)
  | inr g ↦ inr g
]
main-ReturnsOrGoes (returned r) s p h f = inl (r, p)

-- Once `Serve` has left the loop on errors and signals, it cannot go on for ever: in any run from
-- there, the main goroutine and the listener make at most seven moves (not counted are looks at
-- `exitCh` that find it open and the pauses after them); where `Serve` has not yet returned, some
-- moves go on, one of which counts; and if the reporter had started the survey client before, or
-- had failed to, what `Serve` returns does not change any more.
pub Lives-ends :
    (s t : Lifecycle)
    → Lives started_up s
    → IsEnding s.main
    → (run : Lives s t)
    → (progress run ≤ 7)
      × (((r : Result) × (t.main ≡ returned r))
          ⊎ ((u : Lifecycle) × ((on : Lives t u) × (progress on ≡ 1))))
      × (s.client ≢ standby → returns t.main t.err ≡ returns s.main s.err)
Lives-ends s t lives h run =
    let (over, le) = progress_bound s t h run in
    (
      omega (arith, le, left_at_most s.main s.listener h),
      main-ReturnsOrGoes t.main t refl over (all-Fits t (Lives-trans lives run)),
      λ c. (Lives-returns s t h c run).1,
    )
