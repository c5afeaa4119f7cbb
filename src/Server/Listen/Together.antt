-- ===== src/Server/Listen/Together.antt =====
-- Two processes that have both found a stale socket (server/server.go).
use kustomer.Common.{ℕ, ◌+◌, none, some, List, [], ◌∷◌, ◌≡◌, refl, arith, Option-cases, inl, inr}
use kustomer.Server.Listen.{
  Process, one, two, stale, owned, stat, dial, after_stat, dialled, create_lock, serving, lock,
  Starting, pc_of, holds_lock, other, set_pc, open_lock, after_bind, advance, take_turns,
}
use kustomer.Server.Listen.Alone.{turn_then}

-- Process one goes from the lock to its socket, then process two.
abbrev pub one_by_one : List Process
one_by_one = one ∷ one ∷ one ∷ one ∷ one ∷ two ∷ two ∷ two ∷ two ∷ two ∷ []

both_locked :
    (n : ℕ) (s : Starting)
    → s.pc_one ≡ lock n
    → s.pc_two ≡ lock n
    → take_turns one_by_one s
      ≡ some (record s {
        pc_one = serving;
        pc_two = serving;
        lock_file = none;
        socket = some (owned two);
      })
unfolding take_turns pc_of advance other after_bind set_pc holds_lock
both_locked n s p q = ground arith

abbrev BothServe : Starting → Type 0
BothServe s =
    (ps : List Process) × (t : Starting) × (take_turns ps s ≡ some t)
    × (t.pc_one ≡ serving)
    × (t.pc_two ≡ serving)
    × (t.socket ≡ some (owned two))

turn-BothServe :
    (p : Process) (s t : Starting) → advance p (pc_of p s) s ≡ some t → BothServe t → BothServe s
turn-BothServe p s t e (ps, u, run, up, too, mine) =
    (p ∷ ps, u, turn_then p ps s t u e run, up, too, mine)

locked-BothServe : (n : ℕ) (s : Starting) → s.pc_one ≡ lock n → s.pc_two ≡ lock n → BothServe s
locked-BothServe n s p q = (one_by_one, _, both_locked n s p q, refl, refl, refl)

-- The second process opens the lock file of the first.
second-BothServe :
    (n : ℕ) (s : Starting)
    → s.pc_one ≡ lock n
    → s.pc_two ≡ create_lock
    → s.lock_file ≡ some n
    → BothServe s
unfolding advance pc_of open_lock set_pc
second-BothServe n s p q e =
    turn-BothServe two s (record s { pc_two = lock n }) (ground arith) (locked-BothServe n _ p refl)

create-BothServe : (s : Starting) → s.pc_one ≡ create_lock → s.pc_two ≡ create_lock → BothServe s
unfolding advance pc_of open_lock set_pc
create-BothServe s p q = elim (Option-cases s.lock_file) [
  | inl e ↦
      turn-BothServe one s
        (record s { pc_one = lock s.next; lock_file = some s.next; next = s.next + 1 })
        (ground arith) (second-BothServe s.next _ refl q refl)
  | inr (n, e) ↦
      turn-BothServe one s (record s { pc_one = lock n }) (ground arith)
        (second-BothServe n _ refl q e)
]

-- If two processes are started where a stale socket is, some order of their steps leads to a state
-- where both serve and the socket at the path is that of the second: the second has removed the
-- socket of the first.
pub started_together :
    (s : Starting)
    → s.pc_one ≡ stat
    → s.pc_two ≡ stat
    → s.socket ≡ some stale
    → (ps : List Process) × (t : Starting) × (take_turns ps s ≡ some t)
      × (t.pc_one ≡ serving)
      × (t.pc_two ≡ serving)
      × (t.socket ≡ some (owned two))
unfolding advance pc_of after_stat dialled set_pc
started_together s p q e =
    turn-BothServe one s (record s { pc_one = dial }) (ground arith)
      (turn-BothServe two _ (record s { pc_one = dial; pc_two = dial }) (ground arith)
        (turn-BothServe one _ (record s { pc_one = create_lock; pc_two = dial }) (ground arith)
          (turn-BothServe two _ (record s { pc_one = create_lock; pc_two = create_lock })
            (ground arith) (create-BothServe _ refl refl))))
