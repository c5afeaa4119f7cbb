-- ===== src/Server/Listen/Alone.antt =====
-- A process that is started alone (server/server.go).
use kustomer.Common.{
  ℕ, zero, suc, ◌+◌, false, none, some, List, [], ◌∷◌, ◌≡◌, refl, ap, ◌∙◌, arith, inl, inr,
  Option-cases,
}
use kustomer.Server.Listen.{
  Process, one, stale, owned, already_in_use, Pc, stat, dial, create_lock, serving, lock, gave_up,
  Starting, pc_of, holds_lock, other, set_pc, dialled, open_lock, after_bind, after_stat, advance,
  take_turns,
}

abbrev pub turns : ℕ → List Process
turns zero = []
turns (suc n) = one ∷ turns n

-- A lock that the other process holds_lock would make this one wait.
abbrev pub IsOut : Pc → Type 0
IsOut stat = Unit
IsOut serving = Unit
IsOut (gave_up e) = Unit
IsOut _ = ⊥

pub turn_then :
    (p : Process) (ps : List Process) (s t u : Starting)
    → advance p (pc_of p s) s ≡ some t
    → take_turns ps t ≡ some u
    → take_turns (p ∷ ps) s ≡ some u
unfolding take_turns pc_of
turn_then p ps s t u e rest = ap (λ o. elim o [ none ↦ none | some v ↦ take_turns ps v ]) e ∙ rest

free_lock : (pc : Pc) (n : ℕ) → IsOut pc → holds_lock pc n ≡ false
unfolding holds_lock
free_lock pc n h = ground arith

from_lock :
    (n : ℕ) (s : Starting)
    → s.pc_one ≡ lock n
    → IsOut s.pc_two
    → take_turns (turns 5) s
      ≡ some (record s { pc_one = serving; lock_file = none; socket = some (owned one) })
unfolding take_turns pc_of advance other after_bind set_pc
from_lock n s p q = ground (arith, free_lock s.pc_two n q)

from_create :
    (s : Starting) (h : s.pc_one ≡ create_lock) (out : IsOut s.pc_two)
    → (t : Starting) × (take_turns (turns 6) s ≡ some t)
      × (t.pc_one ≡ serving)
      × (t.socket ≡ some (owned one))
unfolding take_turns pc_of advance open_lock set_pc
from_create s h out = elim (Option-cases s.lock_file) [
  | inl e ↦ (
    _,
    turn_then one (turns 5) s
        (record s { pc_one = lock s.next; lock_file = some s.next; next = s.next + 1 }) _
        (ground arith) (from_lock s.next _ refl out),
    refl,
    refl,
  )
  | inr (n, e) ↦ (
    _,
    turn_then one (turns 5) s (record s { pc_one = lock n }) _ (ground arith)
        (from_lock n _ refl out),
    refl,
    refl,
  )
]

-- A process checks the listen path while the other is not started, serves or has given up. If there
-- is no file, it serves after two steps. If there is a stale socket, it serves after eight, with
-- its own socket in place of the stale one. If a process listens there, it gives up after two, and
-- the socket, the lock file and the other process are as before.
pub started_alone :
    (s : Starting)
    → s.pc_one ≡ stat
    → IsOut s.pc_two
    → (s.socket ≡ none
        → take_turns (turns 2) s ≡ some (record s { pc_one = serving; socket = some (owned one) }))
      × (s.socket ≡ some stale
          → (t : Starting) × (take_turns (turns 8) s ≡ some t)
            × (t.pc_one ≡ serving)
            × (t.socket ≡ some (owned one)))
      × ((p : Process)
          → s.socket ≡ some (owned p)
          → take_turns (turns 2) s ≡ some (record s { pc_one = gave_up already_in_use }))
unfolding take_turns pc_of advance after_stat dialled after_bind set_pc
started_alone s h out = (
  λ e. ground arith,
  λ e.
      let (t, run, up, mine) = from_create (record s { pc_one = create_lock }) refl out in
      (
        t,
        turn_then one (turns 7) s (record s { pc_one = dial }) t (ground arith)
            (turn_then one (turns 6) (record s { pc_one = dial })
              (record s { pc_one = create_lock }) t (ground arith) run),
        up,
        mine,
      ),
  λ p e. ground arith,
)
