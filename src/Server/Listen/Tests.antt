-- ===== src/Server/Listen/Tests.antt =====
-- Instances of the theorems on the listen path (server/server.go).
use kustomer.Common.{none, some, List, [], ◌∷◌, ◌≡◌, refl}
use kustomer.Server.Listen.{
  Process, one, two, stale, owned, already_in_use, stat, serving, gave_up, Starting, take_turns,
  advance,
}
use kustomer.Server.Listen.Alone.{turns, started_alone}
use kustomer.Server.Listen.Together.{started_together}

abbrev after_a_crash : Starting
after_a_crash = record {
  pc_one = stat;
  pc_two = stat;
  socket = some stale;
  lock_file = some 0;
  next = 1;
}

started_alone_example :
    (some stale ≡ none
      → take_turns (turns 2) after_a_crash
        ≡ some (record after_a_crash { pc_one = serving; socket = some (owned one) }))
    × (some stale ≡ some stale
        → (t : Starting) × (take_turns (turns 8) after_a_crash ≡ some t)
          × (t.pc_one ≡ serving)
          × (t.socket ≡ some (owned one)))
    × ((p : Process)
        → some stale ≡ some (owned p)
        → take_turns (turns 2) after_a_crash
          ≡ some (record after_a_crash { pc_one = gave_up already_in_use }))
started_alone_example = started_alone after_a_crash refl tt

started_together_example :
    (ps : List Process) × (t : Starting) × (take_turns ps after_a_crash ≡ some t)
    × (t.pc_one ≡ serving)
    × (t.pc_two ≡ serving)
    × (t.socket ≡ some (owned two))
started_together_example = started_together after_a_crash refl refl refl

-- A process that starts later finds the first one's socket.
one_after_the_other :
    take_turns (one ∷ one ∷ one ∷ one ∷ one ∷ one ∷ one ∷ one ∷ two ∷ two ∷ []) after_a_crash
    ≡ some (record after_a_crash {
      pc_one = serving;
      pc_two = gave_up already_in_use;
      lock_file = none;
      socket = some (owned one);
    })
unfolding take_turns advance
one_after_the_other = refl
