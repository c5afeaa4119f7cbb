-- ===== src/Server/Listen.antt =====
-- How `Serve` takes its listen path (server/server.go): the function literal that checks the path,
-- and `net.Listen` behind it, for two processes that are started with one path. Each step
-- is a system call. Errors of `stat` other than a missing file, and errors of the lock, are left out.
mod Tests
pub mod Alone
pub mod Together
use kustomer.Common.{
  ℕ, ◌+◌, Bool, true, false, not, Option, none, some, List, [], ◌∷◌, ◌≡◌, ◌==◌, if◌then◌else◌,
}

pub data Process : Type 0 where
  one two : Process

-- What stands at the path: a socket on which nobody listens, or that of a process.
pub data SocketFile : Type 0 where
  stale : SocketFile
  owned : Process → SocketFile

-- The errors with which `Serve` gives up.
pub data ListenError : Type 0 where
  already_in_use dial_failed bind_failed : ListenError

-- The number is that of the lock file which the process has opened.
pub data Pc : Type 0 where
  stat dial create_lock bind serving : Pc
  lock remove_lock remove_socket unlock : ℕ → Pc
  gave_up : ListenError → Pc

-- `lock_file` is the number of the file that stands at the lock's path; `next` is a number that no
-- file has had.
pub record Starting : Type 0 where
  pub pc_one : Pc
  pub pc_two : Pc
  pub socket : Option SocketFile
  pub lock_file : Option ℕ
  pub next : ℕ

pub pc_of : Process → Starting → Pc
pc_of one s = s.pc_one
pc_of two s = s.pc_two

-- Whether a process holds_lock the lock on a file.
holds_lock : Pc → ℕ → Bool
holds_lock (remove_lock m) n = m == n
holds_lock (remove_socket m) n = m == n
holds_lock (unlock m) n = m == n
holds_lock _ n = false

other : Process → Starting → Pc
other one s = s.pc_two
other two s = s.pc_one

pub set_pc : Process → Pc → Starting → Starting
set_pc one pc s = record s { pc_one = pc }
set_pc two pc s = record s { pc_two = pc }

-- `net.DialTimeout`: a path that is gone is another error than `connection refused`.
dialled : Option SocketFile → Pc
dialled none = gave_up dial_failed
dialled (some stale) = create_lock
dialled (some (owned p)) = gave_up already_in_use

-- `os.Create` opens the file that is there, or makes a new one.
open_lock : Process → Option ℕ → Starting → Starting
open_lock p none s =
    set_pc p (lock s.next) (record s { lock_file = some s.next; next = s.next + 1 })
open_lock p (some n) s = set_pc p (lock n) s

-- `net.Listen` fails where a file is at the path.
after_bind : Process → Option SocketFile → Starting → Starting
after_bind p none s = set_pc p serving (record s { socket = some (owned p) })
after_bind p (some f) s = set_pc p (gave_up bind_failed) s

after_stat : Option SocketFile → Pc
after_stat none = bind
after_stat (some f) = dial

-- The next step of a process, if it does not wait for the lock and is not done.
unfoldable pub advance : Process → Pc → Starting → Option Starting
unfolding holds_lock other dialled open_lock after_bind after_stat set_pc
advance p stat s = some (set_pc p (after_stat s.socket) s)
advance p dial s = some (set_pc p (dialled s.socket) s)
advance p create_lock s = some (open_lock p s.lock_file s)
advance p (lock n) s = if holds_lock (other p s) n then none else some (set_pc p (remove_lock n) s)
advance p (remove_lock n) s = some (set_pc p (remove_socket n) (record s { lock_file = none }))
advance p (remove_socket n) s = some (set_pc p (unlock n) (record s { socket = none }))
advance p (unlock n) s = some (set_pc p bind s)
advance p bind s = some (after_bind p s.socket s)
advance p serving s = none
advance p (gave_up e) s = none

-- A run of the two processes, by whose turn it is.
unfoldable pub take_turns : List Process → Starting → Option Starting
unfolding pc_of
take_turns [] s = some s
take_turns (p ∷ ps) s = elim (advance p (pc_of p s) s) [ none ↦ none | some t ↦ take_turns ps t ]
