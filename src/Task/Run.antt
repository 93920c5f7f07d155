-- ===== src/Task/Run.antt =====
-- Run and Stop of pkg/task/manager.go.
use soft_serve.Base.{
  ℕ, zero, suc, Bool, true, ◌||◌, ◌≡◌, Option, none, some, List, [], ◌∷◌, ◌++◌, Text, length, ltb,
  if◌then◌else◌,
}
use soft_serve.Task.{
  Failure, task_not_found, context_done, Manager, load_task, store_task, delete_task, write_task,
  cancel,
}

-- Stop
unfoldable pub stop : Text → Manager → Option Failure × Manager
unfolding load_task
stop id m = elim (load_task id m) [
  | none ↦ (some task_not_found, m)
  | some a ↦ (none, delete_task id (cancel a m))
]

-- where a call of Run stands: each phase is the next statement that reads or writes shared state
pub data Phase : Type 0 where
  loading ended : Phase
  testing waiting marking storing selecting removing cancelling : ℕ → Phase
  recording keeping answering : ℕ → Option Failure → Phase

-- sent is what has gone to the channel done; starts counts the goroutines with the function
pub record RunCall : Type 0 where
  pub phase : Phase
  pub sent : List (Option Failure)
  pub starts : ℕ

abbrev pub begin : RunCall
begin = record { phase = loading; sent = []; starts = 0 }

abbrev pub goto : Phase → RunCall → RunCall
goto p c = record c { phase = p }

abbrev pub answer_with : Option Failure → Phase → RunCall → RunCall
answer_with r p c = record c { phase = p; sent = c.sent ++ r ∷ [] }

-- a context is done if it, or the context of the manager that it comes from, is cancelled
unfoldable pub is_done : Manager → ℕ → Bool
is_done m a = (m.heap a).cancelled || m.stopped

-- what select finds in the channel of the function
pub data Ready : Type 0 where
  pending : Ready
  returned : Option Failure → Ready

-- A send on the channel done, which takes `room` sends in all: by its capacity, and by what has been
-- received from it. Without room the call waits.
abbrev pub send : ℕ → Option Failure → Phase → Manager → RunCall → Option (Manager × RunCall)
send room r p m c = if ltb (length c.sent) room then some (m, answer_with r p c) else none

unfoldable pub load_step : ℕ → Text → Manager → RunCall → Option (Manager × RunCall)
unfolding load_task
load_step room id m c = elim (load_task id m) [
  | none ↦ send room (some task_not_found) ended m c
  | some a ↦ some (m, goto (testing a) c)
]

unfoldable pub after_wait : ℕ → ℕ → Manager → RunCall → Option (Manager × RunCall)
after_wait room a m c = elim ((m.heap a).outcome) [
  | some e ↦ send room (some e) ended m c
  | none ↦ send room (some context_done) (marking a) m c
]

unfoldable pub select_step : Ready → ℕ → ℕ → Manager → RunCall → Option (Manager × RunCall)
select_step (returned r) room a m c = some (m, goto (recording a r) c)
select_step pending room a m c =
    if m.stopped then send room (some context_done) (removing a) m c else none

-- one step of Run; none while it waits
unfoldable pub step : Ready → ℕ → Text → Phase → Manager → RunCall → Option (Manager × RunCall)
unfolding load_step after_wait select_step is_done
step w room id loading m c = load_step room id m c
step w room id (testing a) m c =
    some (m, goto (if (m.heap a).started then waiting a else marking a) c)
step w room id (waiting a) m c = if is_done m a then after_wait room a m c else none
step w room id (marking a) m c =
    some (write_task a (record (m.heap a) { started = true }) m, goto (storing a) c)
step w room id (storing a) m c =
    some (store_task id a m, record c { phase = selecting a; starts = suc c.starts })
step w room id (selecting a) m c = select_step w room a m c
step w room id (recording a r) m c =
    some (write_task a (record (m.heap a) { outcome = r }) m, goto (keeping a r) c)
step w room id (keeping a r) m c = some (store_task id a m, goto (answering a r) c)
step w room id (answering a r) m c = send room r (removing a) m c
step w room id (removing a) m c = some (delete_task id m, goto (cancelling a) c)
step w room id (cancelling a) m c = some (cancel a m, goto ended c)
step w room id ended m c = none

-- What a call of Run has reached: own steps, and any change that other goroutines make, who may also
-- receive from the channel and make room in it.
pub data Reaches (id : Text) (start : Manager) : Manager → RunCall → Type 0 where
  here : Reaches id start start begin
  own :
      {m n : Manager} {c d : RunCall} (w : Ready) (room : ℕ)
      → Reaches id start m c
      → step w room id c.phase m c ≡ some (n, d)
      → Reaches id start n d
  other : {m : Manager} {c : RunCall} (n : Manager) → Reaches id start m c → Reaches id start n c

-- at most so many steps of its own, up to the first wait
unfoldable pub run_steps : ℕ → Ready → ℕ → Text → Manager → RunCall → Manager × RunCall
unfolding step
run_steps zero w room id m c = (m, c)
run_steps (suc n) w room id m c = elim (step w room id c.phase m c) [
  | none ↦ (m, c)
  | some (m', c') ↦ run_steps n w room id m' c'
]
