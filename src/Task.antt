-- ===== src/Task.antt =====
-- pkg/task/manager.go: the table of tasks, and Run as steps between which other goroutines may act.
-- A task is a pointer in the source, so the table holds addresses. The function of a task is not
-- part of the model: what it returns, and when, is given by the choice that select makes.
pub mod Run
pub mod Answers
pub mod Stopped
use soft_serve.Base.{
  ℕ, suc, Bool, true, false, not, Option, none, some, List, [], ◌∷◌, Text, text_eq, find, select,
  ◌==◌, if◌then◌else◌,
}

pub data Failure : Type 0 where
  task_not_found context_done : Failure
  failed : Text → Failure

pub record Task : Type 0 where
  pub id : Text
  pub started : Bool
  pub cancelled : Bool
  pub outcome : Option Failure

pub record Slot : Type 0 where
  pub key : Text
  pub address : ℕ

pub record Manager : Type 0 where
  pub table : List Slot
  pub heap : ℕ → Task
  pub fresh : ℕ
  pub stopped : Bool

-- the operations of sync.Map
unfoldable pub load_task : Text → Manager → Option ℕ
load_task id m = elim (find (λ e. text_eq e.key id) m.table) [
  | none ↦ none
  | some e ↦ some e.address
]

abbrev pub delete_task : Text → Manager → Manager
delete_task id m = record m { table = select (λ e. not (text_eq e.key id)) m.table }

abbrev pub store_task : Text → ℕ → Manager → Manager
store_task id a m = record m {
  table = record { key = id; address = a } ∷ select (λ e. not (text_eq e.key id)) m.table;
}

abbrev pub write_task : ℕ → Task → Manager → Manager
write_task a t m = record m { heap = λ b. if b == a then t else m.heap b }

-- Exists
unfoldable pub task_exists : Text → Manager → Bool
unfolding load_task
task_exists id m = elim (load_task id m) [ none ↦ false | some _ ↦ true ]

-- Add
unfoldable pub add_task : Text → Manager → Manager
unfolding task_exists
add_task id m =
    if task_exists id m
    then m
    else store_task id m.fresh (
        write_task m.fresh (record { id = id; started = false; cancelled = false; outcome = none })
          (record m { fresh = suc m.fresh }))

abbrev pub cancel : ℕ → Manager → Manager
cancel a m = write_task a (record (m.heap a) { cancelled = true }) m
