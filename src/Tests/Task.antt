-- ===== src/Tests/Task.antt =====
-- A call of Run on a task that has already started, and the operations of the table.
use soft_serve.Base.{
  arith, ℕ, ◌≡◌, refl, Bool, true, false, Option, none, some, List, [], ◌∷◌, Text, str,
}
use soft_serve.Task.{
  Failure, task_not_found, context_done, failed, Task, Manager, load_task, task_exists, add_task,
}
use soft_serve.Task.Run.{
  answering, ended, begin, pending, returned, Reaches, here, other, run_steps, stop,
}
use soft_serve.Task.Answers.{has_answered, reaches-answered}
use soft_serve.Task.Stopped.{run_steps-Reaches, stopped-answered}

abbrev blank : Task
blank = record { id = []; started = false; cancelled = false; outcome = none }

abbrev empty : Manager
empty = record { table = []; heap = λ _. blank; fresh = 0; stopped = false }

abbrev job : Text
job = str "import:a"

abbrev over : Failure
over = failed (str "no such host")

-- the task is added and runs elsewhere
abbrev busy : Manager
busy = record {
  table = record { key = job; address = 0 } ∷ [];
  heap = λ _. record { id = job; started = true; cancelled = false; outcome = none };
  fresh = 1;
  stopped = false;
}

-- the same, once the server shuts down
abbrev closing : Manager
closing = record busy { stopped = true }

add_once : load_task job (add_task job (add_task job empty)) ≡ some 0
unfolding load_task add_task soft_serve.Base.text_eq
add_once = refl

stop_unknown : (stop job empty).0 ≡ some task_not_found
unfolding stop
stop_unknown = refl

stop_known : task_exists job (stop job busy).1 ≡ false
unfolding task_exists stop soft_serve.Base.text_eq
stop_known = refl

run_waits : (run_steps 11 pending 2 job busy begin).1.sent ≡ []
unfolding run_steps soft_serve.Base.text_eq
run_waits = refl

-- two answers from one call, and the function is started again
run_twice :
    (run_steps 11 (returned (some over)) 2 job closing begin).1.sent
    ≡ some context_done ∷ some over ∷ []
unfolding run_steps soft_serve.Base.text_eq
run_twice = refl

-- the second answer waits for ever on a channel that takes one send
run_blocks :
    (run_steps 20 (returned (some over)) 1 job closing begin).1.phase ≡ answering 0 (some over)
unfolding run_steps soft_serve.Base.text_eq
run_blocks = refl

run_fresh : (run_steps 11 (returned none) 2 job (add_task job empty) begin).1.sent ≡ none ∷ []
unfolding run_steps add_task soft_serve.Base.text_eq
run_fresh = refl

abbrev reached : Reaches job busy closing begin
reached = other closing here

reaches-answered_example : has_answered (some context_done ∷ none ∷ []) 1 ≡ true
unfolding run_steps soft_serve.Base.text_eq
reaches-answered_example =
    reaches-answered (run_steps-Reaches 11 (returned none) 2 closing begin reached) refl

stopped-answered_example :
    ((run_steps 11 pending 2 job closing begin).1.phase ≡ ended)
    × (has_answered
          (run_steps 11 pending 2 job closing begin).1.sent
          (run_steps 11 pending 2 job closing begin).1.starts
        ≡ true)
stopped-answered_example = stopped-answered pending 2 closing begin reached refl (omega arith)
