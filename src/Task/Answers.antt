-- ===== src/Task/Answers.antt =====
-- The answers of Run in pkg/task/manager.go.
use soft_serve.Base.{
  ℕ, ◌≡◌, Bool, true, false, ◌==◌, leb, Option, some, List, [], ◌∷◌, Text, refl, arith,
}
use soft_serve.Task.{Failure, context_done, Manager}
use soft_serve.Task.Run.{
  Phase, loading, testing, waiting, marking, storing, selecting, recording, keeping, answering,
  removing, cancelling, ended, RunCall, Ready, step, load_step, after_wait, select_step, is_done,
  Reaches, here, own, other,
}

-- nothing, or the error of a context that a started task was waited for
unfoldable pub may_answer : List (Option Failure) → Bool
may_answer [] = true
may_answer (some context_done ∷ []) = true
may_answer _ = false

-- one answer; or the error of a context, and one more answer after a start
unfoldable pub has_answered : List (Option Failure) → ℕ → Bool
has_answered (r ∷ []) s = leb s 1
has_answered (some context_done ∷ r ∷ []) s = s == 1
has_answered _ s = false

unfoldable pub IsTold : Phase → List (Option Failure) → ℕ → Type 0
IsTold loading xs s = (xs ≡ []) × (s ≡ 0)
IsTold (testing _) xs s = (xs ≡ []) × (s ≡ 0)
IsTold (waiting _) xs s = (xs ≡ []) × (s ≡ 0)
IsTold (marking _) xs s = (may_answer xs ≡ true) × (s ≡ 0)
IsTold (storing _) xs s = (may_answer xs ≡ true) × (s ≡ 0)
IsTold (selecting _) xs s = (may_answer xs ≡ true) × (s ≡ 1)
IsTold (recording _ _) xs s = (may_answer xs ≡ true) × (s ≡ 1)
IsTold (keeping _ _) xs s = (may_answer xs ≡ true) × (s ≡ 1)
IsTold (answering _ _) xs s = (may_answer xs ≡ true) × (s ≡ 1)
IsTold (removing _) xs s = has_answered xs s ≡ true
IsTold (cancelling _) xs s = has_answered xs s ≡ true
IsTold ended xs s = has_answered xs s ≡ true

abbrev Told : RunCall → Type 0
Told c = IsTold c.phase c.sent c.starts

step-IsTold :
    (w : Ready) (room : ℕ) (id : Text) (p : Phase) (m : Manager) (c : RunCall) {n : Manager}
    {d : RunCall}
    → IsTold p c.sent c.starts
    → step w room id p m c ≡ some (n, d)
    → Told d
unfolding step load_step after_wait select_step is_done IsTold may_answer has_answered
step-IsTold w room id loading m c h e = ground (arith, h, e)
step-IsTold w room id (testing a) m c h e = ground (arith, h, e)
step-IsTold w room id (waiting a) m c h e = ground (arith, h, e)
step-IsTold w room id (marking a) m c h e = ground (arith, h, e)
step-IsTold w room id (storing a) m c h e = ground (arith, h, e)
step-IsTold w room id (selecting a) m c h e = ground (arith, h, e)
step-IsTold w room id (recording a r) m c h e = ground (arith, h, e)
step-IsTold w room id (keeping a r) m c h e = ground (arith, h, e)
step-IsTold w room id (answering a r) m c h e = ground (arith, h, e)
step-IsTold w room id (removing a) m c h e = ground (arith, h, e)
step-IsTold w room id (cancelling a) m c h e = ground (arith, h, e)
step-IsTold w room id ended m c h e = absurd (ground arith)

pub reaches-Told : {id : Text} {start m : Manager} {c : RunCall} → Reaches id start m c → Told c
unfolding IsTold
reaches-Told here = (refl, refl)
reaches-Told (own {c = c} w room q e) = step-IsTold w room _ c.phase _ c (reaches-Told q) e
reaches-Told (other n q) = reaches-Told q

-- Whatever other goroutines do in between, a call of Run that has come to its end has sent
-- exactly one answer and started the function at most once; or it has sent two answers, the first
-- of which is the error of a context, and started the function once.
pub reaches-answered :
    {id : Text} {start m : Manager} {c : RunCall}
    → Reaches id start m c
    → c.phase ≡ ended
    → has_answered c.sent c.starts ≡ true
unfolding IsTold
reaches-answered {id} {start} {m} {c} q e =
    rw e at (reaches-Told {id = id} {start = start} {m = m} {c = c} q)
