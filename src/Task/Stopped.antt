-- ===== src/Task/Stopped.antt =====
-- The end of Run in pkg/task/manager.go, once the context of the manager is done.
use soft_serve.Base.{
  ℕ, zero, suc, ◌≡◌, true, Option, Option-cases, none, some, List, [], ◌∷◌, ◌++◌, Text, length, ltb,
  lt→ltb, ◌≤◌, Bool-cases, refl, arith, if◌then◌else◌, inl, inr,
}
use soft_serve.Task.{
  store_task, write_task, delete_task, cancel, task_not_found, failed, Failure, context_done,
  Manager, load_task,
}
use soft_serve.Task.Run.{
  returned, pending, Phase, loading, testing, waiting, marking, storing, selecting, recording,
  keeping, answering, removing, cancelling, ended, RunCall, Ready, step, load_step, after_wait,
  select_step, is_done, Reaches, own, run_steps,
}
use soft_serve.Task.Answers.{may_answer, has_answered, IsTold, reaches-Told, reaches-answered}

abbrev at : Phase → List (Option Failure) → ℕ → RunCall
at p xs s = record { phase = p; sent = xs; starts = s }

-- a call of Run ends in so many steps from this phase on
abbrev EndsIn : ℕ → Ready → ℕ → Text → Manager → RunCall → Type 0
EndsIn n w room id m c = (run_steps n w room id m c).1.phase ≡ ended

module _ (w : Ready) (room : ℕ) (id : Text) where
  -- the channel takes a send after these
  abbrev Fits : List (Option Failure) → Type 0
  Fits xs = ltb (length xs) room ≡ true

  step-EndsIn :
      (n : ℕ) (m m' : Manager) (c c' : RunCall)
      → step w room id c.phase m c ≡ some (m', c')
      → EndsIn n w room id m' c'
      → EndsIn (suc n) w room id m c
  unfolding run_steps
  step-EndsIn n m m' c c' e h = rw (e, run_steps) h

  ended-EndsIn :
      (n : ℕ) (m : Manager) (xs : List (Option Failure)) (s : ℕ)
      → EndsIn n w room id m (at ended xs s)
  unfolding run_steps step
  ended-EndsIn zero m xs s = refl
  ended-EndsIn (suc n) m xs s = refl

  removing-EndsIn :
      (n : ℕ) (a : ℕ) (m : Manager) (xs : List (Option Failure)) (s : ℕ)
      → EndsIn (suc (suc n)) w room id m (at (removing a) xs s)
  unfolding run_steps step
  removing-EndsIn n a m xs s = ended-EndsIn n (cancel a (delete_task id m)) xs s

  answering-EndsIn :
      (n : ℕ) (a : ℕ) (r : Option Failure) (m : Manager) (xs : List (Option Failure)) (s : ℕ)
      → Fits xs
      → EndsIn (suc (suc (suc n))) w room id m (at (answering a r) xs s)
  unfolding step
  answering-EndsIn n a r m xs s h =
      step-EndsIn (suc (suc n)) m m (at (answering a r) xs s) (at (removing a) (xs ++ r ∷ []) s)
        (rw h) (removing-EndsIn n a m (xs ++ r ∷ []) s)

  recording-EndsIn :
      (n : ℕ) (a : ℕ) (r : Option Failure) (m : Manager) (xs : List (Option Failure)) (s : ℕ)
      → Fits xs
      → EndsIn (suc (suc (suc (suc (suc n))))) w room id m (at (recording a r) xs s)
  unfolding run_steps step
  recording-EndsIn n a r m xs s h =
      answering-EndsIn n a r (store_task id a (write_task a (record (m.heap a) { outcome = r }) m))
        xs s h

  selecting-EndsIn :
      (n : ℕ) (v : Ready) (a : ℕ) (m : Manager) (xs : List (Option Failure)) (s : ℕ)
      → m.stopped ≡ true
      → Fits xs
      → w ≡ v
      → EndsIn (suc (suc (suc (suc (suc (suc n)))))) w room id m (at (selecting a) xs s)
  unfolding run_steps step select_step
  selecting-EndsIn n (returned r) a m xs s h fits e =
      rw e (rw e at (recording-EndsIn n a r m xs s fits))
  selecting-EndsIn n pending a m xs s h fits e =
      step-EndsIn (suc (suc (suc (suc (suc n))))) m m (at (selecting a) xs s)
        (at (removing a) (xs ++ some context_done ∷ []) s) (rw (e, select_step, h, fits))
        (removing-EndsIn (suc (suc (suc n))) a m (xs ++ some context_done ∷ []) s)

  marking-EndsIn :
      (n : ℕ) (a : ℕ) (m : Manager) (xs : List (Option Failure)) (s : ℕ)
      → m.stopped ≡ true
      → Fits xs
      → EndsIn (suc (suc (suc (suc (suc (suc (suc (suc n)))))))) w room id m (at (marking a) xs s)
  unfolding run_steps step
  marking-EndsIn n a m xs s h fits =
      selecting-EndsIn n w a
        (store_task id a (write_task a (record (m.heap a) { started = true }) m)) xs (suc s) h fits
        refl

  module _ (m : Manager) (stopped' : m.stopped ≡ true) (one : ltb 0 room ≡ true)
      (two : ltb 1 room ≡ true) where
    may_answer-Fits : (xs : List (Option Failure)) → may_answer xs ≡ true → Fits xs
    unfolding may_answer
    may_answer-Fits [] h = one
    may_answer-Fits (some context_done ∷ []) h = two
    may_answer-Fits (some context_done ∷ y ∷ xs) h = absurd (ground arith)
    may_answer-Fits (some task_not_found ∷ xs) h = absurd (ground arith)
    may_answer-Fits (some (failed t) ∷ xs) h = absurd (ground arith)
    may_answer-Fits (none ∷ xs) h = absurd (ground arith)

    waited :
        (a : ℕ) (c : RunCall) {next : Option (Manager × RunCall)}
        → after_wait room a m c ≡ next
        → (if is_done m a then after_wait room a m c else none) ≡ next
    unfolding is_done
    waited a c e = ground (arith, stopped', e)

    waiting-EndsIn :
        (n a s : ℕ)
        → EndsIn
            (suc (suc (suc (suc (suc (suc (suc (suc (suc n)))))))))
            w
            room
            id
            m
            (at (waiting a) [] s)
    unfolding step after_wait
    waiting-EndsIn n a s = elim (Option-cases ((m.heap a).outcome)) [
      | inl unset ↦
          step-EndsIn (suc (suc (suc (suc (suc (suc (suc (suc n)))))))) m m (at (waiting a) [] s)
            (at (marking a) (some context_done ∷ []) s)
            (waited a (at (waiting a) [] s) (ground (arith, unset, one)))
            (marking-EndsIn n a m (some context_done ∷ []) s stopped' two)
      | inr (e, set) ↦
          step-EndsIn (suc (suc (suc (suc (suc (suc (suc (suc n)))))))) m m (at (waiting a) [] s)
            (at ended (some e ∷ []) s) (waited a (at (waiting a) [] s) (ground (arith, set, one)))
            (ended-EndsIn (suc (suc (suc (suc (suc (suc (suc (suc n)))))))) m (some e ∷ []) s)
    ]

    testing-EndsIn :
        (n a s : ℕ)
        → EndsIn
            (suc (suc (suc (suc (suc (suc (suc (suc (suc (suc n))))))))))
            w
            room
            id
            m
            (at (testing a) [] s)
    unfolding step
    testing-EndsIn n a s = elim (Bool-cases ((m.heap a).started)) [
      | inl before ↦
          step-EndsIn (suc (suc (suc (suc (suc (suc (suc (suc (suc n))))))))) m m
            (at (testing a) [] s) (at (waiting a) [] s) (rw before) (waiting-EndsIn n a s)
      | inr first ↦
          step-EndsIn (suc (suc (suc (suc (suc (suc (suc (suc (suc n))))))))) m m
            (at (testing a) [] s) (at (marking a) [] s) (rw first)
            (marking-EndsIn (suc n) a m [] s stopped' one)
    ]

    loading-EndsIn : (s : ℕ) → EndsIn 11 w room id m (at loading [] s)
    unfolding step load_step
    loading-EndsIn s = elim (Option-cases (load_task id m)) [
      | inl k ↦
          step-EndsIn 10 m m (at loading [] s) (at ended (some task_not_found ∷ []) s)
            (rw (k, load_step, one)) (ended-EndsIn 10 m (some task_not_found ∷ []) s)
      | inr (a, k) ↦
          step-EndsIn 10 m m (at loading [] s) (at (testing a) [] s) (rw (k, load_step))
            (testing-EndsIn 0 a s)
    ]

    told_ends :
        (p : Phase) (xs : List (Option Failure)) (s : ℕ)
        → IsTold p xs s
        → EndsIn 11 w room id m (at p xs s)
    unfolding run_steps step IsTold
    told_ends loading xs s h = rw h.0 (loading-EndsIn s)
    told_ends (testing a) xs s h = rw h.0 (testing-EndsIn 1 a s)
    told_ends (waiting a) xs s h = rw h.0 (waiting-EndsIn 2 a s)
    told_ends (marking a) xs s h = marking-EndsIn 3 a m xs s stopped' (may_answer-Fits xs h.0)
    told_ends (storing a) xs s h =
        selecting-EndsIn 4 w a (store_task id a m) xs (suc s) stopped' (may_answer-Fits xs h.0) refl
    told_ends (selecting a) xs s h =
        selecting-EndsIn 5 w a m xs s stopped' (may_answer-Fits xs h.0) refl
    told_ends (recording a r) xs s h = recording-EndsIn 6 a r m xs s (may_answer-Fits xs h.0)
    told_ends (keeping a r) xs s h =
        answering-EndsIn 7 a r (store_task id a m) xs s (may_answer-Fits xs h.0)
    told_ends (answering a r) xs s h = answering-EndsIn 8 a r m xs s (may_answer-Fits xs h.0)
    told_ends (removing a) xs s h = removing-EndsIn 9 a m xs s
    told_ends (cancelling a) xs s h = ended-EndsIn 10 (cancel a m) xs s
    told_ends ended xs s h = ended-EndsIn 11 m xs s

pub run_steps-Reaches :
    {id : Text} {start : Manager} (n : ℕ) (w : Ready) (room : ℕ) (m : Manager) (c : RunCall)
    → Reaches id start m c
    → Reaches id start (run_steps n w room id m c).0 (run_steps n w room id m c).1
unfolding run_steps
run_steps-Reaches zero w room m c q = q
run_steps-Reaches {id = id} (suc n) w room m c q =
    elim (Option-cases (step w room id c.phase m c)) [
      | inl h ↦ rw (h, run_steps) q
      | inr ((m', c'), h) ↦ rw (h, run_steps) (run_steps-Reaches n w room m' c' (own w room q h))
    ]

-- Once the context of the manager is done, a call of Run whose channel takes two sends, from any
-- point that it has reached, ends within eleven of its steps if no other goroutine acts in between, and
-- it has then sent one answer and started the function at most once; or it has sent two, the first
-- the error of a context, and started the function once.
pub stopped-answered :
    {id : Text} {start : Manager} (w : Ready) (room : ℕ) (m : Manager) (c : RunCall)
    → Reaches id start m c
    → m.stopped ≡ true
    → 2 ≤ room
    → ((run_steps 11 w room id m c).1.phase ≡ ended)
      × (has_answered (run_steps 11 w room id m c).1.sent (run_steps 11 w room id m c).1.starts
          ≡ true)
stopped-answered {id = id} w room m c q h enough =
    (ends, reaches-answered (run_steps-Reaches 11 w room m c q) ends)
  where
    ends : (run_steps 11 w room id m c).1.phase ≡ ended
    ends =
        told_ends w room id m h (lt→ltb 0 room (omega arith)) (lt→ltb 1 room (omega arith)) c.phase
          c.sent c.starts (reaches-Told q)
