-- ===== src/ThreadPool/Drained.antt =====
-- src/base/ThreadPool.cc: every task is taken once, in order, and a stopped pool drains its queue.
use a_tiny_network_library.Common.{
  ℕ, ◌+◌, ◌≡◌, refl, ap, sym, ◌∙◌, false, List, [], ◌∷◌, ◌++◌, length, arith, append_assoc,
  append-nil, length-append, ◌<◌,
}
use a_tiny_network_library.ThreadPool.{
  Task, ThreadPool, start, stop, add, take_task, finish_task, fail_task, exit_worker, Step, adds,
  stops, takes, finishes, fails, exits, Steps, here, next,
}

-- Every task that was added, in the order of the queue.
abbrev pub all_tasks : ThreadPool → List Task
all_tasks p = p.taken ++ p.queue

abbrev pub workers : ThreadPool → ℕ
workers p = p.waiting + length p.busy + p.exited + p.failed

Step-tasks : {p q : ThreadPool} {fs : List Task} → Step p fs q → all_tasks q ≡ all_tasks p ++ fs
unfolding add stop take_task finish_task fail_task exit_worker
Step-tasks {p} (adds f) = sym (append_assoc p.taken p.queue (f ∷ []))
Step-tasks {p} stops = sym (append-nil _)
Step-tasks {p} (takes n f fs e h) =
    append_assoc p.taken (f ∷ []) fs ∙ ap (◌++◌ p.taken) (sym h) ∙ sym (append-nil _)
Step-tasks {p} (finishes bs f cs e) = sym (append-nil _)
Step-tasks {p} (fails bs f cs e) = sym (append-nil _)
Step-tasks {p} (exits n e h k) = sym (append-nil _)

Step-workers : {p q : ThreadPool} {fs : List Task} → Step p fs q → workers q ≡ workers p
unfolding add stop take_task finish_task fail_task exit_worker
Step-workers {p} (adds f) = refl
Step-workers {p} stops = refl
Step-workers {p} (takes n f fs e h) = omega (arith, e)
Step-workers {p} (finishes bs f cs e) =
    omega (arith, ap length e, length-append bs (f ∷ cs), length-append bs cs)
Step-workers {p} (fails bs f cs e) =
    omega (arith, ap length e, length-append bs (f ∷ cs), length-append bs cs)
Step-workers {p} (exits n e h k) = omega (arith, e)

Steps-tasks :
    {p : ThreadPool} {fs : List Task} {q : ThreadPool}
    → Steps p fs q
    → all_tasks q ≡ all_tasks p ++ fs
Steps-tasks here = sym (append-nil _)
Steps-tasks {p} (next {fs} {gs} r s) =
    Step-tasks s ∙ ap (λ hs. hs ++ gs) (Steps-tasks r) ∙ append_assoc (all_tasks p) fs gs

Steps-workers :
    {p : ThreadPool} {fs : List Task} {q : ThreadPool} → Steps p fs q → workers q ≡ workers p
Steps-workers here = refl
Steps-workers (next r s) = Step-workers s ∙ Steps-workers r

-- Since a pool was started with some threads, whatever these and the callers do: the tasks taken and
-- those that wait are together the tasks added, in the order they were added, and every thread still
-- waits, runs a task, has returned or was ended by an exception.
pub queue-fifo :
    (size : ℕ) {fs : List Task} (p : ThreadPool)
    → Steps (start size) fs p
    → (p.taken ++ p.queue ≡ fs) × (p.waiting + length p.busy + p.exited + p.failed ≡ size)
unfolding start
queue-fifo size p r = (Steps-tasks r, Steps-workers r ∙ omega arith)

-- A worker that returned has seen an empty queue after the stop.
record IsDrained (p : ThreadPool) : Type 0 where
  empty : 0 < p.exited → p.queue ≡ []
  stopped : 0 < p.exited → p.running ≡ false

not_nil : {f : Task} {fs : List Task} → f ∷ fs ≡ [] → ⊥
not_nil e = ground arith

Step-IsDrained :
    {p q : ThreadPool} {gs : List Task} → Step p gs q → gs ≡ [] → IsDrained p → IsDrained q
unfolding add stop take_task finish_task fail_task exit_worker
Step-IsDrained (adds f) e d = absurd (ground arith)
Step-IsDrained stops e d = record { empty = d.empty; stopped = λ h. refl }
Step-IsDrained (takes n f fs w h) e d = record {
  empty = λ k. absurd (not_nil (sym h ∙ d.empty k));
  stopped = d.stopped;
}
Step-IsDrained (finishes bs f cs h) e d = record { empty = d.empty; stopped = d.stopped }
Step-IsDrained (fails bs f cs h) e d = record { empty = d.empty; stopped = d.stopped }
Step-IsDrained (exits n w h k) e d = record { empty = λ l. h; stopped = λ l. k }

nil-left : (fs gs : List Task) → fs ++ gs ≡ [] → fs ≡ []
nil-left [] gs e = refl
nil-left (f ∷ fs) gs e = absurd (not_nil e)

nil-right : (fs gs : List Task) → fs ++ gs ≡ [] → gs ≡ []
nil-right [] gs e = e
nil-right (f ∷ fs) gs e = absurd (not_nil e)

Steps-IsDrained :
    {p : ThreadPool} {fs : List Task} {q : ThreadPool}
    → Steps p fs q
    → fs ≡ []
    → IsDrained p
    → IsDrained q
Steps-IsDrained here e d = d
Steps-IsDrained (next {fs} {gs} r s) e d =
    Step-IsDrained s (nil-right fs gs e) (Steps-IsDrained r (nil-left fs gs e) d)

-- From a pool of which no worker has returned, with no task added from there on: once a worker has
-- returned, the pool was stopped, nothing waits, and every task that waited has been taken, in order.
pub stop-drains :
    (p q : ThreadPool)
    → p.exited ≡ 0
    → Steps p [] q
    → 0 < q.exited
    → (q.running ≡ false) × (q.queue ≡ []) × (q.taken ≡ p.taken ++ p.queue)
stop-drains p q e r h =
    let none_yet : 0 < p.exited → ⊥ = λ k. omega (arith, e, k) in
    let d : IsDrained q =
      Steps-IsDrained r refl
        (record { empty = λ k. absurd (none_yet k); stopped = λ k. absurd (none_yet k) }) in
    let t : q.taken ++ q.queue ≡ p.taken ++ p.queue ++ [] = Steps-tasks r in
    (
      d.stopped h,
      d.empty h,
      sym (append-nil q.taken)
          ∙ ap (◌++◌ q.taken) (sym (d.empty h))
          ∙ t
          ∙ append-nil (p.taken ++ p.queue),
    )
