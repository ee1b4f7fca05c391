-- ===== src/ThreadPool.antt =====
-- src/base/ThreadPool.h and src/base/ThreadPool.cc: the queue of tasks and the workers. A task is a
-- number; workers are counted, since they are alike.
pub mod Drained
use a_tiny_network_library.Common.{ℕ, suc, ◌+◌, ◌≡◌, Bool, true, false, List, [], ◌∷◌, ◌++◌}

abbrev pub Task : Type 0
Task = ℕ

-- `waiting` workers stand in the loop on the condition, each of `busy` runs a task, `exited` ones
-- returned and `failed` ones were ended by an exception. `taken` lists the tasks that were run.
pub record ThreadPool : Type 0 where
  pub running : Bool
  pub queue : List Task
  pub waiting : ℕ
  pub busy : List Task
  pub exited : ℕ
  pub failed : ℕ
  pub taken : List Task

-- A pool that was started with this many threads.
unfoldable pub start : ℕ → ThreadPool
start thread_size = record {
  running = true;
  queue = [];
  waiting = thread_size;
  busy = [];
  exited = 0;
  failed = 0;
  taken = [];
}

unfoldable pub stop : ThreadPool → ThreadPool
stop p = record p { running = false }

unfoldable pub add : Task → ThreadPool → ThreadPool
add f p = record p { queue = p.queue ++ (f ∷ []) }

-- `runInThread`: a waiting worker takes the first task.
unfoldable pub take_task : ℕ → Task → List Task → ThreadPool → ThreadPool
take_task waiting f fs p = record p {
  queue = fs;
  waiting = waiting;
  busy = f ∷ p.busy;
  taken = p.taken ++ (f ∷ []);
}

unfoldable pub finish_task : List Task → ThreadPool → ThreadPool
finish_task others p = record p { busy = others; waiting = suc p.waiting }

-- An exception leaves the loop for the `catch` around it.
unfoldable pub fail_task : List Task → ThreadPool → ThreadPool
fail_task others p = record p { busy = others; failed = suc p.failed }

unfoldable pub exit_worker : ℕ → ThreadPool → ThreadPool
exit_worker waiting p = record p { waiting = waiting; exited = suc p.exited }

-- One step of some thread under the lock, or the end of a task, with the tasks it adds.
pub data Step (p : ThreadPool) : List Task → ThreadPool → Type 0 where
  adds : (f : Task) → Step p (f ∷ []) (add f p)
  stops : Step p [] (stop p)
  takes :
      (n : ℕ) (f : Task) (fs : List Task)
      → p.waiting ≡ suc n
      → p.queue ≡ f ∷ fs
      → Step p [] (take_task n f fs p)
  finishes :
      (bs : List Task) (f : Task) (cs : List Task)
      → p.busy ≡ bs ++ (f ∷ cs)
      → Step p [] (finish_task (bs ++ cs) p)
  fails :
      (bs : List Task) (f : Task) (cs : List Task)
      → p.busy ≡ bs ++ (f ∷ cs)
      → Step p [] (fail_task (bs ++ cs) p)
  exits :
      (n : ℕ) → p.waiting ≡ suc n → p.queue ≡ [] → p.running ≡ false → Step p [] (exit_worker n p)

pub data Steps (p : ThreadPool) : List Task → ThreadPool → Type 0 where
  here : Steps p [] p
  next : {fs gs : List Task} {q r : ThreadPool} → Steps p fs q → Step q gs r → Steps p (fs ++ gs) r
