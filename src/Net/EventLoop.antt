-- ===== src/Net/EventLoop.antt =====
-- src/net/EventLoop.h and src/net/EventLoop.cc: the queue of functors, the wakeups and the phases of
-- the loop. A functor is a number; what it does is its owner's. Calls from other threads are steps
-- between those of the loop's thread.
pub mod Wakeup
use a_tiny_network_library.Common.{
  ℕ, suc, ◌+◌, ◌≡◌, ◌<◌, Bool, true, false, not, ◌&&◌, ◌||◌, List, [], ◌∷◌, ◌++◌, if◌then◌else◌,
}

abbrev pub Functor : Type 0
Functor = ℕ

-- The phases of one turn of `loop()`: waiting in `poll`, handling the active channels, and running
-- the functors that `doPendingFunctors` swapped out.
pub data Phase : Type 0 where
  polling handling : Phase
  calling : List Functor → Phase
  stopped : Phase

-- `wakeups` is the counter of the eventfd; `called` lists the functors that ran from the queue and
-- `ran_at_once` those that `runInLoop` ran itself. `unwoken` counts the other threads that stand
-- between the locked region of `queueInLoop` and its `wakeup()`.
pub record EventLoop : Type 0 where
  pub phase : Phase
  pub looping : Bool
  pub quit_flag : Bool
  pub calling_pending_functors : Bool
  pub pending_functors : List Functor
  pub wakeups : ℕ
  pub unwoken : ℕ
  pub called : List Functor
  pub ran_at_once : List Functor

unfoldable pub init : EventLoop
init = record {
  phase = stopped;
  looping = false;
  quit_flag = false;
  calling_pending_functors = false;
  pending_functors = [];
  wakeups = 0;
  unwoken = 0;
  called = [];
  ran_at_once = [];
}

-- A write of 1 to the eventfd, and the read that takes the counter back to 0.
unfoldable pub wakeup : EventLoop → EventLoop
wakeup l = record l { wakeups = suc l.wakeups }

unfoldable pub handle_read : EventLoop → EventLoop
handle_read l = record l { wakeups = 0 }

-- The locked region of `queueInLoop`.
unfoldable pub enqueue : Functor → EventLoop → EventLoop
enqueue f l = record l { pending_functors = l.pending_functors ++ (f ∷ []) }

-- `in_loop`: the caller is the loop's own thread.
unfoldable pub needs_wakeup : (in_loop : Bool) → EventLoop → Bool
needs_wakeup in_loop l = not in_loop || l.calling_pending_functors

unfoldable pub queue_in_loop : (in_loop : Bool) → Functor → EventLoop → EventLoop
queue_in_loop in_loop f l =
    let queued = enqueue f l in if needs_wakeup in_loop queued then wakeup queued else queued

unfoldable pub run_in_loop : (in_loop : Bool) → Functor → EventLoop → EventLoop
run_in_loop in_loop f l =
    if in_loop
    then record l { ran_at_once = l.ran_at_once ++ (f ∷ []) }
    else queue_in_loop in_loop f l

unfoldable pub quit : (in_loop : Bool) → EventLoop → EventLoop
quit in_loop l =
    let stopping = record l { quit_flag = true } in if in_loop then wakeup stopping else stopping

unfoldable pub start_loop : EventLoop → EventLoop
start_loop l = record l { phase = polling; looping = true; quit_flag = false }

unfoldable pub poll_returns : EventLoop → EventLoop
poll_returns l = record l { phase = handling }

-- `doPendingFunctors` swaps the queue out, runs what it held, and clears the flag.
unfoldable pub begin_calling : EventLoop → EventLoop
begin_calling l = record l {
  phase = calling l.pending_functors;
  calling_pending_functors = true;
  pending_functors = [];
}

unfoldable pub call_next : Functor → List Functor → EventLoop → EventLoop
call_next f fs l = record l { phase = calling fs; called = l.called ++ (f ∷ []) }

-- The end of a turn: the test of `while (!quit_)`.
unfoldable pub end_calling : EventLoop → EventLoop
end_calling l =
    if l.quit_flag
    then record l { phase = stopped; calling_pending_functors = false; looping = false }
    else record l { phase = polling; calling_pending_functors = false }

-- The locked region of `queueInLoop` in another thread, and its `wakeup()` later.
unfoldable pub other_enqueues : Functor → EventLoop → EventLoop
other_enqueues f l = let queued = enqueue f l in record queued { unwoken = suc queued.unwoken }

unfoldable pub other_wakes : ℕ → EventLoop → EventLoop
other_wakes left l = wakeup (record l { unwoken = left })

-- The phases in which the loop's thread runs code of its users: before and after `loop()`, and in it.
pub data IsBusy : Phase → Type 0 where
  outside : IsBusy stopped
  in_handler : IsBusy handling
  in_functor : {fs : List Functor} → IsBusy (calling fs)

-- One step of the loop's thread, or of another thread between two of them, with the functors it puts
-- into the queue. `poll` may return for a wakeup, an event or its timeout, and the wakeup channel is
-- handled before or after the others.
pub data Step (l : EventLoop) : List Functor → EventLoop → Type 0 where
  starts : l.phase ≡ stopped → Step l [] (start_loop l)
  polled : l.phase ≡ polling → Step l [] (poll_returns l)
  reads_wakeups : l.phase ≡ handling → Step l [] (handle_read l)
  queues : (f : Functor) → IsBusy l.phase → Step l (f ∷ []) (queue_in_loop true f l)
  runs : (f : Functor) → IsBusy l.phase → Step l [] (run_in_loop true f l)
  quits : IsBusy l.phase → Step l [] (quit true l)
  handled : l.phase ≡ handling → Step l [] (begin_calling l)
  calls :
      (f : Functor) (fs : List Functor) → l.phase ≡ calling (f ∷ fs) → Step l [] (call_next f fs l)
  turn_ends : l.phase ≡ calling [] → Step l [] (end_calling l)
  other_queues : (f : Functor) → Step l (f ∷ []) (other_enqueues f l)
  other_is_done : (left : ℕ) → l.unwoken ≡ suc left → Step l [] (other_wakes left l)
  other_quits : Step l [] (quit false l)

pub data Steps (l : EventLoop) : List Functor → EventLoop → Type 0 where
  here : Steps l [] l
  next :
      {fs gs : List Functor} {m n : EventLoop} → Steps l fs m → Step m gs n → Steps l (fs ++ gs) n
