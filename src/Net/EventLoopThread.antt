-- ===== src/Net/EventLoopThread.antt =====
-- src/net/EventLoopThread.h and src/net/EventLoopThread.cc: the two threads between `startLoop` and the
-- end of the loop. A loop is a number.
pub mod Handshake
use a_tiny_network_library.Common.{
  ℕ, ◌≡◌, Bool, List, [], ◌∷◌, ◌++◌, Option, none, some, if◌then◌else◌,
}

-- Where the new thread stands: it makes its loop, it has run the callback, it runs the loop that
-- `loop_` points at, and it has reset `loop_`.
pub data Child : Type 0 where
  making initialised looping ended : Child

-- Where `startLoop` stands: before its test of `loop_` under the lock, in `cond_.wait`, or returned.
pub data Parent : Type 0 where
  tests waits : Parent
  returned : ℕ → Parent

pub record EventLoopThread : Type 0 where
  pub loop : Option ℕ
  pub child : Child
  pub parent : Parent
  pub called : List ℕ

-- `thread_.start()` was called.
unfoldable pub start : EventLoopThread
start = record { loop = none; child = making; parent = tests; called = [] }

-- The callback, if there is one, with the loop of the thread.
unfoldable pub call_back : (has_callback : Bool) (own : ℕ) → EventLoopThread → EventLoopThread
call_back has_callback own t = record t {
  child = initialised;
  called = if has_callback then t.called ++ (own ∷ []) else t.called;
}

-- `notify_one` wakes the parent if it waits; it then tests again.
unfoldable pub notified : Parent → Parent
notified tests = tests
notified waits = tests
notified (returned l) = returned l

unfoldable pub publish : (own : ℕ) → EventLoopThread → EventLoopThread
publish own t = record t { loop = some own; child = looping; parent = notified t.parent }

unfoldable pub end_loop : EventLoopThread → EventLoopThread
end_loop t = record t { loop = none; child = ended }

-- The test of `startLoop`, and what it does next.
unfoldable pub after_test : Option ℕ → Parent
after_test none = waits
after_test (some l) = returned l

unfoldable pub test : EventLoopThread → EventLoopThread
test t = record t { parent = after_test t.loop }

-- One step of either thread; a waiting thread may also wake without being notified.
pub data Step (has_callback : Bool) (own : ℕ) (t : EventLoopThread) : EventLoopThread → Type 0 where
  calls_back : t.child ≡ making → Step has_callback own t (call_back has_callback own t)
  publishes : t.child ≡ initialised → Step has_callback own t (publish own t)
  ends : t.child ≡ looping → Step has_callback own t (end_loop t)
  makes_test : t.parent ≡ tests → Step has_callback own t (test t)
  wakes : t.parent ≡ waits → Step has_callback own t (record t { parent = tests })

pub data Reach (has_callback : Bool) (own : ℕ) : EventLoopThread → Type 0 where
  starts : Reach has_callback own start
  next :
      {t u : EventLoopThread}
      → Reach has_callback own t
      → Step has_callback own t u
      → Reach has_callback own u
