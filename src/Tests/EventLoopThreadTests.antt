-- ===== src/Tests/EventLoopThreadTests.antt =====
-- src/net/EventLoopThread.cc: `startLoop` waits, and the new thread publishes its loop.
use a_tiny_network_library.Common.{refl, true}
use a_tiny_network_library.Net.EventLoopThread.{
  EventLoopThread, start, call_back, publish, test, after_test, calls_back, publishes, makes_test,
  Reach, starts, next,
}
use a_tiny_network_library.Net.EventLoopThread.Handshake.{Stands, start_loop-Stands}

abbrev published : EventLoopThread
published = publish 7 (call_back true 7 (test start))

waits_for_it : Reach true 7 published
unfolding start test after_test call_back
waits_for_it = next (next (next starts (makes_test refl)) (calls_back refl)) (publishes refl)

start_loop-Stands_example : Stands true 7 published
start_loop-Stands_example = start_loop-Stands true 7 waits_for_it
