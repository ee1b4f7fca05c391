-- ===== src/Tests/ThreadPoolTests.antt =====
-- src/base/ThreadPool.cc with one worker.
use a_tiny_network_library.Common.{◌+◌, ◌<◌, ◌≡◌, refl, false, [], ◌∷◌, ◌++◌, length, arith}
use a_tiny_network_library.ThreadPool.{
  ThreadPool, start, stop, add, take_task, finish_task, exit_worker, Steps, here, next, adds, stops,
  takes, finishes, exits,
}
use a_tiny_network_library.ThreadPool.Drained.{queue-fifo, stop-drains}

abbrev filled : ThreadPool
filled = add 5 (add 4 (start 1))

filled-Steps : Steps (start 1) (4 ∷ 5 ∷ []) filled
filled-Steps = next (next here (adds 4)) (adds 5)

queue-fifo_example :
    (filled.taken ++ filled.queue ≡ 4 ∷ 5 ∷ [])
    × (filled.waiting + length filled.busy + filled.exited + filled.failed ≡ 1)
queue-fifo_example = queue-fifo 1 filled filled-Steps

-- The pool is stopped while both tasks wait.
abbrev drained : ThreadPool
drained =
    exit_worker 0
      (finish_task [] (take_task 0 5 [] (finish_task [] (take_task 0 4 (5 ∷ []) (stop filled)))))

drained-Steps : Steps filled [] drained
unfolding start stop add take_task finish_task exit_worker
drained-Steps =
    next
      (next
        (next (next (next (next here stops) (takes 0 4 (5 ∷ []) refl refl)) (finishes [] 4 [] refl))
          (takes 0 5 [] refl refl))
        (finishes [] 5 [] refl))
      (exits 0 refl refl refl)

filled_exited : filled.exited ≡ 0
unfolding start add
filled_exited = refl

drained_exited : 0 < drained.exited
unfolding start stop add take_task finish_task exit_worker
drained_exited = omega arith

stop-drains_example :
    (drained.running ≡ false)
    × (drained.queue ≡ [])
    × (drained.taken ≡ filled.taken ++ filled.queue)
stop-drains_example = stop-drains filled drained filled_exited drained-Steps drained_exited
