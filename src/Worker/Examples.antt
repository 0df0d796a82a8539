-- ===== src/Worker/Examples.antt =====
-- The theorems on worker pools at runs of a pool of two workers.
use magicserver.Prelude.{
  ℕ, ◌+◌, ◌≡◌, refl, none, some, List, [], ◌∷◌, ◌++◌, get_elem?, true, false, ◌≤◌, fault, dangling,
}
use magicserver.Errors.{success}
use magicserver.Worker.{
  Phase, request_shutdown, broadcast_all, join_next, delete_workers, testing, asleep, handling,
  finished, outside, signalling, joining, Pool, new_pool, Action, submit, signal_one, work, run,
  step, submit_step, signal_step, shutdown_step, broadcast_step, join_step, join_worker, work_step,
  pull_step, wake_step, set_phase, rouse, none_asleep,
}
use magicserver.Worker.Account.{count, in_hand}
use magicserver.Worker.Once.{requests_once}
use magicserver.Worker.Left.{early_shutdown, early_shutdown_lem}
use magicserver.Worker.Joined.{delete_workers_first}
use magicserver.Worker.Stuck.{late_wait, lost_broadcast}

-- Worker 0 sleeps, is woken for request 70, and pulls it while request 80 comes.
abbrev busy : List Action
busy = work 0 ∷ work 0 ∷ submit 70 ∷ signal_one (some 0) ∷ work 0 ∷ submit 80 ∷ signal_one none ∷ []

abbrev busy_pool : Pool
busy_pool = record {
  main = outside;
  is_shutdown = false;
  queue = 80 ∷ [];
  workers = handling 70 ∷ testing ∷ [];
  result = success;
  submitted = 70 ∷ 80 ∷ [];
  taken = 70 ∷ [];
  handled = [];
  final = [];
}

busy-run : run busy (new_pool 2) ≡ some busy_pool
unfolding run step new_pool submit_step signal_step work_step pull_step wake_step set_phase
    none_asleep
busy-run = refl

requests_once_example :
    (busy_pool.submitted ≡ busy_pool.taken ++ busy_pool.queue)
    × ((r : ℕ) → count r busy_pool.taken ≡ count r busy_pool.handled + in_hand r busy_pool.workers)
requests_once_example = requests_once 2 busy busy_pool busy-run

-- The other worker ends; the one that sleeps does not.
abbrev later : List Action
later = work 0 ∷ []

abbrev hung_pool : Pool
hung_pool = record {
  main = joining 1 (some 9);
  is_shutdown = true;
  queue = [];
  workers = finished ∷ asleep ∷ [];
  result = success;
  submitted = [];
  taken = [];
  handled = [];
  final = [];
}

hung-run : run (late_wait (some 9) ++ later) (new_pool 2) ≡ some hung_pool
unfolding run step new_pool shutdown_step broadcast_step work_step set_phase rouse
hung-run = refl

lost_broadcast_example :
    (hung_pool.main ≡ joining 1 (some 9)) × (get_elem? hung_pool.workers 1 ≡ some asleep)
lost_broadcast_example = lost_broadcast (some 9) later hung_pool tt hung-run

-- Request 70 comes, shutdown returns, and request 80 comes after it.
abbrev after : List Action
after = submit 80 ∷ []

abbrev shut_pool : Pool
shut_pool = record {
  main = signalling;
  is_shutdown = true;
  queue = 70 ∷ 80 ∷ [];
  workers = finished ∷ finished ∷ [];
  result = success;
  submitted = 70 ∷ 80 ∷ [];
  taken = [];
  handled = [];
  final = 9 ∷ [];
}

shut-run : run (early_shutdown 70 (some 9) ++ after) (new_pool 2) ≡ some shut_pool
unfolding run step new_pool submit_step signal_step none_asleep shutdown_step broadcast_step rouse
    work_step set_phase join_step join_worker
shut-run = refl

early_shutdown_lem_example :
    (shut_pool.workers ≡ finished ∷ finished ∷ [])
    × (shut_pool.taken ≡ [])
    × (shut_pool.handled ≡ [])
early_shutdown_lem_example = early_shutdown_lem 70 (some 9) after shut_pool shut-run

-- Shutdown has returned while the first worker is still in the handler.
abbrev early_return : List Action
early_return =
    work 0
    ∷ work 0
    ∷ submit 70
    ∷ signal_one (some 0)
    ∷ work 0
    ∷ request_shutdown (some 9)
    ∷ broadcast_all
    ∷ work 1
    ∷ join_next
    ∷ join_next
    ∷ []

abbrev left_pool : Pool
left_pool = record {
  main = outside;
  is_shutdown = true;
  queue = [];
  workers = handling 70 ∷ finished ∷ [];
  result = success;
  submitted = 70 ∷ [];
  taken = 70 ∷ [];
  handled = [];
  final = 9 ∷ [];
}

left-run : run early_return (new_pool 2) ≡ some left_pool
unfolding run step new_pool submit_step signal_step wake_step shutdown_step broadcast_step rouse
    work_step pull_step set_phase join_step join_worker
left-run = refl

delete_workers_first_example :
    ((j : ℕ) (w : Phase) → 1 ≤ j → get_elem? left_pool.workers j ≡ some w → w ≡ finished)
    × (delete_workers left_pool.workers ≡ fault dangling)
unfolding delete_workers
delete_workers_first_example = delete_workers_first 2 early_return left_pool left-run refl refl
