-- ===== src/Worker.antt =====
-- libmsrv/src/msrvworker.cc: a WorkerPool, its Worker threads, and the listener's thread that gives it
-- requests, as steps of one thread at a time. The queue is the list that a queue of Container/Queue
-- stands for; a request is known by a number. A call that holds a lock from beginning to end is one
-- step; so are a signal, a broadcast, and a worker's wait from its lock () to where
-- pthread_cond_wait releases it.
pub mod Account
pub mod Once
pub mod Stuck
pub mod Left
pub mod Progress
pub mod Joined
pub mod Handler
pub mod Examples
use magicserver.Prelude.{
  ℕ, zero, suc, Bool, true, false, ◌&&◌, Option, none, some, List, [], ◌∷◌, ◌++◌, map, get_elem?,
  replicate, length, ltb, if◌then◌else◌, Outcome, ok, fault, dangling,
}
use magicserver.Errors.{MsrvResult, success, repeat_shutdown_request}

-- Where a worker is in Worker::execute: at the test of the shutdown flag, before wait (), asleep in
-- it, at the pull from the queue, in the handler with a request, or at its end.
pub data Phase : Type 0 where
  testing entering asleep pulling : Phase
  handling : ℕ → Phase
  finished : Phase

-- Where the listener's thread is: outside the pool, in process before the signal, or in shutdown,
-- with its final request, before the broadcast or at the join of a worker.
pub data Main : Type 0 where
  outside signalling : Main
  broadcasting : Option ℕ → Main
  joining : ℕ → Option ℕ → Main

-- `result` is what the last call of process or shutdown returned. The lists keep the requests, in
-- order, that were pushed, that were pulled, that the workers' handler was called with and has
-- returned from, and that were given to the handler by the listener's thread.
pub record Pool : Type 0 where
  pub main : Main
  pub is_shutdown : Bool
  pub queue : List ℕ
  pub workers : List Phase
  pub result : MsrvResult
  pub submitted : List ℕ
  pub taken : List ℕ
  pub handled : List ℕ
  pub final : List ℕ

-- WorkerPool::WorkerPool, with `size` workers that have started.
pub new_pool : ℕ → Pool
new_pool size = record {
  main = outside;
  is_shutdown = false;
  queue = [];
  workers = replicate size testing;
  result = success;
  submitted = [];
  taken = [];
  handled = [];
  final = [];
}

-- What may happen next. `signal` names the worker that it wakes, if any is asleep; `wake` is a
-- wakeup that nothing signalled, which POSIX allows.
pub data Action : Type 0 where
  submit : ℕ → Action
  signal_one : Option ℕ → Action
  request_shutdown : Option ℕ → Action
  broadcast_all : Action
  join_next : Action
  work : ℕ → Action
  wake : ℕ → Action

pub set_phase : List Phase → ℕ → Phase → List Phase
set_phase [] i w = []
set_phase (v ∷ ws) zero w = w ∷ ws
set_phase (v ∷ ws) (suc i) w = v ∷ set_phase ws i w

pub rouse : Phase → Phase
rouse asleep = pulling
rouse w = w

pub none_asleep : List Phase → Bool
none_asleep [] = true
none_asleep (asleep ∷ ws) = false
none_asleep (w ∷ ws) = none_asleep ws

-- WorkerPool::process of a request that is no shutdown: the push
pub submit_step : ℕ → Main → Pool → Option Pool
submit_step r outside p =
    some
      (record p { main = signalling; queue = p.queue ++ r ∷ []; submitted = p.submitted ++ r ∷ [] })
submit_step r m p = none

-- A worker that is asleep goes on with its pull.
pub wake_step : ℕ → Option Phase → Pool → Option Pool
unfolding set_phase
wake_step i (some asleep) p = some (record p { workers = set_phase p.workers i pulling })
wake_step i w p = none

-- The signal, and process returns.
pub signal_step : Option ℕ → Main → Pool → Option Pool
unfolding wake_step none_asleep
signal_step none signalling p =
    if none_asleep p.workers then some (record p { main = outside; result = success }) else none
signal_step (some i) signalling p =
    wake_step i (get_elem? p.workers i) (record p { main = outside; result = success })
signal_step i m p = none

-- WorkerPool::shutdown up to the broadcast
pub shutdown_step : Option ℕ → Main → Pool → Option Pool
shutdown_step r outside p =
    if p.is_shutdown
    then some (record p { result = repeat_shutdown_request })
    else some (record p { main = broadcasting r; is_shutdown = true })
shutdown_step r m p = none

-- The broadcast wakes all workers; the first worker to be joined is the one at position 1.
pub broadcast_step : Main → Pool → Option Pool
unfolding rouse
broadcast_step (broadcasting r) p =
    some (record p { main = joining 1 r; workers = map rouse p.workers })
broadcast_step m p = none

abbrev pub final_request : Option ℕ → List ℕ
final_request none = []
final_request (some r) = r ∷ []

-- The join of the worker at position `i`, which waits for its end; or, behind the last worker, the
-- final request is handled here, and shutdown returns.
pub join_worker : ℕ → Option ℕ → Option Phase → Pool → Option Pool
join_worker i r none p =
    some (record p { main = outside; result = success; final = p.final ++ final_request r })
join_worker i r (some finished) p = some (record p { main = joining (suc i) r })
join_worker i r (some w) p = none

pub join_step : Main → Pool → Option Pool
unfolding join_worker
join_step (joining i r) p = join_worker i r (get_elem? p.workers i) p
join_step m p = none

-- The pull: a request, or the end of the inner loop.
pub pull_step : List ℕ → ℕ → Pool → Pool
unfolding set_phase
pull_step [] i p = record p { workers = set_phase p.workers i testing }
pull_step (r ∷ rest) i p = record p {
  queue = rest;
  taken = p.taken ++ r ∷ [];
  workers = set_phase p.workers i (handling r);
}

-- A step of the worker at position `i` in Worker::execute.
pub work_step : ℕ → Option Phase → Pool → Option Pool
unfolding set_phase pull_step
work_step i (some testing) p =
    some
      (record p { workers = set_phase p.workers i (if p.is_shutdown then finished else entering) })
work_step i (some entering) p = some (record p { workers = set_phase p.workers i asleep })
work_step i (some pulling) p = some (pull_step p.queue i p)
work_step i (some (handling r)) p =
    some (record p { handled = p.handled ++ r ∷ []; workers = set_phase p.workers i pulling })
work_step i w p = none

-- One step, if the thread that is to take it can.
pub step : Action → Pool → Option Pool
unfolding submit_step signal_step shutdown_step broadcast_step join_step work_step wake_step
step (submit r) p = submit_step r p.main p
step (signal_one i) p = signal_step i p.main p
step (request_shutdown r) p = shutdown_step r p.main p
step broadcast_all p = broadcast_step p.main p
step join_next p = join_step p.main p
step (work i) p = work_step i (get_elem? p.workers i) p
step (wake i) p = wake_step i (get_elem? p.workers i) p

-- A sequence of steps.
pub run : List Action → Pool → Option Pool
unfolding step
run [] p = some p
run (a ∷ rest) p = elim (step a p) [ none ↦ none | some q ↦ run rest q ]

-- What WorkerPool::~WorkerPool does to its workers, after the shutdown that it makes sure of: it
-- deletes each of them. A thread that has not ended goes on with its deleted Worker.
unfoldable pub delete_workers : List Phase → Outcome (Unit {0})
delete_workers [] = ok tt
delete_workers (finished ∷ ws) = delete_workers ws
delete_workers (w ∷ ws) = fault dangling
