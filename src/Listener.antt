-- ===== src/Listener.antt =====
-- libmsrv/src/msrvlistener.cc and libmsrv/include/magicserver/msrvlistener.h: the state of a Listener
-- and its operations on descriptors. What it writes to its log is kept as a list of events.
pub mod Removal
pub mod Listen
pub mod Examples
use magicserver.Prelude.{
  ℕ, zero, suc, ◌+◌, ◌-◌, Bool, true, false, Option, none, some, List, [], ◌∷◌, ◌++◌, ℤ, pos,
  pos_part, ltb_ℤ, ◌==ℤ◌, ◌||◌, if◌then◌else◌, Outcome, ok, out_of_fuel, ◌>>=◌,
}
use magicserver.Errors.{MsrvResult, success, descriptor_not_found}
use magicserver.Lock.{ThreadLock, new_lock, lock, unlock}
use magicserver.Memory.{Ptr, null, Memory}
use magicserver.Container.Array.{Array, empty, array_length, at_index, add, remove}
use magicserver.Log.Writing.{Event}

-- struct Descriptor: `object` is its member mpData.
pub record Descriptor : Type 0 where
  pub fd : ℤ
  pub object : Ptr

pub record Listener : Type 0 where
  pub timeout_sec : ℤ
  pub timeout_usec : ℤ
  pub shutdown_status : Bool
  pub thread_lock : ThreadLock
  pub descriptors : Array
  pub storage : Memory Descriptor
  pub messages : List Event

-- Listener::Listener. The log is a parameter of whoever reads the messages.
unfoldable pub new_listener : Memory Descriptor → Listener
new_listener m = record {
  timeout_sec = pos 1;
  timeout_usec = pos 0;
  shutdown_status = false;
  thread_lock = new_lock;
  descriptors = empty;
  storage = m;
  messages = [];
}

-- void Listener::startShutdown ()
unfoldable pub start_shutdown : Listener → Listener
start_shutdown l = record l { shutdown_status = true }

-- bool Listener::isShutdown () const
abbrev pub is_shutdown : Listener → Bool
is_shutdown l = l.shutdown_status

-- void Listener::setTimeout (long seconds, long microseconds)
pub set_timeout : ℤ → ℤ → Listener → Listener
set_timeout seconds microseconds l = record l { timeout_sec = seconds; timeout_usec = microseconds }

-- mrpLog->message (...)
abbrev pub log_event : Event → Listener → Listener
log_event e l = record l { messages = l.messages ++ e ∷ [] }

-- The loop of removeDescriptor from position `i` on: was the descriptor found, and the array.
pub remove_loop : ℕ → ℕ → ℤ → Array → Memory Descriptor → Outcome (Bool × Array × Memory Descriptor)
remove_loop zero i fd a m = out_of_fuel
remove_loop (suc f) i fd a m = elim (ltb_ℤ (pos i) (array_length a)) [
  | false ↦ ok (false, a, m)
  | true ↦ do
    d ← at_index a (pos i) m
    elim (d.fd ==ℤ fd) [
      | true ↦ do (_, a', m') ← remove (pos i) a m; ok (true, a', m')
      | false ↦ remove_loop f (suc i) fd a m
    ]
]

-- A round for each descriptor, and one to see that there are no more.
abbrev pub rounds : Array → ℕ
rounds a = suc (pos_part (array_length a))

-- MSrvResult Listener::removeDescriptor (int fd)
pub remove_descriptor : ℤ → Listener → Outcome (MsrvResult × Listener)
unfolding lock unlock
remove_descriptor fd l = do
  let locked = lock l.thread_lock
  (found, a, m) ← remove_loop (rounds l.descriptors) 0 fd l.descriptors l.storage
  ok (
    if found then success else descriptor_not_found,
    record l { thread_lock = unlock locked; descriptors = a; storage = m },
  )
