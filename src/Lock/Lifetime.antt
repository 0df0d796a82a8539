-- ===== src/Lock/Lifetime.antt =====
-- libmsrv/src/msrvthread.cc: the objects of the threads library that a ThreadLock and a Thread make
-- and destroy, as the calls of that library from the constructor to the destructor, each against what
-- POSIX asks of it.
use magicserver.Prelude.{
  ℕ, ◌+◌, ◌-◌, ◌≡◌, refl, Bool, true, false, inl, inr, Bool-cases, arith, Option, none, some, List,
  [], ◌∷◌, ◌++◌, map, ℤ, pos, negsuc, ◌==◌, if◌then◌else◌,
}
use magicserver.Lock.{ThreadLock, new_lock, lock, unlock, init_cond}

-- The calls of the threads library, pthread_ left out.
pub data PthreadCall : Type 0 where
  mutexattr_init mutexattr_settype mutex_init mutex_lock mutex_unlock : PthreadCall
  condattr_init cond_init cond_wait cond_timedwait cond_signal cond_broadcast cond_destroy :
      PthreadCall
  attr_init attr_destroy create joining : PthreadCall

-- What the owner of a ThreadLock does with it; a wait has its time span.
pub data LockUse : Type 0 where
  locks unlocks signals broadcasts : LockUse
  waits : ℤ → LockUse

-- ThreadLock::initCond (). pthread_cond_init gets attributes, a local variable, which no call of
-- pthread_condattr_init has initialised.
pub init_cond_calls : ThreadLock → List PthreadCall
init_cond_calls l = if l.cond_inited then [] else cond_init ∷ []

pub wait_call : ℤ → PthreadCall
wait_call (pos span) = if span == 0 then cond_wait else cond_timedwait
wait_call (negsuc n) = cond_wait

-- The calls in one method of a ThreadLock, and the lock behind it.
pub use_lock : LockUse → ThreadLock → List PthreadCall × ThreadLock
unfolding init_cond_calls wait_call lock unlock init_cond
use_lock locks l = (mutex_lock ∷ [], lock l)
use_lock unlocks l = (mutex_unlock ∷ [], unlock l)
use_lock signals l =
    (mutex_lock ∷ init_cond_calls l ++ mutex_unlock ∷ cond_signal ∷ [], unlock (init_cond (lock l)))
use_lock broadcasts l = (
  mutex_lock ∷ init_cond_calls l ++ mutex_unlock ∷ cond_broadcast ∷ [],
  unlock (init_cond (lock l)),
)
use_lock (waits span) l = (
  mutex_lock ∷ init_cond_calls l ++ wait_call span ∷ mutex_unlock ∷ [],
  unlock (init_cond (lock l)),
)

-- ThreadLock::ThreadLock ()
abbrev pub new_lock_calls : List PthreadCall
new_lock_calls = mutexattr_init ∷ mutexattr_settype ∷ mutex_init ∷ []

-- ThreadLock::~ThreadLock ()
pub destroy_lock_calls : ThreadLock → List PthreadCall
destroy_lock_calls l = if l.cond_inited then cond_destroy ∷ [] else []

pub use_all : List LockUse → ThreadLock → List PthreadCall × ThreadLock
unfolding use_lock
use_all [] l = ([], l)
use_all (u ∷ us) l = let (cs, l₁) = use_lock u l in let (ds, l₂) = use_all us l₁ in (cs ++ ds, l₂)

-- From the constructor to the destructor.
pub lock_lifetime : List LockUse → List PthreadCall
unfolding use_all destroy_lock_calls
lock_lifetime us =
    let (cs, l) = use_all us new_lock in new_lock_calls ++ (cs ++ destroy_lock_calls l)

-- The objects that are initialised, and how often the mutex is locked.
pub record Objects : Type 0 where
  pub attributes : Bool
  pub mutex : Bool
  pub depth : ℕ
  pub cond_attributes : Bool
  pub cond : Bool

abbrev pub no_objects : Objects
no_objects = record {
  attributes = false;
  mutex = false;
  depth = 0;
  cond_attributes = false;
  cond = false;
}

-- The same, had the attributes of the condition variable been initialised.
abbrev pub attributes_only : Objects
attributes_only = record no_objects { cond_attributes = true }

-- What POSIX asks: to initialise what is not initialised, from attributes that are, to use and to
-- destroy what is, and to hold the mutex at a wait. An unlock of a mutex that the thread does not hold
-- is an error that is returned.
pub allowed : PthreadCall → Objects → Option Objects
allowed mutexattr_init o = if o.attributes then none else some (record o { attributes = true })
allowed mutexattr_settype o = if o.attributes then some o else none
allowed mutex_init o =
    if o.mutex then none else if o.attributes then some (record o { mutex = true }) else none
allowed mutex_lock o = if o.mutex then some (record o { depth = o.depth + 1 }) else none
allowed mutex_unlock o = if o.mutex then some (record o { depth = o.depth - 1 }) else none
allowed condattr_init o =
    if o.cond_attributes then none else some (record o { cond_attributes = true })
allowed cond_init o =
    if o.cond then none else if o.cond_attributes then some (record o { cond = true }) else none
allowed cond_wait o = if o.cond then (if o.depth == 0 then none else some o) else none
allowed cond_timedwait o = if o.cond then (if o.depth == 0 then none else some o) else none
allowed cond_signal o = if o.cond then some o else none
allowed cond_broadcast o = if o.cond then some o else none
allowed cond_destroy o = if o.cond then some (record o { cond = false }) else none
allowed attr_init o = if o.attributes then none else some (record o { attributes = true })
allowed attr_destroy o = if o.attributes then some (record o { attributes = false }) else none
allowed create o = if o.attributes then some o else none
allowed joining o = some o

abbrev pub if_allowed : Option Objects → (Objects → Option Objects) → Option Objects
if_allowed none f = none
if_allowed (some o) f = f o

pub allowed_all : List PthreadCall → Objects → Option Objects
unfolding allowed
allowed_all [] o = some o
allowed_all (c ∷ cs) o = if_allowed (allowed c o) (allowed_all cs)

allowed_all-append :
    (cs ds : List PthreadCall) (o : Objects)
    → allowed_all (cs ++ ds) o ≡ if_allowed (allowed_all cs o) (allowed_all ds)
unfolding allowed_all
allowed_all-append [] ds o = refl
allowed_all-append (c ∷ cs) ds o =
    elim (allowed c o)
      as (λ r.
        if_allowed r (allowed_all (cs ++ ds))
        ≡ if_allowed (if_allowed r (allowed_all cs)) (allowed_all ds)) [
          | none ↦ refl
          | some o₁ ↦ allowed_all-append cs ds o₁
        ]

-- What a lock has initialised, where the attributes of its condition variable are so or not.
abbrev pub objects : Bool → ThreadLock → Objects
objects a l = record {
  attributes = true;
  mutex = true;
  depth = l.held;
  cond_attributes = a;
  cond = l.cond_inited;
}

-- Whether the condition variable is used.
unfoldable pub needs_cond : List LockUse → Bool
needs_cond [] = false
needs_cond (locks ∷ us) = needs_cond us
needs_cond (unlocks ∷ us) = needs_cond us
needs_cond (signals ∷ us) = true
needs_cond (broadcasts ∷ us) = true
needs_cond (waits span ∷ us) = true

use_lock-allowed :
    (u : LockUse) (l : ThreadLock)
    → allowed_all (use_lock u l).0 (objects true l) ≡ some (objects true (use_lock u l).1)
unfolding use_lock allowed_all lock unlock init_cond init_cond_calls wait_call
use_lock-allowed locks l = refl
use_lock-allowed unlocks l = refl
use_lock-allowed signals l = ground arith
use_lock-allowed broadcasts l = ground arith
use_lock-allowed (waits span) l = ground arith

use_all-allowed :
    (us : List LockUse) (l : ThreadLock)
    → allowed_all (use_all us l).0 (objects true l) ≡ some (objects true (use_all us l).1)
unfolding use_all allowed_all
use_all-allowed [] l = refl
use_all-allowed (u ∷ us) l =
    rw
      (
        allowed_all-append (use_lock u l).0 (use_all us (use_lock u l).1).0 (objects true l),
        use_lock-allowed u l,
      )
      (use_all-allowed us (use_lock u l).1)

-- Without the attributes, up to the first use of the condition variable.
use_all-refused :
    (us : List LockUse) (l : ThreadLock)
    → l.cond_inited ≡ false
    → allowed_all (use_all us l).0 (objects false l)
      ≡ (if needs_cond us then none else some (objects false (use_all us l).1))
unfolding use_all allowed_all use_lock needs_cond lock unlock init_cond init_cond_calls
use_all-refused [] l e = refl
use_all-refused (locks ∷ us) l e = use_all-refused us (lock l) e
use_all-refused (unlocks ∷ us) l e = use_all-refused us (unlock l) e
use_all-refused (signals ∷ us) l e = rw e refl
use_all-refused (broadcasts ∷ us) l e = rw e refl
use_all-refused (waits span ∷ us) l e = rw e refl

destroy-allowed :
    (a : Bool) (l : ThreadLock)
    → allowed_all (destroy_lock_calls l) (objects a l)
      ≡ some (record (objects a l) { cond = false })
unfolding allowed_all destroy_lock_calls
destroy-allowed a l = ground arith

-- At the end: the mutex and its attributes are there, the condition variable is not.
abbrev pub leaked : Bool → List LockUse → Objects
leaked a us = record (objects a (use_all us new_lock).1) { cond = false }

-- The calls of the threads library from the constructor of a ThreadLock to its destructor, whatever is
-- done with it between them. Had the attributes that initCond passes been initialised, every call
-- would be one that POSIX allows there: the condition variable is initialised before it is used, and
-- not twice; the mutex is held at every wait; and at the end the condition variable is destroyed if
-- it was initialised, and the mutex and its attributes are still there. Since nothing initialises
-- them, the calls are allowed only if no method that uses the condition variable is called.
pub lock_lifetime_lem :
    (us : List LockUse)
    → (allowed_all (lock_lifetime us) attributes_only ≡ some (leaked true us))
      × (allowed_all (lock_lifetime us) no_objects
          ≡ (if needs_cond us then none else some (leaked false us)))
unfolding lock_lifetime allowed_all
lock_lifetime_lem us =
    let end = use_all us new_lock in
    (
      rw
          (
            allowed_all-append end.0 (destroy_lock_calls end.1) (objects true new_lock),
            use_all-allowed us new_lock,
          )
          (destroy-allowed true end.1),
      rw
          (
            allowed_all-append end.0 (destroy_lock_calls end.1) (objects false new_lock),
            use_all-refused us new_lock refl,
          )
          (elim (Bool-cases (needs_cond us)) [
            | inl e ↦ rw e refl
            | inr e ↦ rw e (destroy-allowed false end.1)
          ]),
    )

-- What the owner of a Thread does with it.
pub data ThreadUse : Type 0 where
  starts joins : ThreadUse

-- start () and join ()
pub use_thread : ThreadUse → PthreadCall
use_thread starts = create
use_thread joins = joining

-- From Thread::Thread () to Thread::~Thread (), which does not join.
pub thread_lifetime : List ThreadUse → List PthreadCall
unfolding use_thread
thread_lifetime us = attr_init ∷ map use_thread us ++ attr_destroy ∷ []

-- Whatever is done with a Thread between its constructor and its destructor, its attributes are
-- initialised when they are used, and destroyed at the end.
pub thread_lifetime_lem :
    (us : List ThreadUse) → allowed_all (thread_lifetime us) no_objects ≡ some no_objects
unfolding thread_lifetime allowed_all use_thread
thread_lifetime_lem us = uses us
  where
    uses :
        (vs : List ThreadUse)
        → allowed_all
            (map use_thread vs ++ attr_destroy ∷ [])
            (record no_objects { attributes = true })
          ≡ some no_objects
    uses [] = refl
    uses (starts ∷ vs) = uses vs
    uses (joins ∷ vs) = uses vs
