-- ===== src/Listener/Examples.antt =====
-- The theorems on descriptors at a listener of the descriptors 3 and 7.
use magicserver.Prelude.{
  ◌≡◌, refl, arith, inr, false, ◌==ℤ◌, none, some, [], ◌∷◌, pos, ◌==◌, if◌then◌else◌, Returns,
}
use magicserver.Errors.{success}
use magicserver.Lock.{new_lock}
use magicserver.Memory.{null, Memory}
use magicserver.Container.Array.{Array}
use magicserver.Container.Array.Contents.{full}
use magicserver.Listener.{Descriptor, Listener, remove_descriptor}
use magicserver.Listener.Removal.{Watches, remove_descriptor-Watches}

abbrev pub three : Descriptor
three = record { fd = pos 3; object = null }

abbrev pub seven : Descriptor
seven = record { fd = pos 7; object = 1 }

abbrev pub storage : Memory Descriptor
storage = record {
  last = 1;
  block = λ p. if p == 1 then some (full (three ∷ seven ∷ [])) else none;
}

abbrev pub array : Array
array = record { items = 1; item_count = pos 2; thread_lock = new_lock }

abbrev pub listener : Listener
listener = record {
  timeout_sec = pos 1;
  timeout_usec = pos 0;
  shutdown_status = false;
  thread_lock = new_lock;
  descriptors = array;
  storage = storage;
  messages = [];
}

pub listener-Watches : Watches listener (three ∷ seven ∷ [])
listener-Watches = record {
  sane = λ p h. ground arith;
  held = record { count = refl; stored = record { ne_null = omega arith; stored = refl } };
}

-- With a third descriptor, 9.
abbrev pub nine : Descriptor
nine = record { fd = pos 9; object = 2 }

abbrev pub three_listener : Listener
three_listener = record listener {
  descriptors = record array { item_count = pos 3 };
  storage = record {
    last = 1;
    block = λ p. if p == 1 then some (full (three ∷ seven ∷ nine ∷ [])) else none;
  };
}

pub three_listener-Watches : Watches three_listener (three ∷ seven ∷ nine ∷ [])
three_listener-Watches = record {
  sane = λ p h. ground arith;
  held = record { count = refl; stored = record { ne_null = omega arith; stored = refl } };
}

remove_descriptor-Watches_example :
    Returns
      (λ (r, l').
        (r ≡ success)
        × Watches l' (three ∷ [])
        × (l' ≡ record listener { descriptors = l'.descriptors; storage = l'.storage }))
      (remove_descriptor (pos 7) listener)
unfolding ◌==ℤ◌
remove_descriptor-Watches_example =
    remove_descriptor-Watches (pos 7) (three ∷ []) seven [] listener-Watches (refl, tt) refl
      (inr refl)
