-- ===== src/Listener/Listen/Examples.antt =====
-- The theorems on listening at listeners of the descriptors 3, 7 and others.
use magicserver.Prelude.{
  Bool-cases, inl, replicate, true, ◌++◌, ◌≡◌, refl, arith, inr, false, ◌==ℤ◌, none, some, [], ◌∷◌,
  pos, ◌==◌, if◌then◌else◌, ok, fault, out_of_bounds, ltb_ℤ, ℤ, List, Returns, returns,
}
use magicserver.Errors.{success, shutdown_event}
use magicserver.Memory.{Memory}
use magicserver.Container.Array.Contents.{full}
use magicserver.Listener.{Descriptor, Listener, rounds, start_shutdown}
use magicserver.Listener.Listen.{
  Inheritor, failed, timed_out, beyond_set, watch_loop, after_event, dispatch_loop, listen,
}
use magicserver.Listener.Listen.Watching.{
  InSet, Above, numbers, watch_loop_bounds, watch_loop_overflow,
}
use magicserver.Listener.Listen.Dispatch.{each, dispatch_loop-each, dispatch_loop_skips}
use magicserver.Listener.Listen.Ending.{listen-failed}
use magicserver.Listener.Removal.{Watches}
use magicserver.Listener.Examples.{
  three, seven, nine, storage, array, listener, listener-Watches, three_listener,
  three_listener-Watches,
}

two-InSet : InSet (three ∷ seven ∷ [])
unfolding beyond_set ltb_ℤ
two-InSet = (refl, (refl, tt))

watch_loop_bounds_example :
    Returns
      (λ (maxfd, fds).
        (fds ≡ pos 3 ∷ pos 7 ∷ [])
        × (ltb_ℤ maxfd (pos 0) ≡ false)
        × Above maxfd (three ∷ seven ∷ []))
      (watch_loop (rounds array) 0 (pos 0) [] array storage)
watch_loop_bounds_example = watch_loop_bounds listener-Watches two-InSet

-- Behind 3 and 7, a descriptor that no set has room for.
abbrev high : Descriptor
high = record { fd = pos 1024; object = 2 }

abbrev high_storage : Memory Descriptor
high_storage = record {
  last = 1;
  block = λ p. if p == 1 then some (full (three ∷ seven ∷ high ∷ [])) else none;
}

abbrev high_listener : Listener
high_listener = record listener {
  descriptors = record array { item_count = pos 3 };
  storage = high_storage;
}

high-Watches : Watches high_listener (three ∷ seven ∷ high ∷ [])
high-Watches = record {
  sane = λ p h. ground arith;
  held = record { count = refl; stored = record { ne_null = omega arith; stored = refl } };
}

watch_loop_overflow_example :
    watch_loop
      (rounds high_listener.descriptors)
      0
      (pos 0)
      []
      high_listener.descriptors
      high_storage
    ≡ fault out_of_bounds
unfolding beyond_set ltb_ℤ
watch_loop_overflow_example =
    watch_loop_overflow (three ∷ seven ∷ []) high [] high-Watches two-InSet refl

-- A class that counts the events of each descriptor.
abbrev counting : Inheritor (Listener × List ℤ)
counting = record {
  listener = λ (l, log). l;
  put = λ l (_, log). (l, log);
  descriptor_event = λ fd p (l, log). ok (shutdown_event, (l, log ++ fd ∷ []));
  timeout_event = λ s. ok (success, s);
  on_shutdown = λ s. ok (success, s);
}

dispatch_loop-each_example :
    dispatch_loop counting 3 0 (λ fd. true) (numbers (three ∷ seven ∷ [])) (listener, [])
    ≡ ok (record listener { shutdown_status = true }, pos 3 ∷ pos 7 ∷ [])
unfolding each after_event start_shutdown ◌==ℤ◌
dispatch_loop-each_example =
    dispatch_loop-each counting (three ∷ seven ∷ []) (λ l s. refl) (λ d s w. returns w) 3
      (λ fd. true) (listener, []) listener-Watches two-InSet (omega arith)

-- The listener of 3, 7 and 9 without 7.
abbrev left_listener : Listener
left_listener = record three_listener {
  descriptors = record array { item_count = pos 2 };
  storage = record {
    last = 1;
    block = λ p. if p == 1 then some (full (three ∷ nine ∷ [])) else none;
  };
}

left_listener-Watches : Watches left_listener (three ∷ nine ∷ [])
left_listener-Watches = record {
  sane = λ p h. ground arith;
  held = record { count = refl; stored = record { ne_null = omega arith; stored = refl } };
}

-- A class that keeps a log of the events; that of 7 takes its descriptor out.
abbrev removing : Inheritor (Listener × List ℤ)
removing = record counting {
  descriptor_event =
      λ fd p (l, log). ok (success, (if fd ==ℤ pos 7 then left_listener else l, log ++ fd ∷ []));
}

removing_calm :
    (d : Descriptor) (s : Listener × List ℤ)
    → Watches s.0 (three ∷ nine ∷ [])
    → Returns
        (λ (r, s'). Watches s'.0 (three ∷ nine ∷ []))
        (removing.descriptor_event d.fd d.object s)
removing_calm d s w = elim (Bool-cases (d.fd ==ℤ pos 7)) [
  | inl e ↦ rw e (returns left_listener-Watches)
  | inr e ↦ rw e (returns w)
]

-- 7 and 9 have changed.
dispatch_loop_skips_example :
    dispatch_loop removing 3 1
      (λ fd. true)
      (numbers (three ∷ seven ∷ nine ∷ []))
      (three_listener, [])
    ≡ ok (left_listener, pos 7 ∷ [])
unfolding each after_event beyond_set ltb_ℤ ◌==ℤ◌
dispatch_loop_skips_example =
    dispatch_loop_skips removing (three ∷ nine ∷ []) (λ l s. refl) removing_calm 2 (λ fd. true)
      (three ∷ []) seven nine [] (three_listener, []) success refl three_listener-Watches
      (refl, (refl, (refl, tt))) refl refl left_listener-Watches (omega arith)

listen-failed_example :
    Returns
      (λ (r, s, closed).
        (r ≡ success)
        × (closed ≡ pos 3 ∷ pos 7 ∷ [])
        × Watches s.0 (three ∷ seven ∷ [])
        × (s.1 ≡ []))
      (listen counting 9 (replicate 11 failed ++ timed_out ∷ []) (listener, []))
listen-failed_example =
    listen-failed counting (three ∷ seven ∷ []) (three ∷ seven ∷ []) (λ l s. refl) two-InSet
      (λ s. s.1 ≡ []) (λ s. s.1 ≡ []) (λ l s p. p) (λ l s p. p) (λ s w p. returns (w, p)) 9
      (timed_out ∷ []) (listener, []) listener-Watches refl refl
