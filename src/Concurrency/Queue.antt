-- ===== src/Concurrency/Queue.antt =====
-- The bounded queue of 52_sync_cond/main.go. A call holds the lock except where it sleeps on the condition, so a
-- call that goes to sleep and a call that finishes are each one step; a broadcast wakes all sleepers, which then
-- test again.
use go_basics.Common.{
  ℕ, zero, suc, ◌+◌, ◌≤◌, ◌<◌, ◌≡◌, ◌≢◌, refl, sym, ap, ◌∙◌, List, [], ◌∷◌, ◌++◌, arith, length,
  length-append,
}
use go_basics.Common.Int.{ℤ, pos}
use mathlib.Core.List.{append_assoc}

-- `Queue`, with how many calls of `Push` and of `Pop` sleep, and what was pushed and popped so far.
pub record Queue : Type 0 where
  pub items : List ℤ
  pub capacity : ℤ
  pub pushers_asleep : ℕ
  pub poppers_asleep : ℕ
  pub pushed : List ℤ
  pub popped : List ℤ

-- `NewQueue`.
unfoldable pub new_queue : ℤ → Queue
new_queue capacity = record {
  items = [];
  capacity = capacity;
  pushers_asleep = 0;
  poppers_asleep = 0;
  pushed = [];
  popped = [];
}

pub data Step (q : Queue) : Queue → Type 0 where
  -- `Push`
  push_sleeps :
      pos (length q.items) ≡ q.capacity
      → Step q (record q { pushers_asleep = q.pushers_asleep + 1 })
  push_done :
      (v : ℤ)
      → pos (length q.items) ≢ q.capacity
      → Step q (record q {
        items = q.items ++ v ∷ [];
        pushers_asleep = 0;
        poppers_asleep = 0;
        pushed = q.pushed ++ v ∷ [];
      })
  -- `Pop`
  pop_sleeps : q.items ≡ [] → Step q (record q { poppers_asleep = q.poppers_asleep + 1 })
  pop_done :
      (v : ℤ) (rest : List ℤ)
      → q.items ≡ v ∷ rest
      → Step q (record q {
        items = rest;
        pushers_asleep = 0;
        poppers_asleep = 0;
        popped = q.popped ++ v ∷ [];
      })

-- The queues that calls reach.
pub data Reached (q : Queue) : Queue → Type 0 where
  start : Reached q q
  next : {a b : Queue} → Reached q a → Step a b → Reached q b

-- The queue holds what is pushed and not popped, in order, in its capacity; and only where a call would sleep again
-- does one sleep.
pub record IsSound (c : ℕ) (q : Queue) : Type 0 where
  pub capacity : q.capacity ≡ pos c
  pub bounded : length q.items ≤ c
  pub in_order : q.popped ++ q.items ≡ q.pushed
  pub full : 0 < q.pushers_asleep → length q.items ≡ c
  pub drained : 0 < q.poppers_asleep → q.items ≡ []

Step-IsSound : {c : ℕ} {a b : Queue} → Step a b → IsSound c a → IsSound c b
Step-IsSound (Step.push_sleeps f) h = record {
  capacity = h.capacity;
  bounded = h.bounded;
  in_order = h.in_order;
  full = λ s. ground (arith, h.capacity, f);
  drained = h.drained;
}
Step-IsSound {a = a} (Step.push_done v f) h = record {
  capacity = h.capacity;
  bounded = ground (arith, h.capacity, h.bounded, length-append a.items (v ∷ []));
  in_order = sym (append_assoc a.popped a.items (v ∷ [])) ∙ ap (λ l. l ++ v ∷ []) h.in_order;
  full = λ s. absurd (omega arith);
  drained = λ s. absurd (omega arith);
}
Step-IsSound (Step.pop_sleeps e) h = record {
  capacity = h.capacity;
  bounded = h.bounded;
  in_order = h.in_order;
  full = h.full;
  drained = λ s. e;
}
Step-IsSound {a = a} (Step.pop_done v rest e) h = record {
  capacity = h.capacity;
  bounded = ground (arith, h.bounded, ap length e);
  in_order = append_assoc a.popped (v ∷ []) rest ∙ ap (λ l. a.popped ++ l) (sym e) ∙ h.in_order;
  full = λ s. absurd (omega arith);
  drained = λ s. absurd (omega arith);
}

new_queue-IsSound : (c : ℕ) → IsSound c (new_queue (pos c))
unfolding new_queue
new_queue-IsSound c = record {
  capacity = refl;
  bounded = omega arith;
  in_order = refl;
  full = λ s. absurd (omega arith);
  drained = λ s. refl;
}

Reached-IsSound : {c : ℕ} {a b : Queue} → Reached a b → IsSound c a → IsSound c b
Reached-IsSound Reached.start h = h
Reached-IsSound (Reached.next before s) h = Step-IsSound s (Reached-IsSound before h)

none_of : (n : ℕ) → (0 < n → ⊥) → n ≡ 0
none_of zero h = refl
none_of (suc n) h = absurd (h (omega arith))

-- Whatever calls of Push and Pop do to a new queue of a capacity of 0 or more: it never holds more than its
-- capacity, what is popped is what was pushed first, in order, and a call sleeps only while the queue is still full, or still
-- empty, so that with a capacity above 0 a Push and a Pop never sleep at once.
pub Reached-new_queue :
    (c : ℕ) (q : Queue)
    → Reached (new_queue (pos c)) q
    → IsSound c q × (0 < c → 0 < q.pushers_asleep → q.poppers_asleep ≡ 0)
Reached-new_queue c q r =
    let h = Reached-IsSound r (new_queue-IsSound c) in
    (
      h,
      λ room asleep.
          none_of q.poppers_asleep
            (λ both. omega (arith, room, h.full asleep, ap length (h.drained both))),
    )
