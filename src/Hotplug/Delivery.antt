-- ===== src/Hotplug/Delivery.antt =====
-- What becomes of the events that interface-event.c queues, where every fork succeeds.
use lede_netifd.Prelude.{
  ℕ, zero, suc, ap, ◌∙◌, ◌≡◌, refl, Bool, true, not, ◌&&◌, ◌⊎◌, inl, inr, Option, none, some, List,
  [], ◌∷◌, ◌++◌, map, length, ◌≤◌, ◌==◌, if◌then◌else◌, Distinct, contains, arith, Bool-cases,
  contains-append_single, contains-remove_ne, contains-remove_self,
}
use mathlib.Core.List.{append_assoc, append-nil}
use lede_netifd.Hotplug.{
  Event, down, up, free, State, Effect, is_none, is_current, script_env, start, call_pending,
  call_hotplug, script_exits, overwrite, append_pending, place, notify, wake, queue_event,
  dequeue_event, event_cb,
}
use lede_netifd.Hotplug.Invariant.{Inv, place-Inv, place_keeps, notify-Inv}

-- The last event of an interface that a script has been told of or will be.
pub last_event : State → ℕ → Option Event
last_event s i =
    if contains s.pending i
    then some (s.iface i).hotplug_ev
    else if is_current s.current i
    then some s.current_ev
    else none

abbrev pub IsUpDown : Event → Type 0
IsUpDown ev = (ev ≡ up) ⊎ (ev ≡ down)

place-last_event :
    (i j : ℕ) (ev : Event) (s : State)
    → IsUpDown ev
    → last_event (place i ev s) j ≡ (if i == j then some ev else last_event s j)
unfolding place append_pending overwrite last_event
place-last_event i j ev s h = ground (arith, contains-append_single s.pending i j)

notify-last_event :
    (i j : ℕ) (ev : Event) (s : State) → last_event (notify i ev s) j ≡ last_event s j
unfolding notify last_event
notify-last_event i j ev s = ground arith

-- The call that hotplug makes for interface `i`.
pub script : State → ℕ → Effect
unfolding script_env
script s i = Effect.run i (s.iface i).hotplug_ev (script_env s i)

place_first : (i : ℕ) (ev : Event) (s : State) → s.pending ≡ [] → length (place i ev s).pending ≤ 1
unfolding place append_pending overwrite
place_first i ev s h = ground arith

notify_keeps :
    (i : ℕ) (ev : Event) (s : State)
    → ((notify i ev s).pending ≡ s.pending)
      × ((notify i ev s).current ≡ s.current)
      × ((notify i ev s).task_pending ≡ s.task_pending)
unfolding notify
notify_keeps i ev s = ground arith

-- `n` scripts that end one after another.
pub exits : (ℕ → Bool) → ℕ → State → State
exits fork_ok zero s = s
exits fork_ok (suc n) s = exits fork_ok n (script_exits fork_ok s)

module _ (fork_ok : ℕ → Bool) (forks : (n : ℕ) → fork_ok n ≡ true) where
  call_pending-last_event :
      (xs : List ℕ) (s : State) (j : ℕ)
      → Distinct xs
      → s.pending ≡ xs
      → is_none s.current ≡ true
      → length xs ≤ 1
      → last_event (call_pending fork_ok xs s) j ≡ last_event s j
  unfolding call_pending start last_event
  call_pending-last_event [] s j d e c l = refl
  call_pending-last_event (i ∷ []) s j d e c l = ground (arith, forks s.forks)
  call_pending-last_event (i ∷ k ∷ rest) s j d e c l = absurd (omega arith)

  wake_place-last_event :
      (i j : ℕ) (ev : Event) (s : State)
      → Inv s
      → last_event (wake fork_ok (place i ev s)) j ≡ last_event (place i ev s) j
  unfolding call_hotplug
  wake_place-last_event i j ev s v =
      let p = place i ev s in
      elim (Bool-cases (not p.task_pending && is_none p.current)) [
        | inl idle ↦ rw idle (
            call_pending-last_event p.pending p j (place-Inv i ev s v.distinct) refl (ground arith)
              (place_first i ev s (v.idle (ground (arith, place_keeps i ev s)))))
        | inr held ↦ rw held
      ]

  queue_event-last_event :
      (i j : ℕ) (ev : Event) (s : State)
      → Inv s
      → IsUpDown ev
      → last_event (queue_event fork_ok i ev s) j ≡ (if i == j then some ev else last_event s j)
  unfolding queue_event
  queue_event-last_event i j up s v h =
      wake_place-last_event i j up (notify i up s) (notify-Inv i up s v)
      ∙ place-last_event i j up (notify i up s) h
      ∙ ap (λ r. if i == j then some up else r) (notify-last_event i j up s)
  queue_event-last_event i j down s v h =
      wake_place-last_event i j down (notify i down s) (notify-Inv i down s v)
      ∙ place-last_event i j down (notify i down s) h
      ∙ ap (λ r. if i == j then some down else r) (notify-last_event i j down s)
  queue_event-last_event i j _ s v h = ground arith

  -- If every fork succeeds and the queue is well formed, the last event of an interface after an ifup or
  -- ifdown is that event, and the last event of every other interface is unchanged.
  pub event_cb-last_event :
      (i j : ℕ) (ev : Event) (s : State)
      → Inv s
      → IsUpDown ev
      → last_event (event_cb fork_ok i ev s) j ≡ (if i == j then some ev else last_event s j)
  unfolding event_cb
  event_cb-last_event i j up s v h = queue_event-last_event i j up s v h
  event_cb-last_event i j down s v h = queue_event-last_event i j down s v h
  event_cb-last_event i j _ s v h = ground arith

  -- In a well-formed queue, a freed interface is neither pending nor being handled, and the others keep
  -- their last event.
  pub event_cb_free-last_event :
      (i j : ℕ) (s : State)
      → Inv s
      → last_event (event_cb fork_ok i free s) j ≡ (if i == j then none else last_event s j)
  unfolding event_cb dequeue_event last_event
  event_cb_free-last_event i j s v =
      ground (arith, contains-remove_self s.pending i v.distinct, contains-remove_ne s.pending i j)

  script_exits-start :
      (s : State) (i : ℕ) (rest : List ℕ)
      → s.pending ≡ i ∷ rest
      → script_exits fork_ok s ≡ start s i rest
  unfolding script_exits call_pending start
  script_exits-start s i rest e = ground (arith, forks s.forks)

  exits_all :
      (xs : List ℕ) (s : State)
      → s.pending ≡ xs
      → ((exits fork_ok (length xs) s).effects ≡ s.effects ++ map (script s) xs)
        × ((exits fork_ok (length xs) s).pending ≡ [])
  unfolding exits script start
  exits_all [] s e = (rw append-nil, e)
  exits_all (i ∷ rest) s e =
      let (ran, none_left) = exits_all rest (start s i rest) refl in
      rw (exits, script_exits-start s i rest e)
        (ran ∙ append_assoc s.effects (script s i ∷ []) (map (script s) rest), none_left)

  -- Every pending event is delivered, first in first out, by as many script ends as are pending.
  pub exits_deliver :
      (s : State)
      → ((exits fork_ok (length s.pending) s).effects ≡ s.effects ++ map (script s) s.pending)
        × ((exits fork_ok (length s.pending) s).pending ≡ [])
  exits_deliver s = exits_all s.pending s refl
