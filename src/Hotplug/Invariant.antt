-- ===== src/Hotplug/Invariant.antt =====
-- What holds of the hotplug queue of interface-event.c between two events.
use lede_netifd.Prelude.{
  ℕ, ◌≡◌, refl, Bool, true, false, List, [], ◌∷◌, if◌then◌else◌, Distinct, arith, not, ◌&&◌, remove,
  Bool-cases, inl, inr, Distinct-append_single, remove-Distinct,
}
use lede_netifd.Hotplug.{
  Event, down, up, updated, free, reload, link_up, Iface, State, is_none, start_failed,
  call_pending, wake, call_hotplug, script_exits, overwrite, append_pending, place, notify,
  queue_event, dequeue_event, event_cb, init,
}

pub record Inv (s : State) : Type 0 where
  pub distinct : Distinct s.pending
  pub busy : is_none s.current ≡ false → s.task_pending ≡ true
  pub idle : s.task_pending ≡ false → s.pending ≡ []

-- What happens to the queue: an interface event, or the end of the running script.
pub data Input : Type 0 where
  event : ℕ → Event → Input
  exited : Input

init-Inv : (iface : ℕ → Iface) → Inv (init iface)
unfolding init
init-Inv iface = record { distinct = tt; busy = λ h. cc; idle = λ h. refl }

pub place-Inv :
    (i : ℕ) (ev : Event) (s : State) → Distinct s.pending → Distinct (place i ev s).pending
unfolding place overwrite append_pending
place-Inv i ev s d = ground (arith, Distinct-append_single s.pending i)

pub place_keeps :
    (i : ℕ) (ev : Event) (s : State)
    → ((place i ev s).current ≡ s.current) × ((place i ev s).task_pending ≡ s.task_pending)
unfolding place overwrite append_pending
place_keeps i ev s = ground arith

-- A notification changes nothing that the queue reads.
pub notify-Inv : (i : ℕ) (ev : Event) (s : State) → Inv s → Inv (notify i ev s)
unfolding notify
notify-Inv i ev s v = ground arith

remove_idle : (xs : List ℕ) (i : ℕ) → xs ≡ [] → remove i xs ≡ []
remove_idle [] i h = refl
remove_idle (x ∷ xs) i h = ground arith

dequeue_event-Inv : (i : ℕ) (s : State) → Inv s → Inv (dequeue_event i s)
unfolding dequeue_event
dequeue_event-Inv i s v = record {
  distinct = remove-Distinct s.pending i v.distinct;
  busy = λ h. ground (arith, v.busy);
  idle = λ h. remove_idle s.pending i (v.idle h);
}

module _ (fork_ok : ℕ → Bool) where
  -- A script exits only where one runs.
  pub step : State → Input → State
  step s (event i ev) = event_cb fork_ok i ev s
  step s exited = if s.task_pending then script_exits fork_ok s else s

  pub run : State → List Input → State
  run s [] = s
  run s (x ∷ xs) = run (step s x) xs

  call_pending-Inv :
      (xs : List ℕ) (s : State)
      → Distinct xs
      → s.pending ≡ xs
      → is_none s.current ≡ true
      → s.task_pending ≡ false
      → Inv (call_pending fork_ok xs s)
  unfolding call_pending
  call_pending-Inv [] s d e c t = ground arith
  call_pending-Inv (i ∷ rest) s d e c t = elim (Bool-cases (fork_ok s.forks)) [
    | inl good ↦ rw good (record { distinct = d.1; busy = λ _. refl; idle = λ h. cc })
    | inr bad ↦ rw bad (call_pending-Inv rest (start_failed s i rest) d.1 refl refl t)
  ]

  script_exits-Inv : (s : State) → Inv s → Inv (script_exits fork_ok s)
  unfolding script_exits
  script_exits-Inv s v = call_pending-Inv s.pending _ v.distinct refl refl refl

  -- The last line of `interface_queue_event` restores the invariant's other half.
  wake-Inv :
      (s : State)
      → Distinct s.pending
      → (is_none s.current ≡ false → s.task_pending ≡ true)
      → Inv (wake fork_ok s)
  unfolding call_hotplug
  wake-Inv s d b = elim (Bool-cases (not s.task_pending && is_none s.current)) [
    | inl idle ↦ rw idle (call_pending-Inv s.pending s d refl (ground arith) (ground arith))
    | inr held ↦ rw held (record { distinct = d; busy = b; idle = λ h. ground arith })
  ]

  wake_place-Inv : (i : ℕ) (ev : Event) (s : State) → Inv s → Inv (wake fork_ok (place i ev s))
  wake_place-Inv i ev s v =
      wake-Inv _ (place-Inv i ev s v.distinct) (ground (arith, place_keeps i ev s, v.busy))

  queue_event-Inv : (i : ℕ) (ev : Event) (s : State) → Inv s → Inv (queue_event fork_ok i ev s)
  unfolding queue_event
  queue_event-Inv i link_up s v = notify-Inv i link_up s v
  queue_event-Inv i ev s v = wake_place-Inv i ev _ (notify-Inv i ev s v)

  event_cb-Inv : (i : ℕ) (ev : Event) (s : State) → Inv s → Inv (event_cb fork_ok i ev s)
  unfolding event_cb
  event_cb-Inv i down s v = queue_event-Inv i down s v
  event_cb-Inv i up s v = queue_event-Inv i up s v
  event_cb-Inv i updated s v = queue_event-Inv i updated s v
  event_cb-Inv i free s v = dequeue_event-Inv i s v
  event_cb-Inv i reload s v = v
  event_cb-Inv i link_up s v = queue_event-Inv i link_up s v

  -- Every event and every end of a script keeps the invariant: no interface is pending twice, an
  -- interface is being handled only while a script runs, and nothing is pending while none runs.
  pub step-Inv : (s : State) (x : Input) → Inv s → Inv (step s x)
  unfolding step
  step-Inv s (event i ev) v = event_cb-Inv i ev s v
  step-Inv s exited v = ground (arith, script_exits-Inv s v)

  run-Inv : (s : State) (xs : List Input) → Inv s → Inv (run s xs)
  unfolding run
  run-Inv s [] v = v
  run-Inv s (x ∷ xs) v = run-Inv (step s x) xs (step-Inv s x v)

  -- So it holds after every history of events and script ends, whichever forks fail.
  pub run-init-Inv : (iface : ℕ → Iface) (xs : List Input) → Inv (run (init iface) xs)
  run-init-Inv iface xs = run-Inv (init iface) xs (init-Inv iface)
