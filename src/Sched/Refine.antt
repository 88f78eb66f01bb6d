-- ===== src/Sched/Refine.antt =====
-- The ready queues of kernel/scheduler.c behave as the lists.
use uint_os.Common.{
  ℕ, zero, suc, ◌+◌, ◌≤◌, ◌<◌, ◌≡◌, ◌≢◌, refl, ap, true, false, Option, none, some, List, [], ◌∷◌,
  ◌++◌, ltb, if◌then◌else◌, arith, length, get_or, update, update_both, Bool-cases, inl, inr,
}
use mathlib.Core.Path.{ap₂, subst}
use uint_os.Sched.Queue.{TaskQueue, max_tasks, pop, offer, remove_at}
use uint_os.Sched.Holds.{
  Holds, push-Holds, pop-Holds, remove_nth, remove_at-Holds, search_queue_lem,
}
use uint_os.Sched.State.{
  Task, Scheduler, max_priority, queue_index, scheduler_add_task, next_from,
  scheduler_get_next_task, remove_from, scheduler_remove_task_from_ready_queue,
}
use uint_os.Sched.Spec.{
  Lists, add_last, first_of, drop_first, drop_id, Op, add, next, remove, code_step, list_step,
  code_run, list_run,
}

-- Every ready queue holds its list; the tasks and the idle task are those.
pub record Represents (tasks : ℕ → Task) (idle : Option ℕ) (s : Scheduler) (b : Lists)
    : Type 0 where
  pub queues : (p : ℕ) → p < max_priority → Holds (s.ready_queues p) (b p)
  pub same_tasks : s.tasks ≡ tasks
  pub same_idle : s.idle_task ≡ idle

queue_index-lt : (priority : ℕ) → queue_index priority < max_priority
unfolding queue_index
queue_index-lt priority = ground arith

offer-Holds :
    {q : TaskQueue} {ts : List ℕ} (t : ℕ)
    → Holds q ts
    → Holds (offer q t).0 (if ltb (length ts) max_tasks then ts ++ (t ∷ []) else ts)
unfolding offer
offer-Holds {q} {ts} t h = elim (Bool-cases (ltb q.count max_tasks)) [
  | inl room ↦ rw (room, ← h.counted, room) (push-Holds t h (ground (arith, room)))
  | inr full ↦ rw (full, ← h.counted, full) h
]

module _ {tasks : ℕ → Task} {idle : Option ℕ} where
  -- One queue and its list are replaced.
  change_queue :
      {s : Scheduler} {b : Lists} (p : ℕ) (q : TaskQueue) (ts : List ℕ)
      → Represents tasks idle s b
      → Holds q ts
      → Represents tasks idle
          (record s { ready_queues = update s.ready_queues p q })
          (update b p ts)
  change_queue {s} {b} p q ts h hq = record {
    queues = λ j lt.
        update_both (λ j q ts. j < max_priority → Holds q ts) s.ready_queues b p q ts (λ _. hq)
          h.queues j lt;
    same_tasks = h.same_tasks;
    same_idle = h.same_idle;
  }

  pub add_refines :
      {s : Scheduler} {b : Lists} (t : ℕ)
      → Represents tasks idle s b
      → Represents tasks idle
          (scheduler_add_task s t)
          (add_last b (queue_index (tasks t).priority) t)
  unfolding scheduler_add_task add_last offer
  add_refines {s} {b} t h =
      subst
        (λ f.
          Represents tasks idle (scheduler_add_task s t)
            (add_last b (queue_index (f t).priority) t))
        h.same_tasks
        (change_queue p (offer (s.ready_queues p) t).0
          (if ltb (length (b p)) max_tasks then b p ++ (t ∷ []) else b p) h
          (offer-Holds t (h.queues p (queue_index-lt (s.tasks t).priority))))
    where
      p : ℕ
      p = queue_index (s.tasks t).priority

  -- One round of the search, on a queue that holds `box`.
  next_round :
      {s : Scheduler} {b : Lists} (n p : ℕ) (box : List ℕ)
      → Represents tasks idle s b
      → p < max_priority
      → b p ≡ box
      → Represents tasks idle (next_from n (p + 1) s).0 (first_of n (p + 1) b idle).0
        × ((next_from n (p + 1) s).1 ≡ (first_of n (p + 1) b idle).1)
      → Represents tasks idle (next_from (suc n) p s).0 (first_of (suc n) p b idle).0
        × ((next_from (suc n) p s).1 ≡ (first_of (suc n) p b idle).1)
  unfolding next_from first_of
  next_round {s} {b} n p [] h lt e rest = rw (e, first_of, nothing) rest
    where
      nothing : ltb 0 (s.ready_queues p).count ≡ false
      nothing = ground (arith, (h.queues p lt).counted, ap length e)
  next_round {s} {b} n p (t ∷ ts) h lt e rest =
      rw (e, first_of, something)
        (change_queue p (pop (s.ready_queues p)).0 ts h popped.0, popped.1)
    where
      something : ltb 0 (s.ready_queues p).count ≡ true
      something = ground (arith, (h.queues p lt).counted, ap length e)

      popped : Holds (pop (s.ready_queues p)).0 ts × ((pop (s.ready_queues p)).1 ≡ some t)
      popped = pop-Holds t (subst (Holds (s.ready_queues p)) e (h.queues p lt))

  pub next_refines :
      {s : Scheduler} {b : Lists} (n p : ℕ)
      → Represents tasks idle s b
      → p + n ≤ max_priority
      → Represents tasks idle (next_from n p s).0 (first_of n p b idle).0
        × ((next_from n p s).1 ≡ (first_of n p b idle).1)
  unfolding next_from first_of
  next_refines zero p h room = (h, h.same_idle)
  next_refines {s} {b} (suc n) p h room =
      next_round n p (b p) h (omega arith) refl (next_refines n (p + 1) h (omega arith))

drop_first-none :
    (ts : List ℕ) (id_of : ℕ → ℕ) (task_id : ℕ)
    → ((k : ℕ) → k < length ts → id_of (get_or ts k 0) ≢ task_id)
    → drop_first id_of task_id ts ≡ none
unfolding drop_first
drop_first-none [] id_of task_id absent = refl
drop_first-none (t ∷ ts) id_of task_id absent = ground (
  arith,
  absent 0 (omega arith),
  drop_first-none ts id_of task_id (λ k lt. absent (suc k) (omega arith)),
)

drop_first-some :
    (ts : List ℕ) (id_of : ℕ → ℕ) (task_id j : ℕ)
    → j < length ts
    → id_of (get_or ts j 0) ≡ task_id
    → ((k : ℕ) → k < j → id_of (get_or ts k 0) ≢ task_id)
    → drop_first id_of task_id ts ≡ some (remove_nth j ts)
unfolding drop_first remove_nth
drop_first-some [] id_of task_id j lt found first = absurd (omega arith)
drop_first-some (t ∷ ts) id_of task_id zero lt found first = ground (arith, found)
drop_first-some (t ∷ ts) id_of task_id (suc j) lt found first = ground (
  arith,
  first 0 (omega arith),
  drop_first-some ts id_of task_id j (omega arith) found (λ k kl. first (suc k) (omega arith)),
)

module _ {tasks : ℕ → Task} {idle : Option ℕ} where
  remove_refines :
      {s : Scheduler} {b : Lists} (n p task_id : ℕ)
      → Represents tasks idle s b
      → p + n ≤ max_priority
      → Represents tasks idle
          (remove_from n p s task_id)
          (drop_id n p (λ t. (s.tasks t).id) b task_id)
  unfolding remove_from drop_id
  remove_refines zero p task_id h room = h
  remove_refines {s} {b} (suc n) p task_id h room =
      elim (search_queue_lem (s.ready_queues p).count 0 (λ t. (s.tasks t).id) task_id hq
        (omega (arith, hq.counted))) [
          | inl (e, absent) ↦
              rw
                (
                  e,
                  remove_from,
                  drop_first-none (b p) (λ t. (s.tasks t).id) task_id
                      (λ k lt. absent k (omega arith) (omega (arith, hq.counted))),
                  drop_id,
                )
                (remove_refines n (p + 1) task_id h (omega arith))
          | inr (j, e, le, lt, found, first) ↦
              rw
                (
                  e,
                  remove_from,
                  drop_first-some (b p) (λ t. (s.tasks t).id) task_id j (omega (arith, hq.counted))
                      found (λ k kl. first k (omega arith) kl),
                  drop_id,
                )
                (change_queue p (remove_at (s.ready_queues p) j) (remove_nth j (b p)) h
                  (remove_at-Holds j hq (omega (arith, hq.counted))))
        ]
    where
      hq : Holds (s.ready_queues p) (b p)
      hq = h.queues p (omega arith)

  step_refines :
      {s : Scheduler} {b : Lists} (op : Op)
      → Represents tasks idle s b
      → Represents tasks idle (code_step s op).0 (list_step tasks idle b op).0
        × ((code_step s op).1 ≡ (list_step tasks idle b op).1)
  unfolding code_step list_step scheduler_get_next_task scheduler_remove_task_from_ready_queue
  step_refines (add t) h = (add_refines t h, refl)
  step_refines next h = next_refines max_priority 0 h (omega arith)
  step_refines {s} {b} (remove task_id) h = (
    subst
        (λ f.
          Represents tasks idle (remove_from max_priority 0 s task_id)
            (drop_id max_priority 0 (λ t. (f t).id) b task_id))
        h.same_tasks (remove_refines max_priority 0 task_id h (omega arith)),
    refl,
  )

-- Any sequence of additions, choices of the next task and removals on the ready queues gives the
-- answers of the lists, one for each priority, from a state that represents them.
pub ready_queues_refine :
    (ops : List Op) {tasks : ℕ → Task} {idle : Option ℕ} {s : Scheduler} {b : Lists}
    → Represents tasks idle s b
    → code_run s ops ≡ list_run tasks idle b ops
unfolding code_run list_run
ready_queues_refine [] h = refl
ready_queues_refine (op ∷ ops) h =
    ap₂ ◌∷◌ (step_refines op h).1 (ready_queues_refine ops (step_refines op h).0)
