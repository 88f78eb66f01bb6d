-- ===== src/Sched/Queue.antt =====
-- The task queues of kernel/scheduler.c: `task_queue_t`, and what the functions do to one. A task is
-- a pointer, the number of its object in the store of Sched/State; a slot never written is `none`.
use uint_os.Common.{
  ℕ, zero, suc, ◌+◌, ◌-◌, ◌%◌, Bool, true, false, Option, none, some, List, ◌==◌, ltb,
  if◌then◌else◌, get_or, set,
}

abbrev pub max_tasks : ℕ
max_tasks = 256

pub record TaskQueue : Type 0 where
  pub tasks : List (Option ℕ)
  pub head : ℕ
  pub tail : ℕ
  pub count : ℕ

-- queue->tasks[queue->tail] = task, and the two lines after it.
unfoldable pub push : TaskQueue → ℕ → TaskQueue
push q t = record q {
  tasks = set q.tasks q.tail (some t);
  tail = (q.tail + 1) % max_tasks;
  count = q.count + 1;
}

-- task = queue->tasks[queue->head], and the two lines after it.
unfoldable pub pop : TaskQueue → TaskQueue × Option ℕ
pop q =
    (record q { head = (q.head + 1) % max_tasks; count = q.count - 1 }, get_or q.tasks q.head none)

-- The push behind its test of the count; `false`: the queue is full.
unfoldable pub offer : TaskQueue → ℕ → TaskQueue × Bool
unfolding push
offer q t = if ltb q.count max_tasks then (push q t, true) else (q, false)

-- The loop that closes the gap: the rounds left, and j.
unfoldable pub shift_tasks : ℕ → ℕ → ℕ → List (Option ℕ) → List (Option ℕ)
shift_tasks zero j head tasks = tasks
shift_tasks (suc n) j head tasks =
    shift_tasks n (j + 1) head
      (set tasks ((head + j) % max_tasks) (get_or tasks ((head + j + 1) % max_tasks) none))

-- tasks[idx] && tasks[idx]->id == task_id
abbrev pub has_id : (ℕ → ℕ) → ℕ → Option ℕ → Bool
has_id id_of task_id none = false
has_id id_of task_id (some t) = id_of t == task_id

-- The search of a queue: the rounds left, and i.
unfoldable pub search_queue : ℕ → ℕ → (ℕ → ℕ) → TaskQueue → ℕ → Option ℕ
search_queue zero i id_of q task_id = none
search_queue (suc n) i id_of q task_id =
    let rest = search_queue n (i + 1) id_of q task_id in
    if has_id id_of task_id (get_or q.tasks ((q.head + i) % max_tasks) none) then some i else rest

-- The removal of the task at offset i.
unfoldable pub remove_at : TaskQueue → ℕ → TaskQueue
unfolding shift_tasks
remove_at q i = record q {
  tasks = shift_tasks (q.count - 1 - i) i q.head q.tasks;
  tail = (q.tail + max_tasks - 1) % max_tasks;
  count = q.count - 1;
}
