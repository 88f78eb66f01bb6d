-- ===== src/Sched/Spec.antt =====
-- What the ready queues of kernel/scheduler.c promise: a list of tasks for each priority, oldest
-- first; the next task is the oldest of the first list that is not empty.
use uint_os.Common.{
  ℕ, zero, suc, ◌+◌, Option, none, some, List, [], ◌∷◌, ◌++◌, ◌==◌, ltb, if◌then◌else◌, length,
  update,
}
use mathlib.Core.Option
use uint_os.Sched.Queue.{max_tasks}
use uint_os.Sched.State.{
  Task, Scheduler, max_priority, queue_index, scheduler_add_task, scheduler_get_next_task,
  scheduler_remove_task_from_ready_queue,
}

abbrev pub Lists : Type 0
Lists = ℕ → List ℕ

unfoldable pub add_last : Lists → ℕ → ℕ → Lists
add_last b p t = update b p (if ltb (length (b p)) max_tasks then b p ++ (t ∷ []) else b p)

unfoldable pub first_of : ℕ → ℕ → Lists → Option ℕ → Lists × Option ℕ
first_of zero p b idle = (b, idle)
first_of (suc n) p b idle = elim (b p) [
  | [] ↦ first_of n (p + 1) b idle
  | t ∷ ts ↦ (update b p ts, some t)
]

-- The list without its first task of that id, if there is one.
unfoldable pub drop_first : (ℕ → ℕ) → ℕ → List ℕ → Option (List ℕ)
drop_first id_of task_id [] = none
drop_first id_of task_id (t ∷ ts) =
    let rest = Option.map (λ ts'. t ∷ ts') (drop_first id_of task_id ts) in
    if id_of t == task_id then some ts else rest

unfoldable pub drop_id : ℕ → ℕ → (ℕ → ℕ) → Lists → ℕ → Lists
unfolding drop_first
drop_id zero p id_of b task_id = b
drop_id (suc n) p id_of b task_id = elim (drop_first id_of task_id (b p)) [
  | none ↦ drop_id n (p + 1) id_of b task_id
  | some ts ↦ update b p ts
]

-- What the other functions of the file do to the ready queues.
pub data Op : Type 0 where
  add : ℕ → Op
  next : Op
  remove : ℕ → Op

-- The code's step and the lists' step; `next` answers with a task.
unfoldable pub code_step : Scheduler → Op → Scheduler × Option ℕ
code_step s (add t) = (scheduler_add_task s t, none)
code_step s next = scheduler_get_next_task s
code_step s (remove task_id) = (scheduler_remove_task_from_ready_queue s task_id, none)

unfoldable pub list_step : (ℕ → Task) → Option ℕ → Lists → Op → Lists × Option ℕ
list_step tasks idle b (add t) = (add_last b (queue_index (tasks t).priority) t, none)
list_step tasks idle b next = first_of max_priority 0 b idle
list_step tasks idle b (remove task_id) =
    (drop_id max_priority 0 (λ t. (tasks t).id) b task_id, none)

unfoldable pub code_run : Scheduler → List Op → List (Option ℕ)
code_run s [] = []
code_run s (op ∷ ops) = let (s', r) = code_step s op in r ∷ code_run s' ops

unfoldable pub list_run : (ℕ → Task) → Option ℕ → Lists → List Op → List (Option ℕ)
list_run tasks idle b [] = []
list_run tasks idle b (op ∷ ops) =
    let (b', r) = list_step tasks idle b op in r ∷ list_run tasks idle b' ops
