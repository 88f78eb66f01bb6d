-- ===== src/Sched/Holds.antt =====
-- What a task queue of kernel/scheduler.c holds, as a list of tasks, oldest first.
use uint_os.Common.{
  ℕ, zero, suc, ◌+◌, ◌-◌, ◌%◌, ◌≤◌, ◌<◌, ◌≡◌, ◌≢◌, ◌⊎◌, refl, sym, ap, ◌∙◌, Option, none, some,
  List, [], ◌∷◌, ◌++◌, arith, length, get_or, set, length-set, length-append, get_or-set_self,
  get_or-set_ne, get_or-append_left, get_or-append_last, dec_lt, ℕ_discrete, inl, inr,
}
use mathlib.Core.Path.{subst}
use uint_os.Sched.Queue.{TaskQueue, max_tasks, push, pop, shift_tasks, search_queue, remove_at}

-- The slot at offset k.
abbrev pub slot : List (Option ℕ) → ℕ → ℕ → Option ℕ
slot tasks head k = get_or tasks ((head + k) % max_tasks) none

pub record Holds (q : TaskQueue) (ts : List ℕ) : Type 0 where
  pub room : length q.tasks ≡ max_tasks
  pub head_in : q.head < max_tasks
  pub tail_at : q.tail ≡ (q.head + q.count) % max_tasks
  pub counted : q.count ≡ length ts
  pub few : q.count ≤ max_tasks
  pub slots : (k : ℕ) → k < length ts → slot q.tasks q.head k ≡ some (get_or ts k 0)

pub push-Holds :
    {q : TaskQueue} {ts : List ℕ} (t : ℕ)
    → Holds q ts
    → q.count < max_tasks
    → Holds (push q t) (ts ++ (t ∷ []))
unfolding push
push-Holds {q} {ts} t h lt = record {
  room = length-set q.tasks q.tail (some t) ∙ h.room;
  head_in = h.head_in;
  tail_at = omega (arith, h.tail_at);
  counted = omega (arith, h.counted, length-append ts (t ∷ []));
  few = omega arith;
  slots = λ k kl. elim (ℕ_discrete k (length ts)) [
    | yes last ↦
        ap (λ i. get_or (set q.tasks q.tail (some t)) i none) (omega (arith, h.tail_at, h.counted))
        ∙ (get_or-set_self q.tasks q.tail (some t) none (omega (arith, h.tail_at, h.room))
            ∙ ap some (sym (get_or-append_last ts t k 0 last)))
    | no before ↦
        get_or-set_ne q.tasks q.tail ((q.head + k) % max_tasks) (some t) none (
          omega (arith, h.tail_at, h.counted, h.head_in, length-append ts (t ∷ []), kl, before, lt))
        ∙ (h.slots k (omega (arith, length-append ts (t ∷ []), kl, before))
            ∙ ap some (
                sym (
                  get_or-append_left ts (t ∷ []) k 0
                    (omega (arith, length-append ts (t ∷ []), kl, before)))))
  ];
}

pub pop-Holds :
    {q : TaskQueue} (t : ℕ) {ts : List ℕ}
    → Holds q (t ∷ ts)
    → Holds (pop q).0 ts × ((pop q).1 ≡ some t)
unfolding pop
pop-Holds {q} t {ts} h = (
  record {
    room = h.room;
    head_in = omega arith;
    tail_at = omega (arith, h.tail_at, h.counted);
    counted = omega (arith, h.counted);
    few = omega (arith, h.few);
    slots = λ k kl. ap (λ i. get_or q.tasks i none) (omega arith) ∙ h.slots (suc k) (omega arith);
  },
  ap (λ i. get_or q.tasks i none) (omega (arith, h.head_in)) ∙ h.slots 0 (omega arith),
)

-- The loop moves the slots from j on by one, n of them, and no other.
shift_tasks-length :
    (n j head : ℕ) (tasks : List (Option ℕ)) → length (shift_tasks n j head tasks) ≡ length tasks
unfolding shift_tasks
shift_tasks-length zero j head tasks = refl
shift_tasks-length (suc n) j head tasks =
    shift_tasks-length n (j + 1) head
      (set tasks ((head + j) % max_tasks) (get_or tasks ((head + j + 1) % max_tasks) none))
    ∙ length-set tasks ((head + j) % max_tasks) (get_or tasks ((head + j + 1) % max_tasks) none)

shift_kept :
    (n j head : ℕ) (tasks : List (Option ℕ)) (k : ℕ)
    → length tasks ≡ max_tasks
    → head < max_tasks
    → j + n < max_tasks
    → k < max_tasks
    → (k < j) ⊎ (j + n ≤ k)
    → slot (shift_tasks n j head tasks) head k ≡ slot tasks head k
unfolding shift_tasks
shift_kept zero j head tasks k room hh jn kl out = refl
shift_kept (suc n) j head tasks k room hh jn kl out =
    let here = get_or tasks ((head + j + 1) % max_tasks) none in
    shift_kept n (j + 1) head (set tasks ((head + j) % max_tasks) here) k
      (length-set tasks ((head + j) % max_tasks) here ∙ room) hh (omega arith) kl (ground arith)
    ∙ get_or-set_ne tasks ((head + j) % max_tasks) ((head + k) % max_tasks) here none (ground arith)

shift_moved :
    (n j head : ℕ) (tasks : List (Option ℕ)) (k : ℕ)
    → length tasks ≡ max_tasks
    → head < max_tasks
    → j + n < max_tasks
    → j ≤ k
    → k < j + n
    → slot (shift_tasks n j head tasks) head k ≡ slot tasks head (k + 1)
unfolding shift_tasks
shift_moved zero j head tasks k room hh jn le lt = absurd (omega arith)
shift_moved (suc n) j head tasks k room hh jn le lt =
    let here = get_or tasks ((head + j + 1) % max_tasks) none in
    let tasks' = set tasks ((head + j) % max_tasks) here in
    elim (ℕ_discrete j k) [
      | yes first ↦
          shift_kept n (j + 1) head tasks' k (length-set tasks ((head + j) % max_tasks) here ∙ room)
            hh (omega arith) (omega arith) (inl (omega arith))
          ∙ (ap (λ i. get_or tasks' i none) {x = (head + k) % max_tasks}
                {y = (head + j) % max_tasks} (omega arith)
              ∙ (get_or-set_self tasks ((head + j) % max_tasks) here none (omega arith)
                  ∙ ap (λ i. get_or tasks i none) (omega arith)))
      | no later ↦
          shift_moved n (j + 1) head tasks' k
            (length-set tasks ((head + j) % max_tasks) here ∙ room) hh (omega arith) (omega arith)
            (omega arith)
          ∙ get_or-set_ne tasks ((head + j) % max_tasks) ((head + (k + 1)) % max_tasks) here none
              (omega arith)
    ]

unfoldable pub remove_nth : ℕ → List ℕ → List ℕ
remove_nth i [] = []
remove_nth zero (t ∷ ts) = ts
remove_nth (suc i) (t ∷ ts) = t ∷ remove_nth i ts

length-remove_nth : (i : ℕ) (ts : List ℕ) → i < length ts → length (remove_nth i ts) + 1 ≡ length ts
unfolding remove_nth
length-remove_nth i [] h = absurd (omega arith)
length-remove_nth zero (t ∷ ts) h = omega arith
length-remove_nth (suc i) (t ∷ ts) h = omega (arith, length-remove_nth i ts)

get_or-remove_nth_before :
    (i : ℕ) (ts : List ℕ) (k : ℕ) → k < i → get_or (remove_nth i ts) k 0 ≡ get_or ts k 0
unfolding remove_nth
get_or-remove_nth_before i [] k h = refl
get_or-remove_nth_before zero (t ∷ ts) k h = absurd (omega arith)
get_or-remove_nth_before (suc i) (t ∷ ts) zero h = refl
get_or-remove_nth_before (suc i) (t ∷ ts) (suc k) h = get_or-remove_nth_before i ts k (omega arith)

get_or-remove_nth_from :
    (i : ℕ) (ts : List ℕ) (k : ℕ) → i ≤ k → get_or (remove_nth i ts) k 0 ≡ get_or ts (suc k) 0
unfolding remove_nth
get_or-remove_nth_from i [] k h = refl
get_or-remove_nth_from zero (t ∷ ts) k h = refl
get_or-remove_nth_from (suc i) (t ∷ ts) zero h = absurd (omega arith)
get_or-remove_nth_from (suc i) (t ∷ ts) (suc k) h = get_or-remove_nth_from i ts k (omega arith)

-- Closing the gap takes the task at offset i out of the list, and keeps the others in order.
pub remove_at-Holds :
    {q : TaskQueue} {ts : List ℕ} (i : ℕ)
    → Holds q ts
    → i < length ts
    → Holds (remove_at q i) (remove_nth i ts)
unfolding remove_at
remove_at-Holds {q} {ts} i h lt = record {
  room = shift_tasks-length (q.count - 1 - i) i q.head q.tasks ∙ h.room;
  head_in = h.head_in;
  tail_at = omega (arith, h.tail_at, h.counted, h.head_in, h.few);
  counted = omega (arith, h.counted, length-remove_nth i ts lt);
  few = omega (arith, h.few);
  slots = λ k kl. elim (dec_lt k i) [
    | yes before ↦
        shift_kept (q.count - 1 - i) i q.head q.tasks k h.room h.head_in
          (omega (arith, h.counted, h.few, lt)) (omega (arith, h.counted, h.few, lt, before))
          (inl before)
        ∙ (h.slots k (omega (arith, before, lt))
            ∙ ap some (sym (get_or-remove_nth_before i ts k before)))
    | no from ↦
        shift_moved (q.count - 1 - i) i q.head q.tasks k h.room h.head_in
          (omega (arith, h.counted, h.few, lt)) (omega (arith, from))
          (omega (arith, h.counted, from, kl, length-remove_nth i ts lt))
        ∙ (ap (λ j. slot q.tasks q.head j) {x = k + 1} {y = suc k} (omega arith)
            ∙ (h.slots (suc k) (omega (arith, kl, length-remove_nth i ts lt))
                ∙ ap some (sym (get_or-remove_nth_from i ts k (omega (arith, from))))))
  ];
}

pub extend_below :
    (P : ℕ → Type 0) (i b : ℕ)
    → P i
    → ((k : ℕ) → i + 1 ≤ k → k < b → P k)
    → (k : ℕ) → i ≤ k
    → k < b
    → P k
extend_below P i b first later k le lt = elim (ℕ_discrete i k) [
  | yes e ↦ subst P e first
  | no ne ↦ later k (omega arith) lt
]

-- The search gives the first offset from i on, among n, whose task has the id.
pub search_queue_lem :
    {q : TaskQueue} {ts : List ℕ} (n i : ℕ) (id_of : ℕ → ℕ) (task_id : ℕ)
    → Holds q ts
    → i + n ≤ length ts
    → ((search_queue n i id_of q task_id ≡ none)
        × ((k : ℕ) → i ≤ k → k < i + n → id_of (get_or ts k 0) ≢ task_id))
      ⊎ ((j : ℕ) × (search_queue n i id_of q task_id ≡ some j)
          × (i ≤ j)
          × (j < i + n)
          × (id_of (get_or ts j 0) ≡ task_id)
          × ((k : ℕ) → i ≤ k → k < j → id_of (get_or ts k 0) ≢ task_id))
unfolding search_queue
search_queue_lem zero i id_of task_id h room = inl (refl, λ k le lt. absurd (omega arith))
search_queue_lem {q} {ts} (suc n) i id_of task_id h room =
    let rest = search_queue_lem n (i + 1) id_of task_id h (omega arith) in
    rw (h.slots i (omega arith)) (elim (ℕ_discrete (id_of (get_or ts i 0)) task_id) [
      | yes here ↦
          inr (
            i,
            ground (arith, here),
            omega arith,
            omega arith,
            here,
            λ k le lt. absurd (omega arith),
          )
      | no other ↦ elim rest [
        | inl (e, none_later) ↦ inl (
          ground (arith, other, e),
          λ k le lt.
              extend_below (λ k. id_of (get_or ts k 0) ≢ task_id) i (i + 1 + n) other none_later k
                le (omega arith),
        )
        | inr (j, e, le, lt, found, first) ↦ inr (
          j,
          ground (arith, other, e),
          omega arith,
          omega arith,
          found,
          extend_below (λ k. id_of (get_or ts k 0) ≢ task_id) i j other first,
        )
      ]
    ])
