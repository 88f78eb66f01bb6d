-- ===== src/Ipc/Queue.antt =====
-- The data of kernel/ipc.h and the sender's side of kernel/ipc.c; Ipc/Reader has the rest.
-- MAX_TASKS is the 256 of kernel/task.c.
-- `none` as the result of an operation is a caller that spins for ever on a queue's lock, or a
-- fault on a NULL message. `malloc` is the argument `memory`: NULL, or what the data of a new
-- message holds before it is written. The logging calls change no state and are left out.
use uint_os.Common.{
  ℕ, ◌+◌, ◌%◌, ◌^◌, Bool, not, ◌||◌, Option, none, some, List, [], ltb, leb, if◌then◌else◌, set,
  copy_bytes, update,
}
use uint_os.Common.Int.{ℤ, pos, negsuc, pos_part, ltb_ℤ}
use uint_os.Sync.Spinlock.{Spinlock, acquire, release, unlocked}

abbrev pub max_messages_per_queue : ℕ
max_messages_per_queue = 32

abbrev pub max_message_size : ℕ
max_message_size = 256

abbrev pub max_tasks : ℕ
max_tasks = 256

abbrev pub ipc_success : ℤ
ipc_success = pos 0

abbrev pub ipc_err_invalid_param : ℤ
ipc_err_invalid_param = negsuc 0

abbrev pub ipc_err_no_memory : ℤ
ipc_err_no_memory = negsuc 1

abbrev pub ipc_err_queue_full : ℤ
ipc_err_queue_full = negsuc 2

abbrev pub ipc_err_no_message : ℤ
ipc_err_no_message = negsuc 3

abbrev pub ipc_flag_nowait : ℕ
ipc_flag_nowait = 1

-- `ipc_message_t`; `flags` is the bit pattern of the int, `payload` the array `data`.
pub record Message : Type 0 where
  pub sender : ℤ
  pub type : ℤ
  pub flags : ℕ
  pub size : ℤ
  pub payload : List ℕ

-- `message_queue_t`; a slot of `messages` is a pointer, NULL as `none`.
pub record Queue : Type 0 where
  pub messages : List (Option Message)
  pub head : ℕ
  pub tail : ℕ
  pub count : ℕ
  pub task_id : ℕ
  pub lock : Spinlock

-- `ipc_stats_t`
pub record Stats : Type 0 where
  pub messages_sent : ℕ
  pub messages_received : ℕ
  pub errors : ℕ
  pub queue_full : ℕ

abbrev pub no_stats : Stats
no_stats = record { messages_sent = 0; messages_received = 0; errors = 0; queue_full = 0 }

-- The statics of ipc.c; `live` counts the messages allocated and not yet freed.
pub record Ipc : Type 0 where
  pub queues : ℕ → Queue
  pub stats : Stats
  pub live : ℕ

-- What a read gives back: the reader's structure (NULL as `none`) and a code.
abbrev pub Received : Type 0
Received = Option Message × ℤ

-- A uint32_t counter goes up by one.
abbrev pub bump : ℕ → ℕ
bump n = (n + 1) % 2 ^ 32

abbrev pub put_queue : Ipc → ℕ → Queue → Ipc
put_queue s i q = record s { queues = update s.queues i q }

infixl 5 ◌>>=◌
abbrev pub ◌>>=◌ {ℓ κ} : {A : Type ℓ} {B : Type κ} → Option A → (A → Option B) → Option B
none >>= f = none
some a >>= f = f a

-- spinlock_acquire(&message_queues[i].lock); no other task runs inside the call.
abbrev pub lock_queue : Queue → Option Queue
lock_queue q = do l ← acquire [] q.lock; some (record q { lock = l })

abbrev pub unlock_queue : Queue → Queue
unlock_queue q = record q { lock = release q.lock }

abbrev pub init_queue : ℕ → Queue → Queue
init_queue i q = record q { head = 0; tail = 0; count = 0; task_id = i; lock = unlocked }

unfoldable pub ipc_init : Ipc → Ipc
ipc_init s = record s {
  queues = λ i. if ltb i max_tasks then init_queue i (s.queues i) else s.queues i;
  stats = no_stats;
}

-- `memcpy` into the new message, if there is something to copy.
unfoldable pub fill_payload : List ℕ → Option (List ℕ) → ℤ → List ℕ
fill_payload garbage none size = garbage
fill_payload garbage (some bytes) size =
    if ltb_ℤ (pos 0) size then copy_bytes (pos_part size) bytes garbage else garbage

-- The queue with the message at its tail.
unfoldable pub enqueue : Queue → Message → Queue
enqueue q m = record q {
  messages = set q.messages q.tail (some m);
  tail = (q.tail + 1) % max_messages_per_queue;
  count = q.count + 1;
}

unfoldable pub invalid_send : ℤ → ℤ → Bool
invalid_send to size =
    ltb_ℤ to (pos 0)
    || not (ltb_ℤ to (pos max_tasks))
    || ltb_ℤ size (pos 0)
    || ltb_ℤ (pos max_message_size) size

-- From the lock of the destination's queue to the return, with the message built.
unfoldable pub deliver : Ipc → ℕ → Message → Option (Ipc × ℤ)
unfolding enqueue
deliver s to m = do
  q ← lock_queue (s.queues to)
  if leb max_messages_per_queue q.count
      then some (
        record s {
          queues = update s.queues to (unlock_queue q);
          stats = record (s.stats) { queue_full = bump s.stats.queue_full };
        },
        ipc_err_queue_full,
      )
      else some (
        record s {
          queues = update s.queues to (unlock_queue (enqueue q m));
          stats = record (s.stats) { messages_sent = bump s.stats.messages_sent };
          live = s.live + 1;
        },
        ipc_success,
      )

-- `memory` is what malloc returns, `current` the task that get_current_task_id names.
unfoldable pub ipc_send_message :
    Ipc → Option (List ℕ) → ℕ → ℤ → ℤ → Option (List ℕ) → ℤ → ℕ → Option (Ipc × ℤ)
unfolding invalid_send fill_payload deliver
ipc_send_message s memory current to type bytes size flags =
    if invalid_send to size then some (s, ipc_err_invalid_param) else elim memory [
      | none ↦ some (
        record s { stats = record (s.stats) { errors = bump s.stats.errors } },
        ipc_err_no_memory,
      )
      | some garbage ↦ deliver s (pos_part to) (record {
        sender = pos current;
        type = type;
        flags = flags;
        size = size;
        payload = fill_payload garbage bytes size;
      })
    ]

unfoldable pub ipc_send_response :
    Ipc → Option (List ℕ) → ℕ → Option Message → ℤ → Option (List ℕ) → ℤ → ℕ → Option (Ipc × ℤ)
unfolding ipc_send_message
ipc_send_response s memory current none type bytes size flags = some (s, ipc_err_invalid_param)
ipc_send_response s memory current (some original) type bytes size flags =
    ipc_send_message s memory current original.sender type bytes size flags
