-- ===== src/Ipc/Reader.antt =====
-- The reader's side of kernel/ipc.c, the counters, and ipc_flush_messages.
use uint_os.Common.{
  ℕ, zero, suc, ◌+◌, ◌-◌, ◌%◌, Bool, not, ◌||◌, Option, none, some, List, [], ◌∷◌, ◌==◌, ltb,
  if◌then◌else◌, get_or, set, copy_bytes, update, bit_and,
}
use uint_os.Common.Int.{ℤ, pos, negsuc, pos_part, ltb_ℤ, ◌==ℤ◌}
use uint_os.Ipc.Queue.{
  max_messages_per_queue, max_tasks, ipc_success, ipc_err_invalid_param, ipc_err_no_message,
  ipc_flag_nowait, Message, Queue, Stats, no_stats, Ipc, Received, bump, put_queue, ◌>>=◌,
  lock_queue, unlock_queue,
}

-- What the reader's structure holds after the fields are copied.
unfoldable pub copy_out : Message → Message → Message
copy_out received msg = record {
  sender = received.sender;
  type = received.type;
  flags = received.flags;
  size = received.size;
  payload =
      if ltb_ℤ (pos 0) received.size
      then copy_bytes (pos_part received.size) received.payload msg.payload
      else msg.payload;
}

-- The queue without the message at its head.
unfoldable pub dequeue : Queue → Queue
dequeue q = record q {
  messages = set q.messages q.head none;
  head = (q.head + 1) % max_messages_per_queue;
  count = q.count - 1;
}

-- From "Get the message from the queue" to the return, with the lock held.
unfoldable pub take_message : Ipc → ℕ → Queue → Message → Option (Ipc × Received)
unfolding copy_out dequeue
take_message s task q msg = do
  received ← get_or q.messages q.head none
  some (
    record s {
      queues = update s.queues task (unlock_queue (dequeue q));
      stats = record (s.stats) { messages_received = bump s.stats.messages_received };
      live = s.live - 1;
    },
    (some (copy_out received msg), ipc_success),
  )

-- The busy wait: the list is the state that each call of switch_task comes back to.
unfoldable pub wait_message : List Ipc → ℕ → Message → Option (Ipc × Received)
unfolding take_message
wait_message [] task msg = none
wait_message (s ∷ rest) task msg =
    let again = wait_message rest task msg in
    do q ← lock_queue (s.queues task); if ltb 0 q.count then take_message s task q msg else again

unfoldable pub ipc_receive_message :
    List Ipc → Ipc → ℕ → Option Message → ℕ → Option (Ipc × Received)
unfolding take_message wait_message
ipc_receive_message wakes s task none flags = some (s, (none, ipc_err_invalid_param))
ipc_receive_message wakes s task (some msg) flags = do
  q ← lock_queue (s.queues task)
  if q.count == 0
      then (if bit_and flags ipc_flag_nowait == 0
          then wait_message wakes task msg
          else some (put_queue s task (unlock_queue q), (some msg, ipc_err_no_message)))
      else take_message s task q msg

unfoldable pub ipc_peek_message : Ipc → ℕ → Option Message → Option (Ipc × Received)
unfolding copy_out
ipc_peek_message s task none = some (s, (none, ipc_err_invalid_param))
ipc_peek_message s task (some msg) = do
  q ← lock_queue (s.queues task)
  if q.count == 0
      then some (put_queue s task (unlock_queue q), (some msg, ipc_err_no_message))
      else do
        peeked ← get_or q.messages q.head none
        some (put_queue s task (unlock_queue q), (some (copy_out peeked msg), ipc_success))

unfoldable pub ipc_message_count : Ipc → ℕ → Option (Ipc × ℕ)
ipc_message_count s task = do
  q ← lock_queue (s.queues task)
  some (put_queue s task (unlock_queue q), q.count)

-- The caller's structure after the call; NULL stays NULL.
unfoldable pub ipc_get_statistics : Ipc → Option Stats → Option Stats
ipc_get_statistics s none = none
ipc_get_statistics s (some _) = some s.stats

unfoldable pub ipc_reset_statistics : Ipc → Ipc
ipc_reset_statistics s = record s { stats = no_stats }

-- The loop of `ipc_flush_messages`: the rounds left, i, the slots and `flushed`.
unfoldable pub flush_slots : ℕ → ℕ → ℕ → List (Option Message) → ℕ → List (Option Message) × ℕ
flush_slots zero i head messages flushed = (messages, flushed)
flush_slots (suc n) i head messages flushed =
    let index = (head + i) % max_messages_per_queue in
    elim (get_or messages index none) [
      | none ↦ flush_slots n (i + 1) head messages flushed
      | some m ↦ flush_slots n (i + 1) head (set messages index none) (flushed + 1)
    ]

unfoldable pub flush_queue : Ipc → ℕ → Option (Ipc × ℤ)
unfolding flush_slots
flush_queue s task = do
  q ← lock_queue (s.queues task)
  let (messages, flushed) = flush_slots q.count 0 q.head q.messages 0
  some (
    record s {
      queues =
          update s.queues task
            (unlock_queue (record q { messages = messages; head = 0; tail = 0; count = 0 }));
      live = s.live - flushed;
    },
    pos flushed,
  )

-- -1 stands for the current task.
unfoldable pub flush_target : ℕ → ℤ → ℤ
flush_target current task_id = if task_id ==ℤ negsuc 0 then pos current else task_id

unfoldable pub invalid_task : ℤ → Bool
invalid_task task = ltb_ℤ task (pos 0) || not (ltb_ℤ task (pos max_tasks))

unfoldable pub ipc_flush_messages : Ipc → ℕ → ℤ → Option (Ipc × ℤ)
unfolding flush_target invalid_task flush_queue
ipc_flush_messages s current task_id =
    let task = flush_target current task_id in
    if invalid_task task then some (s, ipc_err_invalid_param) else flush_queue s (pos_part task)
