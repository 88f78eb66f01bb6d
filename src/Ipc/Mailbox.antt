-- ===== src/Ipc/Mailbox.antt =====
-- What kernel/ipc.c promises: a mailbox for each task, a list of at most 32 messages, oldest
-- first. Also the calls that a client can make, run against the code and against the mailboxes.
use uint_os.Common.{
  ℕ, ◌<◌, ◌≤◌, ◌≡◌, Option, none, some, List, [], ◌∷◌, ◌++◌, ◌==◌, leb, if◌then◌else◌, length,
  update, bit_and,
}
use uint_os.Common.Int.{ℤ, pos, pos_part}
use uint_os.Ipc.Queue.{
  Ipc, Message, Received, max_messages_per_queue, max_message_size, max_tasks, ipc_success,
  ipc_err_invalid_param, ipc_err_no_memory, ipc_err_queue_full, ipc_err_no_message, ipc_flag_nowait,
  fill_payload, invalid_send, ◌>>=◌, ipc_send_message, ipc_send_response,
}
use uint_os.Ipc.Reader.{
  flush_target, invalid_task, copy_out, ipc_receive_message, ipc_peek_message, ipc_message_count,
  ipc_flush_messages, ipc_reset_statistics,
}

abbrev pub Boxes : Type 0
Boxes = ℕ → List Message

unfoldable pub post : Boxes → ℕ → Message → Boxes × ℤ
post b to m =
    if leb max_messages_per_queue (length (b to))
    then (b, ipc_err_queue_full)
    else (update b to (b to ++ (m ∷ [])), ipc_success)

unfoldable pub send : Boxes → Option (List ℕ) → ℕ → ℤ → ℤ → Option (List ℕ) → ℤ → ℕ → Boxes × ℤ
unfolding post
send b memory current to type bytes size flags =
    if invalid_send to size then (b, ipc_err_invalid_param) else elim memory [
      | none ↦ (b, ipc_err_no_memory)
      | some garbage ↦ post b (pos_part to) (record {
        sender = pos current;
        type = type;
        flags = flags;
        size = size;
        payload = fill_payload garbage bytes size;
      })
    ]

-- `none`: the reader blocks.
unfoldable pub receive_from : Boxes → ℕ → List Message → Message → ℕ → Option (Boxes × Received)
receive_from b task [] msg flags =
    if bit_and flags ipc_flag_nowait == 0 then none else some (b, (some msg, ipc_err_no_message))
receive_from b task (m ∷ ms) msg flags =
    some (update b task ms, (some (copy_out m msg), ipc_success))

unfoldable pub receive : Boxes → ℕ → Option Message → ℕ → Option (Boxes × Received)
unfolding receive_from
receive b task none flags = some (b, (none, ipc_err_invalid_param))
receive b task (some msg) flags = receive_from b task (b task) msg flags

unfoldable pub peek_at : List Message → Message → Received
peek_at [] msg = (some msg, ipc_err_no_message)
peek_at (m ∷ ms) msg = (some (copy_out m msg), ipc_success)

unfoldable pub peek : Boxes → ℕ → Option Message → Received
unfolding peek_at
peek b task none = (none, ipc_err_invalid_param)
peek b task (some msg) = peek_at (b task) msg

unfoldable pub flush : Boxes → ℕ → ℤ → Boxes × ℤ
unfolding flush_target invalid_task
flush b current task_id =
    let task = flush_target current task_id in
    if invalid_task task
    then (b, ipc_err_invalid_param)
    else (update b (pos_part task) [], pos (length (b (pos_part task))))

-- The calls of a client; the first number is the task that makes the call.
pub data Call : Type 0 where
  send_call : ℕ → Option (List ℕ) → ℤ → ℤ → Option (List ℕ) → ℤ → ℕ → Call
  respond_call : ℕ → Option (List ℕ) → Option Message → ℤ → Option (List ℕ) → ℤ → ℕ → Call
  receive_call : ℕ → Option Message → ℕ → Call
  peek_call : ℕ → Option Message → Call
  count_call : ℕ → Call
  flush_call : ℕ → ℤ → Call
  reset_call : Call

-- What a call gives back: a code, a message with a code, or a number.
pub data Reply : Type 0 where
  code : ℤ → Reply
  message : Received → Reply
  number : ℕ → Reply

abbrev pub reply {ℓ κ} : {S : Type ℓ} {R : Type κ} → (R → Reply) → S × R → S × Reply
reply f (s, r) = (s, f r)

unfoldable pub code_call : Ipc → Call → Option (Ipc × Reply)
code_call s (send_call me memory to type bytes size flags) = do
  r ← ipc_send_message s memory me to type bytes size flags
  some (reply code r)
code_call s (respond_call me memory original type bytes size flags) = do
  r ← ipc_send_response s memory me original type bytes size flags
  some (reply code r)
code_call s (receive_call me msg flags) = do
  r ← ipc_receive_message [] s me msg flags
  some (reply message r)
code_call s (peek_call me msg) = do r ← ipc_peek_message s me msg; some (reply message r)
code_call s (count_call me) = do r ← ipc_message_count s me; some (reply number r)
code_call s (flush_call me task) = do r ← ipc_flush_messages s me task; some (reply code r)
code_call s reset_call = some (ipc_reset_statistics s, code ipc_success)

unfoldable pub respond :
    Boxes → Option (List ℕ) → ℕ → Option Message → ℤ → Option (List ℕ) → ℤ → ℕ → Boxes × ℤ
unfolding send
respond b memory me none type bytes size flags = (b, ipc_err_invalid_param)
respond b memory me (some original) type bytes size flags =
    send b memory me original.sender type bytes size flags

unfoldable pub box_call : Boxes → Call → Option (Boxes × Reply)
unfolding respond
box_call b (send_call me memory to type bytes size flags) =
    some (reply code (send b memory me to type bytes size flags))
box_call b (respond_call me memory original type bytes size flags) =
    some (reply code (respond b memory me original type bytes size flags))
box_call b (receive_call me msg flags) = do r ← receive b me msg flags; some (reply message r)
box_call b (peek_call me msg) = some (b, message (peek b me msg))
box_call b (count_call me) = some (b, number (length (b me)))
box_call b (flush_call me task) = some (reply code (flush b me task))
box_call b reset_call = some (b, code ipc_success)

-- What the callers owe: task ids in range, a message buffer of 256 bytes from malloc, and as many
-- bytes behind `data` as `size` says.
abbrev pub IsBuffer : Option (List ℕ) → Type 0
IsBuffer none = Unit
IsBuffer (some garbage) = length garbage ≡ max_message_size

abbrev pub HasBytes : Option (List ℕ) → ℤ → Type 0
HasBytes none size = Unit
HasBytes (some bytes) size = pos_part size ≤ length bytes

abbrev pub IsCall : Call → Type 0
IsCall (send_call me memory to type bytes size flags) = IsBuffer memory × HasBytes bytes size
IsCall (respond_call me memory o type bytes size flags) = IsBuffer memory × HasBytes bytes size
IsCall (receive_call me msg flags) = me < max_tasks
IsCall (peek_call me msg) = me < max_tasks
IsCall (count_call me) = me < max_tasks
IsCall (flush_call me task) = me < max_tasks
IsCall reset_call = Unit

-- The replies to a list of calls, up to a call that blocks.
unfoldable pub code_run : Ipc → List Call → List Reply
unfolding code_call
code_run s [] = []
code_run s (c ∷ cs) = elim (code_call s c) [ none ↦ [] | some (s', r) ↦ r ∷ code_run s' cs ]

unfoldable pub box_run : Boxes → List Call → List Reply
unfolding box_call
box_run b [] = []
box_run b (c ∷ cs) = elim (box_call b c) [ none ↦ [] | some (b', r) ↦ r ∷ box_run b' cs ]
