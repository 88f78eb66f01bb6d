-- ===== src/Ipc/Refine/Calls.antt =====
-- The other calls of kernel/ipc.c, and any call, against the mailboxes.
use uint_os.Common.{
  ℕ, ◌+◌, ◌%◌, ◌<◌, ◌≡◌, refl, ap, ◌∙◌, Option, none, some, List, [], arith, length, update,
  total-update, Bool-cases, inl, inr, false,
}
use uint_os.Common.Int.{ℤ, pos, pos_part}
use uint_os.Common.Ring.{items}
use uint_os.Ipc.Queue.{
  Ipc, Message, Queue, max_tasks, max_messages_per_queue, unlock_queue, ipc_send_response, ◌>>=◌,
}
use uint_os.Ipc.Reader.{
  ipc_message_count, ipc_flush_messages, flush_queue, flush_slots, ipc_reset_statistics,
  flush_target, invalid_task,
}
use uint_os.Ipc.Holds.{Holds, lock_queue-free, unlock-Holds, flush_slots_lem}
use uint_os.Sync.Spinlock.{release}
use uint_os.Ipc.Mailbox.{
  Boxes, flush, respond, Call, send_call, respond_call, receive_call, peek_call, count_call,
  flush_call, reset_call, Reply, code, message, number, reply, code_call, box_call, IsCall,
  IsBuffer, HasBytes,
}
use uint_os.Ipc.Refine.{Represents, Refined, keep_box, change_box}
use uint_os.Ipc.Refine.Send.{send_refines}
use uint_os.Ipc.Refine.Receive.{receive_refines, peek_refines}

pub count_refines :
    {s : Ipc} {b : Boxes} (task : ℕ)
    → Represents s b
    → task < max_tasks
    → Refined (ipc_message_count s task) (some (b, length (b task)))
unfolding ipc_message_count release
count_refines {s} {b} task h lt =
    rw (lock_queue-free (s.queues task) hq.free)
      (keep_box _ task (unlock_queue (s.queues task)) h (unlock-Holds hq) refl refl, hq.counted)
  where
    hq : Holds (s.queues task) (b task)
    hq = h.holds task lt

-- The part of ipc_flush_messages behind the check of the task id.
flush_queue_refines :
    {s : Ipc} {b : Boxes} (task : ℕ)
    → Represents s b
    → task < max_tasks
    → Refined (flush_queue s task) (some (update b task [], pos (length (b task))))
unfolding flush_queue release items
flush_queue_refines {s} {b} task h lt = rw (lock_queue-free q hq.free) (
  change_box _ task _ [] h lt
      (record {
        room = freed.0;
        head_in = omega arith;
        tail_at = refl;
        counted = refl;
        few = omega arith;
        slots = refl;
        fits = tt;
        free = refl;
      })
      refl
      (omega (arith, h.owned, total-update length max_tasks b task [] lt, freed.1, hq.counted)),
  ap pos (freed.1 ∙ hq.counted),
)
  where
    q : Queue
    q = s.queues task

    hq : Holds q (b task)
    hq = h.holds task lt

    start : (q.head + 0) % max_messages_per_queue ≡ q.head
    start = omega (arith, hq.head_in)

    freed :
        (length (flush_slots q.count 0 q.head q.messages 0).0 ≡ max_messages_per_queue)
        × ((flush_slots q.count 0 q.head q.messages 0).1 ≡ q.count)
    freed = omega (
      arith,
      flush_slots_lem q.count 0 q.head q.messages 0 (b task) hq.room hq.head_in
          (omega (arith, hq.few)) (rw start hq.slots),
    )

valid_task : (task : ℤ) → invalid_task task ≡ false → pos_part task < max_tasks
unfolding invalid_task
valid_task task h = ground arith

pub flush_refines :
    {s : Ipc} {b : Boxes} (current : ℕ) (task_id : ℤ)
    → Represents s b
    → current < max_tasks
    → Refined (ipc_flush_messages s current task_id) (some (flush b current task_id))
unfolding ipc_flush_messages flush
flush_refines current task_id h lt =
    elim (Bool-cases (invalid_task (flush_target current task_id))) [
      | inl bad ↦ rw bad (h, refl)
      | inr good ↦ rw good (
          flush_queue_refines (pos_part (flush_target current task_id)) h
            (valid_task (flush_target current task_id) good))
    ]

respond_refines :
    {s : Ipc} {b : Boxes} (memory : Option (List ℕ)) (me : ℕ) (original : Option Message) (type : ℤ)
    (bytes : Option (List ℕ)) (size : ℤ) (flags : ℕ)
    → Represents s b
    → IsBuffer memory
    → HasBytes bytes size
    → Refined
        (ipc_send_response s memory me original type bytes size flags)
        (some (respond b memory me original type bytes size flags))
unfolding ipc_send_response respond
respond_refines memory me none type bytes size flags h hm hb = (h, refl)
respond_refines memory me (some o) type bytes size flags h hm hb =
    send_refines memory me o.sender type bytes size flags h hm hb

-- A result passed on through `reply`.
reply_refines :
    {R : Type 0} (f : R → Reply) (r : Option (Ipc × R)) (r' : Option (Boxes × R))
    → Refined r r'
    → Refined (r >>= λ x. some (reply f x)) (r' >>= λ x. some (reply f x))
reply_refines f none none h = tt
reply_refines f (some (s, x)) (some (b, y)) h = (h.0, ap f h.1)
reply_refines f none (some y) h = absurd h
reply_refines f (some x) none h = absurd h

-- Every call does to the queues what it does to the mailboxes, and replies the same.
pub call_refines :
    {s : Ipc} {b : Boxes} (c : Call)
    → Represents s b
    → IsCall c
    → Refined (code_call s c) (box_call b c)
unfolding code_call box_call ipc_reset_statistics
call_refines (send_call me memory to type bytes size flags) h ok =
    reply_refines code _ _ (send_refines memory me to type bytes size flags h ok.0 ok.1)
call_refines (respond_call me memory o type bytes size flags) h ok =
    reply_refines code _ _ (respond_refines memory me o type bytes size flags h ok.0 ok.1)
call_refines (receive_call me msg flags) h ok =
    reply_refines message _ _ (receive_refines me msg flags h ok)
call_refines (peek_call me msg) h ok = reply_refines message _ _ (peek_refines me msg h ok)
call_refines (count_call me) h ok = reply_refines number _ _ (count_refines me h ok)
call_refines (flush_call me task) h ok = reply_refines code _ _ (flush_refines me task h ok)
call_refines reset_call h ok = (record { holds = h.holds; owned = h.owned }, refl)
