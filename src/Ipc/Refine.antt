-- ===== src/Ipc/Refine.antt =====
-- What it means that the queues of kernel/ipc.c behave as the mailboxes.
pub mod Send
pub mod Receive
pub mod Calls
use uint_os.Common.{
  ℕ, ◌+◌, ◌%◌, ◌<◌, ◌≤◌, ◌≡◌, refl, ap, get_or, bit_and, ==_iff, ◌∙◌, Option, none, some, List, [],
  ◌∷◌, ◌++◌, arith, length, leb, ◌==◌, update, update_all, update_both, total, total-update,
  Bool-cases, inl, inr, length-append, length-copy_bytes, sym, true, false,
}
use uint_os.Common.Int.{ℤ, pos, pos_part, neg_part}
use uint_os.Common.Ring.{items}
use uint_os.Ipc.Queue.{
  Ipc, Message, Queue, max_tasks, max_messages_per_queue, max_message_size, unlock_queue, deliver,
  enqueue, invalid_send, fill_payload, ipc_send_message, ipc_success, ipc_send_response, ◌>>=◌,
  ipc_flag_nowait,
}
use uint_os.Ipc.Reader.{
  take_message, copy_out, dequeue, ipc_receive_message, wait_message, ipc_peek_message,
  ipc_message_count, ipc_flush_messages, flush_queue, flush_slots, ipc_reset_statistics,
  flush_target, invalid_task,
}
use uint_os.Ipc.Holds.{
  IsMessage, Holds, lock_queue-free, unlock-Holds, enqueue-Holds, dequeue-Holds, flush_slots_lem,
}
use uint_os.Sync.Spinlock.{release, locked}
use uint_os.Ipc.Mailbox.{
  Boxes, post, send, receive_from, receive, peek, peek_at, flush, respond, Call, send_call,
  respond_call, receive_call, peek_call, count_call, flush_call, reset_call, Reply, code, message,
  number, reply, code_call, box_call, IsCall, IsBuffer, HasBytes,
}

-- Every queue holds its mailbox, and the messages allocated are those in the queues.
pub record Represents (s : Ipc) (b : Boxes) : Type 0 where
  pub holds : (i : ℕ) → i < max_tasks → Holds (s.queues i) (b i)
  pub owned : s.live ≡ total length max_tasks b

-- The code's result against the specification's.
abbrev pub Refined : {R : Type 0} → Option (Ipc × R) → Option (Boxes × R) → Type 0
Refined none none = Unit
Refined (some (s, r)) (some (b, r')) = Represents s b × (r ≡ r')
Refined _ _ = ⊥

-- One queue is replaced, and holds what it held.
pub keep_box :
    {s : Ipc} {b : Boxes} (s' : Ipc) (i : ℕ) (q : Queue)
    → Represents s b
    → Holds q (b i)
    → s'.queues ≡ update s.queues i q
    → s'.live ≡ s.live
    → Represents s' b
keep_box {s} {b} s' i q h hq e el = record {
  holds = rw e (update_all (λ j p. j < max_tasks → Holds p (b j)) s.queues i q (λ _. hq) h.holds);
  owned = ground (arith, h.owned);
}

-- One queue and its mailbox are replaced.
pub change_box :
    {s : Ipc} {b : Boxes} (s' : Ipc) (i : ℕ) (q : Queue) (ms : List Message)
    → Represents s b
    → i < max_tasks
    → Holds q ms
    → s'.queues ≡ update s.queues i q
    → s'.live + length (b i) ≡ s.live + length ms
    → Represents s' (update b i ms)
change_box {s} {b} s' i q ms h lt hq e el = record {
  holds =
      rw e (update_both (λ j p l. j < max_tasks → Holds p l) s.queues b i q ms (λ _. hq) h.holds);
  owned = omega (arith, h.owned, total-update length max_tasks b i ms lt);
}
