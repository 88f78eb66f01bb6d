-- ===== src/Ipc/Refine/Receive.antt =====
-- ipc_receive_message and ipc_peek_message of kernel/ipc.c against the mailboxes.
use uint_os.Common.{
  ℕ, ◌<◌, ◌≡◌, refl, ap, get_or, bit_and, ==_iff, ◌∙◌, Option, none, some, List, [], ◌∷◌, arith,
  length, ◌==◌, update, total-update, Bool-cases, inl, inr, true, false,
}
use uint_os.Ipc.Queue.{Ipc, Message, Queue, max_tasks, unlock_queue, ipc_success, ipc_flag_nowait}
use uint_os.Ipc.Reader.{
  take_message, copy_out, dequeue, ipc_receive_message, wait_message, ipc_peek_message,
}
use uint_os.Ipc.Holds.{Holds, lock_queue-free, unlock-Holds, dequeue-Holds}
use uint_os.Sync.Spinlock.{release, locked}
use uint_os.Ipc.Mailbox.{Boxes, receive_from, receive, peek, peek_at}
use uint_os.Ipc.Refine.{Represents, Refined, keep_box, change_box}

-- With a message at hand, a reader takes the oldest one.
pub take_refines :
    {s : Ipc} {b : Boxes} (task : ℕ) (m : Message) (ms : List Message) (msg : Message)
    → Represents s b
    → task < max_tasks
    → b task ≡ m ∷ ms
    → Refined
        (take_message s task (record (s.queues task) { lock = locked }) msg)
        (some (update b task ms, (some (copy_out m msg), ipc_success)))
unfolding take_message release
take_refines {s} {b} task m ms msg h lt e = rw taken.0 (
  change_box _ task (unlock_queue (dequeue q)) ms h lt (unlock-Holds taken.1) refl
      (omega (arith, h.owned, total-update length max_tasks b task [] lt, ap length e)),
  refl,
)
  where
    q : Queue
    q = s.queues task

    taken : (get_or q.messages q.head none ≡ some m) × Holds (dequeue q) ms
    taken = dequeue-Holds m (rw e at (h.holds task lt))

-- A call of ipc_receive_message on a queue that holds `box`.
receive_from_refines :
    {s : Ipc} {b : Boxes} (task : ℕ) (box : List Message) (msg : Message) (flags : ℕ)
    → Represents s b
    → task < max_tasks
    → b task ≡ box
    → Refined (ipc_receive_message [] s task (some msg) flags) (receive_from b task box msg flags)
unfolding ipc_receive_message receive_from wait_message release
receive_from_refines {s} {b} task [] msg flags h lt e =
    rw (lock_queue-free (s.queues task) hq.free, empty)
      (elim (Bool-cases (bit_and flags ipc_flag_nowait == 0)) [
        | inl blocks ↦ rw blocks tt
        | inr nowait ↦
            rw nowait
              (keep_box _ task (unlock_queue (s.queues task)) h (unlock-Holds hq) refl refl, refl)
      ])
  where
    hq : Holds (s.queues task) (b task)
    hq = h.holds task lt

    empty : ((s.queues task).count == 0) ≡ true
    empty = (==_iff _ 0).1 (hq.counted ∙ ap length e)
receive_from_refines {s} {b} task (m ∷ ms) msg flags h lt e =
    rw (lock_queue-free (s.queues task) hq.free, some_left) (take_refines task m ms msg h lt e)
  where
    hq : Holds (s.queues task) (b task)
    hq = h.holds task lt

    some_left : ((s.queues task).count == 0) ≡ false
    some_left = ground (arith, hq.counted, ap length e)

pub receive_refines :
    {s : Ipc} {b : Boxes} (task : ℕ) (msg : Option Message) (flags : ℕ)
    → Represents s b
    → task < max_tasks
    → Refined (ipc_receive_message [] s task msg flags) (receive b task msg flags)
unfolding ipc_receive_message receive
receive_refines task none flags h lt = (h, refl)
receive_refines {b} task (some msg) flags h lt =
    receive_from_refines task (b task) msg flags h lt refl

peek_at_refines :
    {s : Ipc} {b : Boxes} (task : ℕ) (box : List Message) (msg : Message)
    → Represents s b
    → task < max_tasks
    → b task ≡ box
    → Refined (ipc_peek_message s task (some msg)) (some (b, peek_at box msg))
unfolding ipc_peek_message peek_at release
peek_at_refines {s} {b} task [] msg h lt e =
    rw (lock_queue-free (s.queues task) hq.free, empty)
      (keep_box _ task (unlock_queue (s.queues task)) h (unlock-Holds hq) refl refl, refl)
  where
    hq : Holds (s.queues task) (b task)
    hq = h.holds task lt

    empty : ((s.queues task).count == 0) ≡ true
    empty = (==_iff _ 0).1 (hq.counted ∙ ap length e)
peek_at_refines {s} {b} task (m ∷ ms) msg h lt e =
    rw (lock_queue-free (s.queues task) hq.free, some_left, oldest)
      (keep_box _ task (unlock_queue (s.queues task)) h (unlock-Holds hq) refl refl, refl)
  where
    hq : Holds (s.queues task) (b task)
    hq = h.holds task lt

    some_left : ((s.queues task).count == 0) ≡ false
    some_left = ground (arith, hq.counted, ap length e)

    oldest : get_or (s.queues task).messages (s.queues task).head none ≡ some m
    oldest = (dequeue-Holds m (rw e at hq)).0

pub peek_refines :
    {s : Ipc} {b : Boxes} (task : ℕ) (msg : Option Message)
    → Represents s b
    → task < max_tasks
    → Refined (ipc_peek_message s task msg) (some (b, peek b task msg))
unfolding ipc_peek_message peek
peek_refines task none h lt = (h, refl)
peek_refines {b} task (some msg) h lt = peek_at_refines task (b task) msg h lt refl
