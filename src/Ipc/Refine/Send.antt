-- ===== src/Ipc/Refine/Send.antt =====
-- ipc_send_message of kernel/ipc.c against the mailboxes.
use uint_os.Common.{
  ℕ, ◌<◌, ◌≤◌, ◌≡◌, refl, ap, Option, none, some, List, [], ◌∷◌, ◌++◌, arith, length, leb,
  Bool-cases, inl, inr, length-append, length-copy_bytes, sym, false,
}
use uint_os.Common.Int.{ℤ, pos_part, neg_part}
use uint_os.Ipc.Queue.{
  Ipc, Message, Queue, max_tasks, max_messages_per_queue, max_message_size, unlock_queue, deliver,
  enqueue, invalid_send, fill_payload, ipc_send_message,
}
use uint_os.Ipc.Holds.{IsMessage, Holds, lock_queue-free, unlock-Holds, enqueue-Holds}
use uint_os.Sync.Spinlock.{release}
use uint_os.Ipc.Mailbox.{Boxes, post, send, IsBuffer, HasBytes}
use uint_os.Ipc.Refine.{Represents, Refined, keep_box, change_box}

-- The last part of a send appends to the mailbox, or finds it full.
deliver_refines :
    {s : Ipc} {b : Boxes} (to : ℕ) (m : Message)
    → Represents s b
    → to < max_tasks
    → IsMessage m
    → Refined (deliver s to m) (some (post b to m))
unfolding deliver post release
deliver_refines {s} {b} to m h lt fit =
    rw (lock_queue-free q hq.free, same)
      (elim (Bool-cases (leb max_messages_per_queue q.count)) [
        | inl full ↦ rw full (keep_box _ to (unlock_queue q) h (unlock-Holds hq) refl refl, refl)
        | inr room ↦ rw room (
          change_box _ to (unlock_queue (enqueue q m)) (b to ++ (m ∷ [])) h lt
              (unlock-Holds (enqueue-Holds m hq (ground arith) fit)) refl
              (omega (arith, length-append (b to) (m ∷ []))),
          refl,
        )
      ])
  where
    q : Queue
    q = s.queues to

    hq : Holds q (b to)
    hq = h.holds to lt

    same : leb max_messages_per_queue (length (b to)) ≡ leb max_messages_per_queue q.count
    same = ap (leb max_messages_per_queue) (sym hq.counted)

valid_send :
    (to size : ℤ)
    → invalid_send to size ≡ false
    → (pos_part to < max_tasks) × (pos_part size ≤ max_message_size) × (neg_part size ≡ 0)
unfolding invalid_send
valid_send to size h = ground arith

-- What `fill_payload` leaves is a whole array.
length-fill_payload :
    (garbage : List ℕ) (bytes : Option (List ℕ)) (size : ℤ)
    → length garbage ≡ max_message_size
    → pos_part size ≤ max_message_size
    → HasBytes bytes size
    → length (fill_payload garbage bytes size) ≡ max_message_size
unfolding fill_payload
length-fill_payload garbage none size hg hs hb = hg
length-fill_payload garbage (some bytes) size hg hs hb =
    ground (arith, length-copy_bytes (pos_part size) bytes garbage)

-- A call of ipc_send_message does what the mailboxes do.
pub send_refines :
    {s : Ipc} {b : Boxes} (memory : Option (List ℕ)) (current : ℕ) (to type : ℤ)
    (bytes : Option (List ℕ)) (size : ℤ) (flags : ℕ)
    → Represents s b
    → IsBuffer memory
    → HasBytes bytes size
    → Refined
        (ipc_send_message s memory current to type bytes size flags)
        (some (send b memory current to type bytes size flags))
unfolding ipc_send_message send
send_refines none current to type bytes size flags h hm hb =
    elim (Bool-cases (invalid_send to size)) [
      | inl bad ↦ rw bad (h, refl)
      | inr good ↦ rw good (record { holds = h.holds; owned = h.owned }, refl)
    ]
send_refines (some garbage) current to type bytes size flags h hm hb =
    elim (Bool-cases (invalid_send to size)) [
      | inl bad ↦ rw bad (h, refl)
      | inr good ↦ rw good (
          deliver_refines (pos_part to) _ h (valid_send to size good).0 (
            (valid_send to size good).1,
            (valid_send to size good).2,
            length-fill_payload garbage bytes size hm (valid_send to size good).1 hb,
          ))
    ]
