-- ===== src/Ipc/Laws.antt =====
-- What clients of kernel/ipc.c can rely on.
use uint_os.Common.{
  ℕ, ◌<◌, ◌≤◌, ◌≡◌, refl, ap, ◌∙◌, Option, none, some, List, [], ◌∷◌, ◌++◌, arith, length, update,
  All, take, take-copy_bytes, total-zero, ltb, total, true, false, copy_bytes, le-length-copy_bytes,
  sym,
}
use mathlib.Core.Path.{ap₂}
use uint_os.Common.Int.{ℤ, pos, ltb_ℤ}
use uint_os.Common.Ring.{items}
use uint_os.Ipc.Queue.{
  Ipc, Message, max_tasks, max_messages_per_queue, ipc_success, ipc_init, fill_payload,
}
use uint_os.Ipc.Reader.{copy_out, wait_message}
use uint_os.Ipc.Holds.{lock_queue-free}
use uint_os.Ipc.Mailbox.{Boxes, Call, Reply, IsCall, code_run, box_run, code_call, box_call}
use uint_os.Ipc.Refine.{Represents, Refined}
use uint_os.Ipc.Refine.Receive.{take_refines}
use uint_os.Ipc.Refine.Calls.{call_refines}

-- After ipc_init every queue is empty and well formed, and its lock is free, when its array has
-- its 32 slots and no message is allocated.
pub init-Represents :
    (s : Ipc)
    → ((i : ℕ) → length (s.queues i).messages ≡ max_messages_per_queue)
    → s.live ≡ 0
    → Represents (ipc_init s) (λ _. [])
unfolding ipc_init items
init-Represents s room none_live = record {
  holds = λ i lt. rw (small i lt) (record {
    room = room i;
    head_in = omega arith;
    tail_at = refl;
    counted = refl;
    few = omega arith;
    slots = refl;
    fits = tt;
    free = refl;
  });
  owned = none_live ∙ sym_zero;
}
  where
    small : (i : ℕ) → i < max_tasks → ltb i max_tasks ≡ true
    small i lt = ground arith

    sym_zero : 0 ≡ total (length {A = Message}) max_tasks (λ _. [])
    sym_zero = sym (total-zero (length {A = Message}) max_tasks (λ _. []) (λ _. refl))

run_from :
    (r : Option (Ipc × Reply)) (r' : Option (Boxes × Reply)) (cs : List Call)
    → Refined r r'
    → ((s : Ipc) (b : Boxes) → Represents s b → code_run s cs ≡ box_run b cs)
    → (elim r [ none ↦ [] | some (s', x) ↦ x ∷ code_run s' cs ])
      ≡ (elim r' [ none ↦ [] | some (b', x) ↦ x ∷ box_run b' cs ])
run_from none none cs h rest = refl
run_from (some (s, x)) (some (b, y)) cs h rest = ap₂ ◌∷◌ h.1 (rest s b h.0)
run_from none (some y) cs h rest = absurd h
run_from (some x) none cs h rest = absurd h

-- No sequence of calls, by any tasks, tells the queues from the mailboxes: from a state that
-- represents mailboxes, the replies to valid calls are those of the mailboxes, up to the first
-- call that blocks.
pub run_refines :
    (cs : List Call) {s : Ipc} {b : Boxes}
    → Represents s b
    → All IsCall cs
    → code_run s cs ≡ box_run b cs
unfolding code_run box_run
run_refines [] h ok = refl
run_refines (c ∷ cs) {s} {b} h ok =
    run_from (code_call s c) (box_call b c) cs (call_refines c h ok.0)
      (λ s' b' h'. run_refines cs h' ok.1)

-- The busy wait ends at the first state in which the reader's queue holds a message, and takes the
-- oldest one from there; states where it is empty are passed over.
wait_message_lem :
    (empty : List Ipc) {s : Ipc} {b : Boxes} (rest : List Ipc) (task : ℕ) (m : Message)
    (ms : List Message) (msg : Message)
    → All (λ w. ((w.queues task).count ≡ 0) × ((w.queues task).lock.lock ≡ 0)) empty
    → Represents s b
    → task < max_tasks
    → b task ≡ m ∷ ms
    → Refined
        (wait_message (empty ++ (s ∷ rest)) task msg)
        (some (update b task ms, (some (copy_out m msg), ipc_success)))
unfolding wait_message
wait_message_lem [] {s} {b} rest task m ms msg idle h lt e =
    rw (lock_queue-free (s.queues task) (h.holds task lt).free, filled)
      (take_refines task m ms msg h lt e)
  where
    filled : ltb 0 (s.queues task).count ≡ true
    filled = ground (arith, (h.holds task lt).counted, ap length e)
wait_message_lem (w ∷ ws) {s} {b} rest task m ms msg idle h lt e =
    rw (lock_queue-free (w.queues task) idle.0.1, nothing)
      (wait_message_lem ws rest task m ms msg idle.1 h lt e)
  where
    nothing : ltb 0 (w.queues task).count ≡ false
    nothing = ground (arith, idle.0.0)

-- What is sent is what is read: the size, and as many bytes of the reader's array as the size says
-- are the sender's, whatever was in the message's memory and in the reader's array before.
copy_out-fill_payload :
    (garbage bytes : List ℕ) (n : ℕ) (sender type : ℤ) (flags : ℕ) (msg : Message)
    → 0 < n
    → n ≤ length bytes
    → let sent : Message = record {
      sender = sender;
      type = type;
      flags = flags;
      size = pos n;
      payload = fill_payload garbage (some bytes) (pos n);
    } in
      ((copy_out sent msg).size ≡ pos n) × (take n (copy_out sent msg).payload ≡ take n bytes)
unfolding copy_out fill_payload
copy_out-fill_payload garbage bytes n sender type flags msg hn hb = rw positive (
  refl,
  take-copy_bytes n (copy_bytes n bytes garbage) msg.payload
        (le-length-copy_bytes n bytes garbage hb)
      ∙ take-copy_bytes n bytes garbage hb,
)
  where
    positive : ltb_ℤ (pos 0) (pos n) ≡ true
    positive = ground arith

-- A send with NULL data and a positive size succeeds with a message of that size, and its reader
-- gets the bytes that the memory of the message held before.
null_data_leaks :
    (garbage : List ℕ) (n : ℕ) (sender type : ℤ) (flags : ℕ) (msg : Message)
    → 0 < n
    → n ≤ length garbage
    → let sent : Message = record {
      sender = sender;
      type = type;
      flags = flags;
      size = pos n;
      payload = fill_payload garbage none (pos n);
    } in
      take n (copy_out sent msg).payload ≡ take n garbage
unfolding copy_out fill_payload
null_data_leaks garbage n sender type flags msg hn hb =
    rw positive (take-copy_bytes n garbage msg.payload hb)
  where
    positive : ltb_ℤ (pos 0) (pos n) ≡ true
    positive = ground arith
