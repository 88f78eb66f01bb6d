-- ===== src/Ipc/Tests.antt =====
-- The theorems on kernel/ipc.c at concrete inputs.
use uint_os.Common.{
  All, ℕ, ◌≡◌, refl, none, some, List, [], ◌∷◌, arith, replicate, update, length-replicate,
}
use uint_os.Common.Int.{pos, negsuc}
use uint_os.Sync.Spinlock.{locked, unlocked}
use uint_os.Ipc.Queue.{Ipc, Message, Queue, no_stats, ipc_init}
use uint_os.Ipc.Holds.{Holds}
use uint_os.Ipc.Mailbox.{
  Call, send_call, receive_call, peek_call, count_call, flush_call, IsCall, code_run, box_run,
}
use uint_os.Ipc.Refine.{Represents, change_box}
use uint_os.Common.Ring.{items}
use uint_os.Ipc.Laws.{init-Represents, run_refines}

-- The statics before ipc_init; a lock reads 1 by chance.
abbrev cold_queue : Queue
cold_queue = record {
  messages = replicate 32 none;
  head = 0;
  tail = 0;
  count = 0;
  task_id = 0;
  lock = locked;
}

abbrev cold : Ipc
cold = record { queues = λ _. cold_queue; stats = no_stats; live = 0 }

started-Represents : Represents (ipc_init cold) (λ _. [])
started-Represents = init-Represents cold (λ i. refl) refl

abbrev buffer : List ℕ
buffer = replicate 256 0

abbrev blank : Message
blank = record { sender = pos 0; type = pos 0; flags = 0; size = pos 0; payload = [] }

-- Task 1 sends two messages to task 2, which counts, peeks and reads, and then flushes.
abbrev calls : List Call
calls =
    send_call 1 (some buffer) (pos 2) (pos 7) (some (4 ∷ 5 ∷ [])) (pos 2) 0
    ∷ send_call 1 (some buffer) (pos 2) (pos 8) none (pos 0) 0
    ∷ send_call 1 none (pos 2) (pos 8) none (pos 0) 0
    ∷ count_call 2
    ∷ peek_call 2 (some blank)
    ∷ receive_call 2 (some blank) 1
    ∷ flush_call 2 (negsuc 0)
    ∷ []

calls-IsCall : All IsCall calls
calls-IsCall = (
  (length-replicate {A = ℕ} 256 0, omega arith),
  (
    (length-replicate {A = ℕ} 256 0, tt),
    ((tt, tt), (omega arith, (omega arith, (omega arith, (omega arith, tt))))),
  ),
)

run_refines_example : code_run (ipc_init cold) calls ≡ box_run (λ _. []) calls
run_refines_example = run_refines calls started-Represents calls-IsCall

-- Task 2 with one message in its queue.
abbrev hello : Message
hello = record { sender = pos 1; type = pos 7; flags = 0; size = pos 0; payload = buffer }

abbrev one_message : Queue
one_message = record {
  messages = some hello ∷ replicate 31 none;
  head = 0;
  tail = 1;
  count = 1;
  task_id = 2;
  lock = unlocked;
}

abbrev loaded : Ipc
loaded = record { queues = update (ipc_init cold).queues 2 one_message; stats = no_stats; live = 1 }

one_message-Holds : Holds one_message (hello ∷ [])
unfolding items
one_message-Holds = record {
  room = refl;
  head_in = omega arith;
  tail_at = refl;
  counted = refl;
  few = omega arith;
  slots = refl;
  fits = ((omega arith, refl, length-replicate {A = ℕ} 256 0), tt);
  free = refl;
}

loaded-Represents : Represents loaded (update (λ _. []) 2 (hello ∷ []))
unfolding ipc_init
loaded-Represents =
    change_box loaded 2 one_message (hello ∷ []) started-Represents (omega arith) one_message-Holds
      refl refl

started_idle : (((ipc_init cold).queues 2).count ≡ 0) × (((ipc_init cold).queues 2).lock.lock ≡ 0)
unfolding ipc_init
started_idle = (refl, refl)
