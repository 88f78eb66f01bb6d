-- ===== src/Ipc/Holds.antt =====
-- What a queue of kernel/ipc.c holds, as a list of messages, and how the steps of the handlers
-- change it.
use uint_os.Common.{
  ℕ, zero, suc, ◌+◌, ◌-◌, ◌%◌, ◌≤◌, ◌<◌, ◌≡◌, refl, sym, ap, ◌∙◌, Option, none, some, List, [], ◌∷◌,
  ◌++◌, map, map-append, arith, length, get_or, set, length-set, length-append, All, All-append,
}
use uint_os.Common.Int.{pos_part, neg_part}
use uint_os.Common.Ring.{items, items_head, items-set_tail, items-set_before, length-items}
use uint_os.Sync.Spinlock.{acquire, release, locked}
use uint_os.Ipc.Queue.{
  Message, Queue, max_messages_per_queue, max_message_size, lock_queue, unlock_queue, enqueue,
}
use uint_os.Ipc.Reader.{dequeue, flush_slots}

-- A message that fits: its size is in range and its array is whole.
abbrev pub IsMessage : Message → Type 0
IsMessage m =
    (pos_part m.size ≤ max_message_size)
    × (neg_part m.size ≡ 0)
    × (length m.payload ≡ max_message_size)

-- The slots from head on.
abbrev pub slots_of : Queue → List (Option Message)
slots_of q = items none max_messages_per_queue q.messages q.head q.count

-- The queue is well formed and holds `ms`, oldest first.
pub record Holds (q : Queue) (ms : List Message) : Type 0 where
  pub room : length q.messages ≡ max_messages_per_queue
  pub head_in : q.head < max_messages_per_queue
  pub tail_at : q.tail ≡ (q.head + q.count) % max_messages_per_queue
  pub counted : q.count ≡ length ms
  pub few : q.count ≤ max_messages_per_queue
  pub slots : slots_of q ≡ map some ms
  pub fits : All IsMessage ms
  pub free : q.lock.lock ≡ 0

-- On a free lock the caller goes on, with the lock taken.
pub lock_queue-free :
    (q : Queue) → q.lock.lock ≡ 0 → lock_queue q ≡ some (record q { lock = locked })
unfolding acquire
lock_queue-free q h = ground arith

pub unlock-Holds : {q : Queue} {ms : List Message} → Holds q ms → Holds (unlock_queue q) ms
unfolding release
unlock-Holds h = record {
  room = h.room;
  head_in = h.head_in;
  tail_at = h.tail_at;
  counted = h.counted;
  few = h.few;
  slots = h.slots;
  fits = h.fits;
  free = refl;
}

abbrev window : List (Option Message) → ℕ → ℕ → List (Option Message)
window = items none max_messages_per_queue

window-set_tail :
    (b : List (Option Message)) (h n t n' : ℕ) (m : Message) (ms : List Message)
    → length b ≡ max_messages_per_queue
    → h < max_messages_per_queue
    → n < max_messages_per_queue
    → t ≡ (h + n) % max_messages_per_queue
    → n' ≡ suc n
    → window b h n ≡ map some ms
    → window (set b t (some m)) h n' ≡ map some (ms ++ (m ∷ []))
window-set_tail b h n t n' m ms room hh hn et en e =
    rw (et, en, map-append, ← e)
      (items-set_tail none max_messages_per_queue b h n (some m) hh hn (omega arith))

-- The first slot of a window that is not empty, and the rest.
window_head :
    (b : List (Option Message)) (h n k : ℕ) (x : Option Message) (xs : List (Option Message))
    → h < max_messages_per_queue
    → n ≡ suc k
    → window b h n ≡ x ∷ xs
    → (get_or b h none ≡ x) × (window b ((h + 1) % max_messages_per_queue) k ≡ xs)
window_head b h n k x xs hh en e =
    ground (arith, items_head none max_messages_per_queue b h k hh, both)
  where
    both : get_or b h none ∷ window b ((h + 1) % max_messages_per_queue) k ≡ x ∷ xs
    both = sym (items_head none max_messages_per_queue b h k hh) ∙ rw (← en) e

-- The message goes to the end.
pub enqueue-Holds :
    {q : Queue} {ms : List Message} (m : Message)
    → Holds q ms
    → q.count < max_messages_per_queue
    → IsMessage m
    → Holds (enqueue q m) (ms ++ (m ∷ []))
unfolding enqueue
enqueue-Holds {q} {ms} m h lt fit = record {
  room = length-set q.messages q.tail (some m) ∙ h.room;
  head_in = h.head_in;
  tail_at = omega (arith, h.tail_at);
  counted = omega (arith, h.counted, length-append ms (m ∷ []));
  few = omega arith;
  slots =
      window-set_tail q.messages q.head q.count q.tail (q.count + 1) m ms h.room h.head_in lt
        h.tail_at (omega arith) h.slots;
  fits = All-append IsMessage ms (m ∷ []) h.fits (fit, tt);
  free = h.free;
}

-- The slot at head holds the oldest message, and clearing it leaves the others.
pub dequeue-Holds :
    {q : Queue} (m : Message) {ms : List Message}
    → Holds q (m ∷ ms)
    → (get_or q.messages q.head none ≡ some m) × Holds (dequeue q) ms
unfolding dequeue
dequeue-Holds {q} m {ms} h = (
  first.0,
  record {
    room = length-set q.messages q.head none ∙ h.room;
    head_in = omega arith;
    tail_at = omega (arith, h.tail_at, h.counted);
    counted = omega (arith, h.counted);
    few = omega (arith, h.few);
    slots =
        items-set_before none max_messages_per_queue q.messages q.head (q.count - 1) none h.head_in
          (omega (arith, h.few, h.counted))
        ∙ first.1;
    fits = h.fits.1;
    free = h.free;
  },
)
  where
    first :
        (get_or q.messages q.head none ≡ some m)
        × (window q.messages ((q.head + 1) % max_messages_per_queue) (q.count - 1) ≡ map some ms)
    first =
        window_head q.messages q.head q.count (q.count - 1) (some m) (map some ms) h.head_in
          (omega (arith, h.counted)) h.slots

-- The loop of the flush frees every message of the queue.
pub flush_slots_lem :
    (n i head : ℕ) (messages : List (Option Message)) (flushed : ℕ) (ms : List Message)
    → length messages ≡ max_messages_per_queue
    → head < max_messages_per_queue
    → i + n ≤ max_messages_per_queue
    → items none max_messages_per_queue messages ((head + i) % max_messages_per_queue) n
      ≡ map some ms
    → (length (flush_slots n i head messages flushed).0 ≡ max_messages_per_queue)
      × ((flush_slots n i head messages flushed).1 ≡ flushed + n)
unfolding flush_slots
flush_slots_lem zero i head messages flushed ms room hh hn e = (room, omega arith)
flush_slots_lem (suc n) i head messages flushed [] room hh hn e = ground (
  arith,
  length-items none max_messages_per_queue messages ((head + i) % max_messages_per_queue) (suc n),
  ap length e,
)
flush_slots_lem (suc n) i head messages flushed (m ∷ ms) room hh hn e = ground (
  arith,
  first.0,
  flush_slots_lem n (i + 1) head (set messages index none) (flushed + 1) ms
      (length-set messages index none ∙ room) hh (omega arith) rest,
)
  where
    index : ℕ
    index = (head + i) % max_messages_per_queue

    first :
        (get_or messages index none ≡ some m)
        × (window messages ((index + 1) % max_messages_per_queue) n ≡ map some ms)
    first = window_head messages index (suc n) n (some m) (map some ms) (omega arith) refl e

    next : (head + (i + 1)) % max_messages_per_queue ≡ (index + 1) % max_messages_per_queue
    next = omega arith

    rest :
        window (set messages index none) ((head + (i + 1)) % max_messages_per_queue) n ≡ map some ms
    rest = rw next (
        items-set_before none max_messages_per_queue messages index n none (omega arith)
          (omega arith)
        ∙ first.1)
