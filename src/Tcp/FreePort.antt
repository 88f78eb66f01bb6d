-- ===== src/Tcp/FreePort.antt =====
-- The search for a free port of network/src/tcp.c: with fewer sockets than ports there is one, and
-- soon.
use uint_os.Common.{
  ℕ, zero, suc, ◌+◌, ◌%◌, ◌^◌, ◌≤◌, ◌<◌, ◌≡◌, ◌≢◌, ◌⊎◌, refl, sym, ap, ◌∙◌, Bool, true, false, not,
  ◌&&◌, ◌||◌, some, ◌==◌, ltb, if◌then◌else◌, arith, Bool-cases, inl, inr, ℕ_discrete,
}
use mathlib.Core.Path.{subst}
use uint_os.Tcp.Socket.{Tcp, Socket, is_closed, tcp_max_sockets}
use uint_os.Tcp.Ports.{port_in_use, next_port, search_port, advance_port, tcp_get_free_port}

-- How many of the first m numbers pass a test.
count : ℕ → (ℕ → Bool) → ℕ
count zero test = 0
count (suc m) test = (if test m then 1 else 0) + count m test

count_none : (m : ℕ) (test : ℕ → Bool) → ((k : ℕ) → k < m → test k ≡ false) → count m test ≡ 0
unfolding count
count_none zero test h = refl
count_none (suc m) test h =
    ground (arith, h m (omega arith), count_none m test (λ k lt. h k (omega arith)))

count_all : (m : ℕ) (test : ℕ → Bool) → ((k : ℕ) → k < m → test k ≡ true) → count m test ≡ m
unfolding count
count_all zero test h = refl
count_all (suc m) test h =
    ground (arith, h m (omega arith), count_all m test (λ k lt. h k (omega arith)))

-- A test that no two of the numbers pass.
count_one :
    (m : ℕ) (test : ℕ → Bool)
    → ((j k : ℕ) → j < k → k < m → test k ≡ true → test j ≡ false)
    → count m test ≤ 1
unfolding count
count_one zero test h = omega arith
count_one (suc m) test h = elim (Bool-cases (test m)) [
  | inl last ↦ ground (arith, last, count_none m test (λ j lt. h j m lt (omega arith) last))
  | inr other ↦ ground (arith, other, count_one m test (λ j k lt le. h j k lt (omega arith)))
]

count_or : (m : ℕ) (f g : ℕ → Bool) → count m (λ k. f k || g k) ≤ count m f + count m g
unfolding count
count_or zero f g = omega arith
count_or (suc m) f g = ground (arith, count_or m f g)

-- The port k steps behind another, around the end of the 16 bits.
abbrev pub port_at : ℕ → ℕ → ℕ
port_at port k = (port + k) % 2 ^ 16

-- Each socket uses one port, so n sockets use n of a row of ports at most.
count_in_use :
    (n i m port : ℕ) (sockets : ℕ → Socket)
    → m ≤ 2 ^ 16
    → count m (λ k. port_in_use n i sockets (port_at port k)) ≤ n
unfolding port_in_use
count_in_use zero i m port sockets le = omega (arith, count_none m (λ k. false) (λ k lt. refl))
count_in_use (suc n) i m port sockets le = omega (
  arith,
  count_or m (λ k. not (is_closed (sockets i).state) && (sockets i).local_port == port_at port k)
      (λ k. port_in_use n (i + 1) sockets (port_at port k)),
  count_one m (λ k. not (is_closed (sockets i).state) && (sockets i).local_port == port_at port k)
      (λ j k lt le'.
        apart (not (is_closed (sockets i).state)) (sockets i).local_port j k lt (omega arith)),
  count_in_use n (i + 1) m port sockets le,
)
  where
    apart :
        (b : Bool) (p j k : ℕ)
        → j < k
        → k < 2 ^ 16
        → (b && p == port_at port k) ≡ true
        → (b && p == port_at port j) ≡ false
    apart b p j k lt small e = ground (arith, e)

-- The first of m numbers that fails a test, or all pass it.
first_failure :
    (m : ℕ) (test : ℕ → Bool)
    → ((k : ℕ) × ((k < m) × ((test k ≡ false) × ((j : ℕ) → j < k → test j ≡ true))))
      ⊎ ((k : ℕ) → k < m → test k ≡ true)
first_failure zero test = inr (λ k lt. absurd (omega arith))
first_failure (suc m) test = elim (first_failure m test) [
  | inl (k, (lt, found)) ↦ inl (k, (omega arith, found))
  | inr all ↦ elim (Bool-cases (test m)) [
    | inl last ↦ inr (λ k lt. elim (ℕ_discrete k m) [
      | yes same ↦ ap test same ∙ last
      | no other ↦ all k (omega arith)
    ])
    | inr fails ↦ inl (m, (omega arith, (fails, all)))
  ]
]

-- The loop goes on to the first port that is not in use, unless it comes round to `start` before.
search_port_finds :
    (k n start port : ℕ) (sockets : ℕ → Socket)
    → k < n
    → port < 2 ^ 16
    → ((j : ℕ) → j < k → port_in_use tcp_max_sockets 0 sockets (port_at port j) ≡ true)
    → port_in_use tcp_max_sockets 0 sockets (port_at port k) ≡ false
    → ((j : ℕ) → j < k → port_at port (suc j) ≢ start)
    → search_port n start port sockets ≡ some (port_at port k)
unfolding search_port
search_port_finds k zero start port sockets lt small used free round = absurd (omega arith)
search_port_finds zero (suc n) start port sockets lt small used free round =
    rw
      (subst (λ q. port_in_use tcp_max_sockets 0 sockets q ≡ false) {x = port_at port 0} {y = port}
        (omega arith) free)
      (ap some {x = port} {y = port_at port 0} (omega arith))
search_port_finds (suc k) (suc n) start port sockets lt small used free round =
    rw
      (
        subst (λ q. port_in_use tcp_max_sockets 0 sockets q ≡ true) {x = port_at port 0} {y = port}
            (omega arith) (used 0 (omega arith)),
        goes_on (next_port port) start (λ e. round 0 (omega arith) (omega arith)),
      )
      (search_port_finds k n start (next_port port) sockets (omega arith) (omega arith)
          (λ j lt'.
            subst (λ q. port_in_use tcp_max_sockets 0 sockets q ≡ true) (shift j)
              (used (suc j) (omega arith)))
          (subst (λ q. port_in_use tcp_max_sockets 0 sockets q ≡ false) (shift k) free)
          (λ j lt' e. round (suc j) (omega arith) (omega arith))
        ∙ ap some (sym (shift k)))
  where
    shift : (j : ℕ) → port_at port (suc j) ≡ port_at (next_port port) j
    shift j = omega arith

    goes_on : (a b : ℕ) → a ≢ b → (a == b) ≡ false
    goes_on a b ne = ground arith

-- A socket that is open and has the port.
abbrev pub Uses : Socket → ℕ → Type 0
Uses s p = (is_closed s.state ≡ false) × (s.local_port ≡ p)

in_use_cases :
    (n i p : ℕ) (sockets : ℕ → Socket)
    → ((port_in_use n i sockets p ≡ true)
        × ((j : ℕ) × ((i ≤ j) × ((j < i + n) × Uses (sockets j) p))))
      ⊎ ((port_in_use n i sockets p ≡ false)
          × ((j : ℕ) → i ≤ j → j < i + n → Uses (sockets j) p → ⊥))
unfolding port_in_use
in_use_cases zero i p sockets = inr (refl, λ j lo hi u. absurd (omega arith))
in_use_cases (suc n) i p sockets = elim (in_use_cases n (i + 1) p sockets) [
  | inl (e, (j, (lo, (hi, u)))) ↦ inl (rw e (or_true _), (j, (omega arith, (omega arith, u))))
  | inr (e, others) ↦
      elim (Bool-cases (not (is_closed (sockets i).state) && (sockets i).local_port == p)) [
        | inl here ↦ inl (
          rw (e, here) refl,
          (
            i,
            (
              omega arith,
              (omega arith, uses (is_closed (sockets i).state) (sockets i).local_port here),
            ),
          ),
        )
        | inr not_here ↦ inr (
          rw (e, not_here) refl,
          λ j lo hi u. elim (ℕ_discrete i j) [
            | yes same ↦
                unused (is_closed (sockets i).state) (sockets i).local_port not_here
                  (subst (λ t. Uses (sockets t) p) (sym same) u)
            | no other ↦ others j (omega arith) (omega arith) u
          ],
        )
      ]
]
  where
    or_true : (b : Bool) → (b || true) ≡ true
    or_true true = refl
    or_true false = refl

    uses : (closed_ : Bool) (q : ℕ) → (not closed_ && q == p) ≡ true → (closed_ ≡ false) × (q ≡ p)
    uses closed_ q e = ground (arith, e)

    unused :
        (closed_ : Bool) (q : ℕ) → (not closed_ && q == p) ≡ false → (closed_ ≡ false) × (q ≡ p) → ⊥
    unused closed_ q e u = ground (arith, e, u)

-- The first port that is tried.
abbrev pub first_port : ℕ → ℕ
first_port last = if ltb 49150 last && ltb last 65535 then last + 1 else 49152

-- p is the first port from first_port on, around the end of the 16 bits, that no socket uses.
pub record IsFirstFree (t : Tcp) (p : ℕ) : Type 0 where
  pub steps : ℕ
  pub near : steps ≤ 16
  pub place : p ≡ (first_port t.last_dynamic_port + steps) % 2 ^ 16
  pub unused : (i : ℕ) → i < 16 → Uses (t.sockets i) p → ⊥
  pub used_before :
      (j : ℕ)
      → j < steps
      → (i : ℕ) × ((i < 16) × Uses (t.sockets i) ((first_port t.last_dynamic_port + j) % 2 ^ 16))

-- tcp_get_free_port ends, from a last port of 16 bits, and always finds a port: the first one that
-- none of the 16 sockets uses, at most 16 steps behind the first one tried, around the end of the 16
-- bits. That first one is the port behind the last, or 49152 where that is not in 49152 to 65535. As
-- long as the last port is at most 65518, the port found is in that range.
pub free_port_lem :
    (t : Tcp)
    → t.last_dynamic_port < 2 ^ 16
    → (p : ℕ) × (((tcp_get_free_port t).1 ≡ some p)
        × (IsFirstFree t p × (t.last_dynamic_port ≤ 65518 → (49152 ≤ p) × (p ≤ 65535))))
unfolding tcp_get_free_port
free_port_lem t h = elim (first_failure 17 in_use) [
  | inl (k, (lt, (free, before))) ↦ (
    port_at first k,
    (
      search_port_finds k (2 ^ 16) t.last_dynamic_port first t.sockets (omega arith) (ground arith)
          before free (λ j lt' e. ground (arith, e)),
      (
        record {
          steps = k;
          near = omega arith;
          place = ap (λ q. port_at q k) same_first;
          unused = λ i il u. not_used k free i il u;
          used_before = λ j lt'. rw (← same_first) (is_used j (before j lt'));
        },
        λ le. ground arith,
      ),
    ),
  )
  | inr all ↦ absurd (
      omega (
        arith,
        count_all 17 in_use all,
        count_in_use tcp_max_sockets 0 17 first t.sockets (omega arith),
      ))
]
  where
    first : ℕ
    first = advance_port t.last_dynamic_port

    in_use : ℕ → Bool
    in_use k = port_in_use tcp_max_sockets 0 t.sockets (port_at first k)

    same_first : first ≡ first_port t.last_dynamic_port
    same_first = ground arith

    not_used :
        (k : ℕ) → in_use k ≡ false → (i : ℕ) → i < 16 → Uses (t.sockets i) (port_at first k) → ⊥
    not_used k free = elim (in_use_cases tcp_max_sockets 0 (port_at first k) t.sockets) [
      | inl (e, used) ↦ absurd (cc (e, free))
      | inr (e, others) ↦ λ i il u. others i (omega arith) il u
    ]

    is_used :
        (k : ℕ) → in_use k ≡ true → (i : ℕ) × ((i < 16) × Uses (t.sockets i) (port_at first k))
    is_used k used = elim (in_use_cases tcp_max_sockets 0 (port_at first k) t.sockets) [
      | inl (e, (j, (lo, (hi, u)))) ↦ (j, (hi, u))
      | inr (e, others) ↦ absurd (cc (e, used))
    ]
