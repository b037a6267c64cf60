-- ===== src/Smp/Sched/Pick.antt =====
-- What `sched_pick_next` of kernel/scheduler/sched.c takes.
use sinux.Prelude.{
  ℕ, zero, suc, ◌+◌, ◌≤◌, ◌<◌, ◌≡◌, ◌≢◌, refl, sym, ◌∙◌, ◌⊎◌, ◌↔◌, inl, inr, Bool, true, false, not,
  ◌&&◌, Option, none, some, Bool-cases, Option-cases, arith, dec_lt,
}
use sinux.Smp.Sched.{
  System, is_task, turn_queue, first_bit_from, find_first_bit, take_head, take_first, swap_queues,
  or_idle, pick_expired, pick_else, sched_pick_next,
}

abbrev FirstBit : ℕ → ℕ → (ℕ → Bool) → Option ℕ → Type 0
FirstBit n i bits r =
    ((r ≡ none) × ((j : ℕ) → i ≤ j → j < i + n → bits j ≡ false))
    ⊎ ((k : ℕ) × (r ≡ some k)
        × (i ≤ k)
        × (k < i + n)
        × (bits k ≡ true)
        × ((j : ℕ) → i ≤ j → j < k → bits j ≡ false))

bit_clear :
    (i j : ℕ) (bits : ℕ → Bool)
    → bits i ≡ false
    → (i + 1 ≤ j → bits j ≡ false)
    → i ≤ j
    → bits j ≡ false
bit_clear i j bits e rest a = elim (dec_lt i j) [
  | yes l ↦ rest (omega arith)
  | no l ↦ let same : j ≡ i = omega arith in rw same e
]

first_bit_from-FirstBit : (n i : ℕ) (bits : ℕ → Bool) → FirstBit n i bits (first_bit_from n i bits)
unfolding first_bit_from
first_bit_from-FirstBit zero i bits = inl (refl, λ j a b. absurd (omega arith))
first_bit_from-FirstBit (suc n) i bits = elim (Bool-cases (bits i)) [
  | inl e ↦ rw e (inr (i, refl, omega arith, omega arith, e, λ j a b. absurd (omega arith)))
  | inr e ↦ rw e (elim (first_bit_from-FirstBit n (i + 1) bits) [
    | inl (r, all) ↦ inl (r, λ j a b. bit_clear i j bits e (λ x. all j x (omega arith)) a)
    | inr (k, r, a, b, t, below) ↦
        inr (k, r, omega arith, omega arith, t, λ j x y. bit_clear i j bits e (λ z. below j z y) x)
  ])
]

find_first_bit-FirstBit : (bits : ℕ → Bool) → FirstBit 32 0 bits (find_first_bit bits)
unfolding find_first_bit
find_first_bit-FirstBit bits = first_bit_from-FirstBit 32 0 bits

find_first_bit_low : (bits : ℕ → Bool) (k : ℕ) → find_first_bit bits ≡ some k → k < 32
find_first_bit_low bits k e = elim (find_first_bit-FirstBit bits) [
  | inl (r, all) ↦ cc
  | inr (j, r, a, b, rest, below) ↦ let same : j ≡ k = cc in omega arith
]

-- The head of a queue, and what taking it leaves.
abbrev Head : ℕ → System → Option ℕ → Option (ℕ × System) → Type 0
Head c s first r =
    (r ≡ none)
    ⊎ ((prio : ℕ) × (p : ℕ) × (t : System) × (first ≡ some prio)
        × ((s.queues c).active prio ≡ some p)
        × (r ≡ some (p, t))
        × (t.tasks ≡ s.tasks)
        × ((t.queues c).current ≡ (s.queues c).current))

take_first-Head :
    (c : ℕ) (again : Bool) (first : Option ℕ) (s : System)
    → Head c s first (take_first c again first s)
unfolding take_first take_head
take_first-Head c again none s = inl refl
take_first-Head c again (some prio) s = elim (Option-cases ((s.queues c).active prio)) [
  | inl e ↦ inl (rw e refl)
  | inr (p, e) ↦ elim (Bool-cases (is_task (s.tasks p).next p && not again)) [
    | inl f ↦ rw (e, f) (inr (prio, p, s, refl, e, refl, refl, refl))
    | inr f ↦ rw (e, f) (inr (prio, p, turn_queue c prio p s, refl, e, refl, refl, ground arith))
  ]
]

-- What a pick returns: the idle task, or a task at the head of a queue.
pub record Picked (c : ℕ) (s : System) (r : Option ℕ × System) : Type 0 where
  pub tasks_kept : r.1.tasks ≡ s.tasks
  pub current_kept : (r.1.queues c).current ≡ (s.queues c).current
  pub from_queue :
      (r.0 ≡ (s.queues c).idle)
      ⊎ ((prio : ℕ) × (prio < 32)
          × ((r.0 ≡ (s.queues c).active prio) ⊎ (r.0 ≡ (s.queues c).expired prio)))

swapped :
    (c : ℕ) (s : System) (i : ℕ)
    → i < 32
    → ((swap_queues c s).queues c).active i ≡ (s.queues c).expired i
unfolding swap_queues
swapped c s i h = ground arith

swap_queues-current :
    (c : ℕ) (s : System) → ((swap_queues c s).queues c).current ≡ (s.queues c).current
unfolding swap_queues
swap_queues-current c s = ground arith

swap_queues-idle : (c : ℕ) (s : System) → ((swap_queues c s).queues c).idle ≡ (s.queues c).idle
unfolding swap_queues
swap_queues-idle c s = ground arith

swap_queues-tasks : (c : ℕ) (s : System) → (swap_queues c s).tasks ≡ s.tasks
unfolding swap_queues
swap_queues-tasks c s = refl

pick_expired-Picked : (c : ℕ) (s : System) (o : Option ℕ) → Picked c s (pick_expired c s o)
unfolding pick_expired or_idle
pick_expired-Picked c s none = record {
  tasks_kept = refl;
  current_kept = refl;
  from_queue = inl refl;
}
pick_expired-Picked c s (some b) =
    let t = swap_queues c s in
    let first = find_first_bit (t.queues c).active_bitmap in
    elim (take_first-Head c true first t) [
      | inl e ↦ rw e (record {
        tasks_kept = swap_queues-tasks c s;
        current_kept = swap_queues-current c s;
        from_queue = inl (swap_queues-idle c s);
      })
      | inr (prio, p, u, f, h, e, kept, cur) ↦
          let low = find_first_bit_low (t.queues c).active_bitmap prio f in
          rw e (record {
            tasks_kept = kept ∙ swap_queues-tasks c s;
            current_kept = cur ∙ swap_queues-current c s;
            from_queue = inr (prio, low, inr (sym h ∙ swapped c s prio low));
          })
    ]

-- `sched_pick_next` leaves the tasks and the current one as they are, and returns the idle task, or the
-- head of an active or expired queue of priority below 32: those of priority 32 to 139, the default 120
-- among them, share the bits of the others and are never looked at.
pub sched_pick_next-Picked : (c : ℕ) (s : System) → Picked c s (sched_pick_next c s)
unfolding sched_pick_next pick_else
sched_pick_next-Picked c s =
    let first = find_first_bit (s.queues c).active_bitmap in
    elim (take_first-Head c false first s) [
      | inl e ↦ rw e (pick_expired-Picked c s (find_first_bit (s.queues c).expired_bitmap))
      | inr (prio, p, t, f, h, e, kept, cur) ↦ rw e (record {
        tasks_kept = kept;
        current_kept = cur;
        from_queue = inr (prio, find_first_bit_low (s.queues c).active_bitmap prio f, inl (sym h));
      })
    ]

-- With bitmaps that tell which of the queues below 32 are in use, `sched_pick_next` takes the head of the
-- one with the lowest number, which is the highest priority, if one is in use.
pub sched_pick_next_highest :
    (c prio p : ℕ) (s : System)
    → ((i : ℕ) → i < 32 → ((s.queues c).active_bitmap i ≡ true) ↔ ((s.queues c).active i ≢ none))
    → prio < 32
    → (s.queues c).active prio ≡ some p
    → ((j : ℕ) → j < prio → (s.queues c).active j ≡ none)
    → (sched_pick_next c s).0 ≡ some p
unfolding sched_pick_next pick_else take_first take_head
sched_pick_next_highest c prio p s bits low head empty =
    let in_use = (bits prio low).1 (λ e. cc) in
    elim (find_first_bit-FirstBit (s.queues c).active_bitmap) [
      | inl (r, all) ↦ let clear = all prio (omega arith) low in cc
      | inr (k, r, a, b, here, below) ↦
          let same : k ≡ prio = elim (dec_lt k prio) [
            | yes less ↦ absurd ((bits k b).0 here (empty k less))
            | no more ↦ elim (dec_lt prio k) [
              | yes less ↦ let clear = below prio (omega arith) less in cc
              | no both ↦ omega arith
            ]
          ] in
          rw (r, same, head) refl
    ]
