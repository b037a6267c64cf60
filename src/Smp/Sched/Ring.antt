-- ===== src/Smp/Sched/Ring.antt =====
-- The ring of tasks of one priority in kernel/scheduler/sched.c.
use sinux.Prelude.{
  ℕ, zero, suc, ◌<◌, ◌≡◌, ◌≢◌, refl, sym, ap, ◌∙◌, false, none, some, List, [], ◌∷◌, ◌++◌, leb,
  ◌==◌, arith, length, neq_false, ==_refl, pos, update,
}
use sinux.Proc.Types.{ready}
use sinux.Smp.Sched.{
  Task, RunQueue, System, max_priority, clamped, is_task, set_next, set_state, link_behind,
  add_active, drop_load, enqueue_task, unlink_from, unlink_task, dequeue_at, dequeue_prio,
  dequeue_task,
}

-- From task a the links lead through l to b.
abbrev pub Chain : (ℕ → Task) → ℕ → List ℕ → ℕ → Type 0
Chain t a [] b = (t a).next ≡ some b
Chain t a (x ∷ l) b = ((t a).next ≡ some x) × Chain t x l b

abbrev pub Without : ℕ → List ℕ → Type 0
Without p [] = Unit
Without p (x ∷ l) = (p ≢ x) × Without p l

-- A ring: its head, and the tasks behind it up to the head again, none twice.
abbrev pub Distinct : List ℕ → Type 0
Distinct [] = Unit
Distinct (x ∷ l) = Without x l × Distinct l

pub record Ring (s : System) (head : ℕ) (l : List ℕ) : Type 0 where
  pub links : Chain s.tasks head l head
  pub distinct : Distinct (head ∷ l)

-- A chain from a goes on from c, with the same link, where at most the task q has another one.
Chain-move :
    (t u : ℕ → Task) (q a c : ℕ) (l : List ℕ) (b : ℕ)
    → ((x : ℕ) → q ≢ x → (u x).next ≡ (t x).next)
    → Without q l
    → (u c).next ≡ (t a).next
    → Chain t a l b
    → Chain u c l b
Chain-move t u q a c [] b same w e h = e ∙ h
Chain-move t u q a c (x ∷ l) b same w e h =
    (e ∙ h.0, Chain-move t u q x x l b same w.1 (same x w.0) h.1)

next-put : (t : ℕ → Task) (q : ℕ) (v : Task) (x : ℕ) → q ≢ x → (update t q v x).next ≡ (t x).next
next-put t q v x ne = rw (neq_false q x ne) refl

next-put_self : (t : ℕ → Task) (q : ℕ) (v : Task) → (update t q v q).next ≡ v.next
next-put_self t q v = rw (==_refl q) refl

link_behind-Chain :
    (s : System) (head p : ℕ) (l : List ℕ)
    → Chain s.tasks head l head
    → p ≢ head
    → Without p l
    → Without head l
    → Chain (link_behind head p s).tasks head (p ∷ l) head
link_behind-Chain s head p l h ne wp wh =
    let t = set_next s p (s.tasks head).next in
    let v = record (t.tasks head) { next = some p } in
    let w = record (s.tasks p) { next = (s.tasks head).next } in
    let back : head ≢ p = λ e. ne (sym e) in
    let behind =
      Chain-move s.tasks t.tasks p head p l head (next-put s.tasks p w) wp
        (next-put_self s.tasks p w) h in
    (
      next-put_self t.tasks head v,
      Chain-move t.tasks (update t.tasks head v) head p p l head (next-put t.tasks head v) wh
          (next-put t.tasks head v p back) behind,
    )

Without-ready : (s : System) (p x : ℕ) → ((set_state s p ready).tasks x).next ≡ (s.tasks x).next
Without-ready s p x = ground arith

-- `enqueue_task` puts a task that is not in its priority's ring behind the ring's head, and the rest
-- follows as before; the head stays.
pub enqueue_task-Ring :
    (c p head : ℕ) (l : List ℕ) (s : System)
    → (s.queues c).active (clamped (s.tasks p).priority) ≡ some head
    → Ring s head l
    → p ≢ head
    → Without p l
    → Ring (enqueue_task c p s) head (p ∷ l)
      × (((enqueue_task c p s).queues c).active (clamped (s.tasks p).priority) ≡ some head)
unfolding enqueue_task add_active
enqueue_task-Ring c p head l s here ring ne w =
    let t = set_state s p ready in
    let chain =
      Chain-move s.tasks t.tasks p head head l head (λ x out. Without-ready s p x) w
        (Without-ready s p head) ring.links in
    rw here (
      record {
        links = link_behind-Chain t head p l chain ne w ring.distinct.0;
        distinct = (((λ e. ne (sym e)), ring.distinct.0), (w, ring.distinct.1));
      },
      rw (==_refl c) here,
    )

-- Lists with p taken out.
Without-mid : (x p : ℕ) (a b : List ℕ) → Without x (a ++ p ∷ b) → (x ≢ p) × Without x (a ++ b)
Without-mid x p [] b w = w
Without-mid x p (y ∷ a) b w = let (ne, rest) = Without-mid x p a b w.1 in (ne, (w.0, rest))

Without-left : (x : ℕ) (a b : List ℕ) → Without x (a ++ b) → Without x a
Without-left x [] b w = record {}
Without-left x (y ∷ a) b w = (w.0, Without-left x a b w.1)

Distinct-mid :
    (p : ℕ) (a b : List ℕ) → Distinct (a ++ p ∷ b) → Without p (a ++ b) × Distinct (a ++ b)
Distinct-mid p [] b d = d
Distinct-mid p (y ∷ a) b d =
    let (out, rest) = Distinct-mid p a b d.1 in
    let (ne, w) = Without-mid y p a b d.0 in (((λ e. ne (sym e)), out), (w, rest))

-- The walk of `dequeue_task` from task cur to p, which stands behind a.
record Unlinked (s t : System) (cur head : ℕ) (a b : List ℕ) : Type 0 where
  links : Chain t.tasks cur (a ++ b) head
  queues_kept : t.queues ≡ s.queues
  tasks_kept : (x : ℕ) → Without x (cur ∷ a) → t.tasks x ≡ s.tasks x

unlink_from-Unlinked :
    (n cur head p : ℕ) (a b : List ℕ) (s : System)
    → length a < n
    → Chain s.tasks cur (a ++ p ∷ b) head
    → Distinct (cur ∷ a ++ p ∷ b)
    → Without head (a ++ p ∷ b)
    → (t : System) × (unlink_from n cur head p s ≡ some t) × Unlinked s t cur head a b
unfolding unlink_from
unlink_from-Unlinked zero cur head p a b s h chain d w = absurd (omega arith)
unlink_from-Unlinked (suc n) cur head p [] b s h chain d w =
    let v = record (s.tasks cur) { next = (s.tasks p).next } in
    let other : (p == head) ≡ false = neq_false p head (λ e. w.0 (sym e)) in
    rw (unlink_from, chain.0, other, ==_refl p)
      (
        set_next s cur (s.tasks p).next,
        refl,
        record {
          links =
              Chain-move s.tasks (update s.tasks cur v) cur p cur b head (next-put s.tasks cur v)
                d.0.1 (next-put_self s.tasks cur v) chain.1;
          queues_kept = refl;
          tasks_kept = λ x out. rw (neq_false cur x (λ e. out.0 (sym e))) refl;
        },
      )
unlink_from-Unlinked (suc n) cur head p (y ∷ a) b s h chain d w =
    let (t, e, u) = unlink_from-Unlinked n y head p a b s (omega arith) chain.1 d.1 w.1 in
    let (ne, out) = Without-mid y p a b d.1.0 in
    let on : (y == head) ≡ false = neq_false y head (λ q. w.0 (sym q)) in
    let not_p : (y == p) ≡ false = neq_false y p ne in
    let kept = u.tasks_kept cur (Without-left cur (y ∷ a) (p ∷ b) d.0) in
    rw (unlink_from, chain.0, on, not_p)
      (
        t,
        e,
        record {
          links = (ap (λ (x : Task). x.next) kept ∙ chain.0, u.links);
          queues_kept = u.queues_kept;
          tasks_kept = λ x out. u.tasks_kept x out.1;
        },
      )

-- A ring of two or more does not end at its head's link.
next-other :
    (t : ℕ → Task) (head p : ℕ) (a b : List ℕ)
    → Chain t head (a ++ p ∷ b) head
    → Without head (a ++ p ∷ b)
    → is_task (t head).next head ≡ false
next-other t head p [] b chain w = rw chain.0 (neq_false p head (λ e. w.0 (sym e)))
next-other t head p (y ∷ a) b chain w = rw chain.0 (neq_false y head (λ e. w.0 (sym e)))

-- `dequeue_task` of a task that stands in its priority's ring, but not as the head, takes it out and
-- leaves the rest of the ring in its order; the walk ends, for a ring of at most 256 tasks.
pub dequeue_task-Ring :
    (c p prio head : ℕ) (a b : List ℕ) (s : System)
    → (s.tasks p).priority ≡ pos prio
    → prio < max_priority
    → (s.queues c).active prio ≡ some head
    → Ring s head (a ++ p ∷ b)
    → length a < 256
    → (t : System) × (dequeue_task c p s ≡ some t)
      × Ring t head (a ++ b)
      × ((t.tasks p).next ≡ none)
      × ((t.queues c).active prio ≡ some head)
unfolding dequeue_task dequeue_prio dequeue_at unlink_task
dequeue_task-Ring c p prio head a b s at_prio in_range here ring short =
    let d = ring.distinct in
    let (t, e, u) = unlink_from-Unlinked 256 head head p a b s short ring.links d d.0 in
    let (ne, w) = Without-mid head p a b d.0 in
    let (out, rest) = Distinct-mid p a b d.1 in
    let v = record (t.tasks p) { next = none } in
    let valid : leb max_priority prio ≡ false = ground arith in
    let queue = ap (λ (q : ℕ → RunQueue). (q c).active prio) u.queues_kept in
    rw (at_prio, valid, here, next-other s.tasks head p a b ring.links d.0, neq_false head p ne, e)
      (
        drop_load c (set_next t p none),
        refl,
        record {
          links =
              Chain-move t.tasks (update t.tasks p v) p head head (a ++ b) head
                (next-put t.tasks p v) out (next-put t.tasks p v head (λ q. ne (sym q))) u.links;
          distinct = (w, rest);
        },
        next-put_self t.tasks p v,
        rw (==_refl c) (queue ∙ here),
      )
