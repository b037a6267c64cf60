-- ===== src/Ipc/Pipe/Session.antt =====
-- A writer and a reader at the two ends of a pipe of kernel/ipc/pipe.c, in any order of their calls.
use mathlib.Core.List.{append_assoc, append-nil}
use sinux.Prelude.{ℕ, ◌≡◌, refl, sym, ap, ◌∙◌, inl, inr, Option, none, some, List, [], ◌∷◌, ◌++◌}
use sinux.Ipc.Pipe.{Pipe, pipe_read, fill_pipe}
use sinux.Ipc.Pipe.Fifo.{IsValid, contents, pipe_read_lem, fill_pipe-Filled}

-- The writer's next bytes, which it adds to those that it waits to write; a call of the reader for
-- n bytes, after which the writer goes on.
pub data Event : Type 0 where
  write : List ℕ → Event
  read : ℕ → Event

-- The pipe, the bytes that the writer still has to write, and those that the reader has had.
pub record Session : Type 0 where
  pub pipe : Pipe
  pub pending : List ℕ
  pub received : List ℕ

abbrev go_on : List ℕ × Pipe → List ℕ → Session
go_on (left, q) got = record { pipe = q; pending = left; received = got }

abbrev answer : Session → Option (List ℕ × Pipe) → Session
answer s none = s
answer s (some (l, q)) = go_on (fill_pipe s.pending q) (s.received ++ l)

step : Session → Event → Session
step s (write bytes) = go_on (fill_pipe (s.pending ++ bytes) s.pipe) s.received
step s (read n) = answer s (pipe_read s.pipe n)

pub run : Session → List Event → Session
unfolding step
run s [] = s
run s (e ∷ l) = run (step s e) l

abbrev pub sent : List Event → List ℕ
sent [] = []
sent (write bytes ∷ l) = bytes ++ sent l
sent (read n ∷ l) = sent l

-- Everything that has been written, in order.
abbrev pub stream : Session → List ℕ
stream s = s.received ++ (contents s.pipe ++ s.pending)

go_on_lem :
    (bytes got : List ℕ) (p : Pipe)
    → IsValid p
    → IsValid (go_on (fill_pipe bytes p) got).pipe
      × (stream (go_on (fill_pipe bytes p) got) ≡ got ++ (contents p ++ bytes))
go_on_lem bytes got p v =
    let d = fill_pipe-Filled bytes p v in (d.valid, ap (λ l. got ++ l) d.order)

step_lem :
    (s : Session) (e : Event)
    → IsValid s.pipe
    → IsValid (step s e).pipe × (stream (step s e) ≡ stream s ++ sent (e ∷ []))
unfolding step
step_lem s (write bytes) v =
    let (v', e) = go_on_lem (s.pending ++ bytes) s.received s.pipe v in
    (v', e ∙ simp (append_assoc, append-nil))
step_lem s (read n) v = elim (pipe_read_lem s.pipe n v) [
  | inl (empty, open_, e) ↦ rw e (v, simp append-nil)
  | inr (l, q, e, v', order, number) ↦
      let (v'', f) = go_on_lem s.pending (s.received ++ l) q v' in
      rw e (v'', f ∙ rw order (simp (append_assoc, append-nil)))
]

sent-cons : (e : Event) (l : List Event) → sent (e ∷ l) ≡ sent (e ∷ []) ++ sent l
sent-cons (write bytes) l = rw append-nil
sent-cons (read n) l = refl

-- Whatever the order of the calls: what the reader has had, then the bytes in the pipe, then those
-- that the writer waits to write, are the bytes that were written, in their order, none lost and
-- none twice.
pub run_lem :
    (s : Session) (l : List Event)
    → IsValid s.pipe
    → IsValid (run s l).pipe × (stream (run s l) ≡ stream s ++ sent l)
unfolding run
run_lem s [] v = (v, sym (append-nil (stream s)))
run_lem s (e ∷ l) v =
    let (v', f) = step_lem s e v in
    let (v'', g) = run_lem (step s e) l v' in
    (v'', g ∙ rw (f, sent-cons e l) (append_assoc (stream s) (sent (e ∷ [])) (sent l)))
