-- ===== src/Ipc/Pipe/Fifo.antt =====
-- A pipe of kernel/ipc/pipe.c delivers the bytes in the order in which they were written.
use mathlib.Core.List.{append_assoc}
use native.Mathlib.Numerals.{add-one}
use sinux.Prelude.{
  ℕ, zero, suc, ◌+◌, ◌-◌, ◌%◌, ◌≤◌, ◌<◌, ◌≡◌, refl, ap, ◌∙◌, ◌≢◌, ◌⊎◌, inl, inr, true, false, none,
  some, List, [], ◌∷◌, ◌++◌, leb, ◌==◌, ==_iff, Bool-cases, arith, length, min, err, span, span-put,
}
use sinux.Ipc.Pipe.{
  Pipe, pipe_buf_size, take_byte, put_byte, drain, pipe_read, fill_pipe, broken, written,
  pipe_write,
}

-- The indices lie in the buffer, and the count is their distance round it.
pub record IsValid (p : Pipe) : Type 0 where
  pub tail_in : p.tail < pipe_buf_size
  pub count_in : p.count ≤ pipe_buf_size
  pub head_at : p.head ≡ (p.tail + p.count) % pipe_buf_size

-- The bytes in the pipe, oldest first.
abbrev pub contents : Pipe → List ℕ
contents p = span pipe_buf_size p.buf p.tail p.count

-- `span` matches on the count, the code tests it.
span-ne-zero :
    (f : ℕ → ℕ) (t n : ℕ)
    → n ≢ 0
    → span pipe_buf_size f t n ≡ f t ∷ span pipe_buf_size f ((t + 1) % pipe_buf_size) (n - 1)
span-ne-zero f t zero h = absurd (h refl)
span-ne-zero f t (suc n) h = ap (λ k. span pipe_buf_size f t (suc k)) (omega arith)

take_byte_lem :
    (p : Pipe)
    → IsValid p
    → p.count ≢ 0
    → IsValid (take_byte p) × (contents p ≡ p.buf p.tail ∷ contents (take_byte p))
unfolding take_byte
take_byte_lem p v ne = (omega arith, span-ne-zero p.buf p.tail p.count ne)

count-take : (p : Pipe) → (take_byte p).count ≡ p.count - 1
unfolding take_byte
count-take p = refl

put_byte_lem :
    (p : Pipe) (c : ℕ)
    → IsValid p
    → p.count < pipe_buf_size
    → IsValid (put_byte p c) × (contents (put_byte p c) ≡ contents p ++ c ∷ [])
unfolding put_byte
put_byte_lem p c v room = (
  omega arith,
  rw (add-one p.count)
      (span-put pipe_buf_size p.buf c p.count p.tail p.head v.tail_in room v.head_at),
)

-- What the loop of `pipe_read` takes.
pub record Drained (n : ℕ) (p : Pipe) (r : List ℕ × Pipe) : Type 0 where
  pub valid : IsValid r.1
  pub order : contents p ≡ r.0 ++ contents r.1
  pub number : length r.0 ≡ min n p.count

drain-Drained : (n : ℕ) (p : Pipe) → IsValid p → Drained n p (drain n p)
unfolding drain
drain-Drained zero p v = record { valid = v; order = refl; number = omega arith }
drain-Drained (suc n) p v = elim (Bool-cases (p.count == 0)) [
  | inl e ↦ rw e (record { valid = v; order = refl; number = ground arith })
  | inr ne ↦
      let (v', order) = take_byte_lem p v (ground arith) in
      let d = drain-Drained n (take_byte p) v' in
      rw ne (record {
        valid = d.valid;
        order = order ∙ ap (λ l. p.buf p.tail ∷ l) d.order;
        number = omega (arith, d.number, count-take p);
      })
]

-- `pipe_read` of a pipe with bytes in it returns the oldest min(n, count) of them, in order, and
-- leaves the others. Of an empty pipe it returns none, at once if the writing end is closed; else
-- it waits.
pub pipe_read_lem :
    (p : Pipe) (n : ℕ)
    → IsValid p
    → ((p.count ≡ 0) × (p.write_closed ≡ false) × (pipe_read p n ≡ none))
      ⊎ ((l : List ℕ) × (q : Pipe) × (pipe_read p n ≡ some (l, q))
          × IsValid q
          × (contents p ≡ l ++ contents q)
          × (length l ≡ min n p.count))
unfolding pipe_read
pipe_read_lem p n v = elim (Bool-cases (p.count == 0)) [
  | inl e ↦ elim (Bool-cases p.write_closed) [
    | inl c ↦ inr ([], p, rw (e, c) refl, v, refl, ground arith)
    | inr c ↦ inl ((==_iff p.count 0).0 e, c, rw (e, c) refl)
  ]
  | inr ne ↦
      let d = drain-Drained n p v in
      inr ((drain n p).0, (drain n p).1, rw ne refl, d.valid, d.order, d.number)
]

-- What the loop of `pipe_write` does with the bytes s, where it leaves the bytes r.0.
pub record Filled (s : List ℕ) (p : Pipe) (r : List ℕ × Pipe) : Type 0 where
  pub valid : IsValid r.1
  pub order : contents r.1 ++ r.0 ≡ contents p ++ s
  pub full : (r.0 ≡ []) ⊎ (r.1.count ≡ pipe_buf_size)

pub fill_pipe-Filled : (s : List ℕ) (p : Pipe) → IsValid p → Filled s p (fill_pipe s p)
unfolding fill_pipe
fill_pipe-Filled [] p v = record { valid = v; order = refl; full = inl refl }
fill_pipe-Filled (c ∷ s) p v = elim (Bool-cases (leb pipe_buf_size p.count)) [
  | inl e ↦ rw e (record { valid = v; order = refl; full = inr (ground arith) })
  | inr ne ↦
      let (v', order) = put_byte_lem p c v (ground arith) in
      let d = fill_pipe-Filled s (put_byte p c) v' in
      rw ne (record {
        valid = d.valid;
        order = d.order ∙ ap (λ l. l ++ s) order ∙ append_assoc (contents p) (c ∷ []) s;
        full = d.full;
      })
]

-- `pipe_write` to a pipe whose reading end is closed returns -EINVAL, and writes nothing. Else the
-- bytes enter the pipe in order behind those in it, and it returns their number; if they do not
-- all fit, it waits, with the pipe full, for room for the rest of them.
pub pipe_write_lem :
    (p : Pipe) (src : List ℕ)
    → IsValid p
    → ((p.read_closed ≡ true) × (pipe_write p src (length src) ≡ broken (err 22)))
      ⊎ ((l : List ℕ) × (q : Pipe) × (p.read_closed ≡ false)
          × (pipe_write p src (length src) ≡ written (length src) (l, q))
          × IsValid q
          × (contents q ++ l ≡ contents p ++ src)
          × ((l ≡ []) ⊎ (q.count ≡ pipe_buf_size)))
unfolding pipe_write
pipe_write_lem p src v = elim (Bool-cases p.read_closed) [
  | inl c ↦ inl (c, rw c refl)
  | inr c ↦
      let d = fill_pipe-Filled src p v in
      inr ((fill_pipe src p).0, (fill_pipe src p).1, c, rw c refl, d.valid, d.order, d.full)
]
