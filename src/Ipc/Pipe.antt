-- ===== src/Ipc/Pipe.antt =====
-- kernel/ipc/pipe.c: the ring buffer of a pipe, its two ends and its reference count. A call that
-- spins until the other end acts returns what it has reached by then; the caller goes on from
-- there when the state has changed. An inode of a pipe always has its pipe, so that `-EBADF` for a NULL
-- there is left out.
pub mod Fifo
pub mod Session
pub mod Create
use sinux.Prelude.{
  ℕ, zero, suc, ◌+◌, ◌-◌, ◌%◌, Bool, true, false, Option, none, some, List, [], ◌∷◌, if◌then◌else◌,
  leb, ◌==◌, Ret, ret, err, ℤ, pos, negsuc, update,
}

abbrev pub pipe_buf_size : ℕ
pipe_buf_size = 4096

abbrev pub einval : ℕ
einval = 22

-- `pipe_t`
pub record Pipe : Type 0 where
  pub buf : ℕ → ℕ
  pub head : ℕ
  pub tail : ℕ
  pub count : ℕ
  pub read_closed : Bool
  pub write_closed : Bool
  pub refcount : ℤ

-- `pipe_alloc`, when `kmalloc` succeeds
abbrev pub pipe_alloc : Pipe
pipe_alloc = record {
  buf = λ _. 0;
  head = 0;
  tail = 0;
  count = 0;
  read_closed = false;
  write_closed = false;
  refcount = pos 2;
}

-- One round of the loop of `pipe_read`, one of that of `pipe_write`.
unfoldable pub take_byte : Pipe → Pipe
take_byte p = record p { tail = (p.tail + 1) % pipe_buf_size; count = p.count - 1 }

unfoldable pub put_byte : Pipe → ℕ → Pipe
put_byte p c = record p {
  buf = update p.buf p.head c;
  head = (p.head + 1) % pipe_buf_size;
  count = p.count + 1;
}

-- `while (read < n && p->count > 0)`, with the rounds left to n.
unfoldable pub drain : ℕ → Pipe → List ℕ × Pipe
unfolding take_byte
drain zero p = ([], p)
drain (suc n) p =
    let (l, q) = drain n (take_byte p) in if p.count == 0 then ([], p) else (p.buf p.tail ∷ l, q)

-- `none` is a reader that waits: the pipe is empty, and its writing end is open.
unfoldable pub pipe_read : Pipe → ℕ → Option (List ℕ × Pipe)
pipe_read p n =
    if p.count == 0 then if p.write_closed then some ([], p) else none else some (drain n p)

-- The loop of `pipe_write` over the bytes left. Where the buffer is full the writer waits; the
-- bytes that it still has to write are returned.
unfoldable pub fill_pipe : List ℕ → Pipe → List ℕ × Pipe
unfolding put_byte
fill_pipe [] p = ([], p)
fill_pipe (c ∷ s) p =
    let rest = fill_pipe s (put_byte p c) in if leb pipe_buf_size p.count then (c ∷ s, p) else rest

-- What a call of `pipe_write` comes to: SIGPIPE for the caller and -EINVAL, or all bytes written
-- and their number, or a wait with bytes left.
pub data Written : Type 0 where
  broken : Ret → Written
  wrote : Ret → Pipe → Written
  waits : List ℕ → Pipe → Written

unfoldable pub written : ℕ → List ℕ × Pipe → Written
written n ([], p) = wrote (ret n) p
written n (c ∷ s, p) = waits (c ∷ s) p

unfoldable pub pipe_write : Pipe → List ℕ → ℕ → Written
unfolding written fill_pipe
pipe_write p src n = if p.read_closed then broken (err einval) else written n (fill_pipe src p)

abbrev pub pred_ℤ : ℤ → ℤ
pred_ℤ (pos zero) = negsuc 0
pred_ℤ (pos (suc n)) = pos n
pred_ℤ (negsuc n) = negsuc (suc n)

abbrev pub is_pos : ℤ → Bool
is_pos (pos (suc n)) = true
is_pos _ = false

-- `none` is the pipe freed. The end is the writing one if the file was opened `O_WRONLY`.
unfoldable pub pipe_close : Bool → Pipe → Option Pipe
pipe_close wronly p =
    let rest = pred_ℤ p.refcount in
    let q =
      if wronly
      then record p { write_closed = true; refcount = rest }
      else record p { read_closed = true; refcount = rest } in
    if is_pos rest then some q else none
