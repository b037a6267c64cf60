-- ===== src/Tests/Ipc.antt =====
-- kernel/ipc/pipe.c on a pipe that wraps round.
use sinux.Prelude.{◌≡◌, refl, List, [], ◌∷◌, ◌++◌, arith}
use sinux.Ipc.Pipe.{Pipe, pipe_alloc}
use sinux.Ipc.Pipe.Create.{Blocks, pipe_create, Outcome, pipe_create_lem}
use sinux.Proc.Types.{zero_process}
use sinux.Ipc.Pipe.Fifo.{IsValid}
use sinux.Ipc.Pipe.Session.{Event, write, read, Session, run, sent, stream, run_lem}

-- Two bytes, the last and the first of the buffer.
abbrev wrapped : Pipe
wrapped = record pipe_alloc { buf = λ i. i; tail = 4095; head = 1; count = 2 }

wrapped-IsValid : IsValid wrapped
wrapped-IsValid = record { tail_in = omega arith; count_in = omega arith; head_at = refl }

abbrev start : Session
start = record { pipe = wrapped; pending = []; received = [] }

abbrev events : List Event
events = write (7 ∷ 8 ∷ []) ∷ read 3 ∷ write (9 ∷ []) ∷ read 4 ∷ []

run_lem_example :
    IsValid (run start events).pipe × (stream (run start events) ≡ stream start ++ sent events)
run_lem_example = run_lem start events wrapped-IsValid

abbrev blocks : Blocks
blocks = record { pipe = 1; ri = 2; wi = 3; rf = 4; wf = 5 }

pipe_create_lem_example : Outcome blocks zero_process (pipe_create blocks zero_process)
pipe_create_lem_example = pipe_create_lem blocks zero_process refl
