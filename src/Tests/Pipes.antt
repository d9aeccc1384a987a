-- ===== src/Tests/Pipes.antt =====
-- kernel/pipe.c: a pipe whose counters wrap, and a pair of calls.
use os_study.Prelude.{
  ◌≤◌, ◌≡◌, refl, true, false, some, none, List, [], ◌∷◌, ◌++◌, pos, arith, length, if◌then◌else◌,
  ltb,
}
use os_study.Pipe.{
  Pipe, Caller, returns, pipe_size, pipe_init, put, front, advance, pipewrite, piperead, pipeclose,
}
use os_study.Pipe.Ring.{IsValid, contents, window}
use os_study.Pipe.Write.{Wrote, pipewrite_lem}
use os_study.Pipe.Fifo.{Call, writes, reads, closes, call, calls, fresh, fifo}

-- 2 bytes held, and `nwrite` has wrapped to 1.
abbrev wrapped : Pipe
wrapped = record {
  bytes = λ i. if ltb i 10 then 7 else 8;
  nread = 0xffffffff;
  nwrite = 1;
  readopen = true;
  writeopen = true;
}

-- The user's byte at `a` is `a`, up to address 99.
abbrev user : Caller
user = record {
  killed = λ i. false;
  copyin = λ a. if ltb a 100 then some a else none;
  copyout = λ a. ltb a 100;
}

wrapped-IsValid : IsValid wrapped
wrapped-IsValid = omega arith

contents-wrapped : contents wrapped ≡ 8 ∷ 7 ∷ []
unfolding window
contents-wrapped = refl

-- `copyin` fails at address 100.
pipewrite_stops : (pipewrite user wrapped 98 (pos 5)).progress ≡ returns (pos 2)
unfolding pipewrite put
pipewrite_stops = refl

piperead_runs : (piperead user wrapped 0 (pos 5)).moved ≡ 8 ∷ 7 ∷ []
unfolding piperead front advance
piperead_runs = refl

pipewrite_lem_example : Wrote user wrapped 98 0 5 (pipewrite user wrapped 98 (pos 5))
pipewrite_lem_example = pipewrite_lem user wrapped 98 (pos 5) wrapped-IsValid

abbrev script : List Call
script = writes user 97 (pos 5) ∷ reads user 0 (pos 2) ∷ closes true ∷ []

script_runs : (calls (fresh (λ i. 0)) script).read ≡ 97 ∷ 98 ∷ []
unfolding calls call pipewrite piperead pipeclose put front advance pipe_init
script_runs = refl

fifo_example :
    let h = calls (fresh (λ i. 0)) script in
    (h.written ≡ h.read ++ contents h.pipe) × (length (contents h.pipe) ≤ pipe_size)
fifo_example = fifo (λ i. 0) script
