-- ===== src/Pipe/Fifo.antt =====
-- kernel/pipe.c: calls of `pipewrite`, `piperead` and `pipeclose` in any order.
use os_study.Prelude.{
  ℕ, ◌≡◌, refl, ap, sym, ◌∙◌, Bool, true, false, List, [], ◌∷◌, ◌++◌, arith, ℤ, ◌≤◌, length, not,
  ◌&&◌, if◌then◌else◌,
}
use mathlib.Core.List.{append_assoc}
use os_study.Pipe.{Pipe, Caller, pipe_size, pipe_init, pipewrite, piperead, pipeclose}
use os_study.Pipe.Ring.{count, IsValid, contents, length-window, window}
use os_study.Pipe.Write.{pipewrite_lem}
use os_study.Pipe.Read.{piperead_lem}

-- One call of some process, up to where it returns or sleeps.
pub data Call : Type 0 where
  writes : Caller → ℕ → ℤ → Call
  reads : Caller → ℕ → ℤ → Call
  closes : Bool → Call

pub record History : Type 0 where
  pub pipe : Pipe
  pub written : List ℕ
  pub read : List ℕ

unfoldable pub call : History → Call → History
call h (writes c addr n) =
    let r = pipewrite c h.pipe addr n in
    record { pipe = r.pipe; written = h.written ++ r.moved; read = h.read }
call h (reads c addr n) =
    let r = piperead c h.pipe addr n in
    record { pipe = r.pipe; written = h.written; read = h.read ++ r.moved }
call h (closes writable) = record h { pipe = (pipeclose h.pipe writable).pipe }

unfoldable pub calls : History → List Call → History
calls h [] = h
calls h (c ∷ cs) = calls (call h c) cs

abbrev pub fresh : (ℕ → ℕ) → History
fresh bytes = record { pipe = pipe_init bytes; written = []; read = [] }

record Inv (h : History) : Type 0 where
  valid : IsValid h.pipe
  balance : h.written ≡ h.read ++ contents h.pipe

call-Inv : (h : History) (c : Call) → Inv h → Inv (call h c)
unfolding call
call-Inv h (writes c addr n) v =
    let w = pipewrite_lem c h.pipe addr n v.valid in
    record {
      valid = w.valid;
      balance =
          ap (λ l. l ++ (pipewrite c h.pipe addr n).moved) v.balance
          ∙ append_assoc h.read (contents h.pipe) (pipewrite c h.pipe addr n).moved
          ∙ ap (λ l. h.read ++ l) (sym w.queued);
    }
call-Inv h (reads c addr n) v =
    let w = piperead_lem c h.pipe addr n v.valid in
    record {
      valid = w.valid;
      balance =
          v.balance
          ∙ ap (λ l. h.read ++ l) w.dequeued
          ∙ sym (
              append_assoc h.read (piperead c h.pipe addr n).moved
                (contents (piperead c h.pipe addr n).pipe));
    }
call-Inv h (closes true) v =
    unfold pipeclose in (record { valid = omega (arith, v.valid); balance = v.balance })
call-Inv h (closes false) v =
    unfold pipeclose in (record { valid = omega (arith, v.valid); balance = v.balance })

calls-Inv : (h : History) (cs : List Call) → Inv h → Inv (calls h cs)
unfolding calls
calls-Inv h [] v = v
calls-Inv h (c ∷ cs) v = calls-Inv (call h c) cs (call-Inv h c v)

fresh-Inv : (bytes : ℕ → ℕ) → Inv (fresh bytes)
unfolding pipe_init window
fresh-Inv bytes = record { valid = omega arith; balance = refl }

-- After any calls on a new pipe, by any processes and with failures anywhere, the bytes written so
-- far are the bytes read so far followed by the bytes in the ring, which are at most `PIPESIZE`:
-- nothing is lost, repeated or reordered.
pub fifo :
    (bytes : ℕ → ℕ) (cs : List Call)
    → let h = calls (fresh bytes) cs in
      (h.written ≡ h.read ++ contents h.pipe) × (length (contents h.pipe) ≤ pipe_size)
fifo bytes cs =
    let v = calls-Inv (fresh bytes) cs (fresh-Inv bytes) in
    let p = (calls (fresh bytes) cs).pipe in
    (v.balance, omega (arith, length-window p.bytes p.nread (count p), v.valid.fits))

-- `pipeclose` closes the end that it names and no other, leaves the queue as it is, and gives the
-- page back exactly when the other end was closed before.
pub pipeclose_lem :
    (p : Pipe) (writable : Bool)
    → let c = pipeclose p writable in
      (c.pipe.writeopen ≡ (p.writeopen && not writable))
      × (c.pipe.readopen ≡ (p.readopen && writable))
      × (contents c.pipe ≡ contents p)
      × (c.freed ≡ not (if writable then p.readopen else p.writeopen))
unfolding pipeclose
pipeclose_lem p true = ground arith
pipeclose_lem p false = ground arith
