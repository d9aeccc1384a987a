-- ===== src/Proc/Wake.antt =====
-- kernel/proc.c: `sleep` and `wakeup` on the table.
use os_study.Prelude.{
  get_elem?-set, lt-length, ℕ, ◌+◌, ◌≡◌, ◌≢◌, subst, ◌∙◌, some, arith, if◌then◌else◌, ◌==◌,
  get_elem?,
}
use mathlib.Core.Option
use os_study.Proc.{Proc, Table, runnable, sleeping, wakeup, wake_one, sleep}
use os_study.Proc.Slots.{get_elem?-each_from}

pub get_elem?-wakeup :
    (me chan : ℕ) (t : Table) (j : ℕ)
    → get_elem? (wakeup me chan t).procs j ≡ Option.map (wake_one me chan j) (get_elem? t.procs j)
unfolding wakeup
get_elem?-wakeup me chan t j =
    let zero_add : 0 + j ≡ j = omega arith in
    subst
      (λ k.
        get_elem? (wakeup me chan t).procs j
        ≡ Option.map (wake_one me chan k) (get_elem? t.procs j))
      zero_add (get_elem?-each_from (wake_one me chan) t.procs 0 j)

-- A process that sleeps on a channel is made runnable by another process's `wakeup` of that
-- channel, and sleeps on after a `wakeup` of any other; nothing else about it changes.
pub wakeup-sleep :
    (t : Table) (i me chan c : ℕ) {p : Proc}
    → get_elem? t.procs i ≡ some p
    → me ≢ i
    → get_elem? (wakeup me c (sleep i chan t)).procs i
      ≡ some (record p { chan = chan; state = if chan == c then runnable else sleeping })
unfolding sleep
wakeup-sleep t i me chan c {p} e other =
    let here =
      get_elem?-set t.procs i i (record p { chan = chan; state = sleeping })
        (lt-length t.procs i e) in
    get_elem?-wakeup me c (sleep i chan t) i ∙ ground (arith, here)
