-- ===== src/Pidfile/Exclusive.antt =====
-- A pidfile keeps a second agent from starting (pidfile/pidfile.go).
use mackerel_agent.Prelude.{
  digit, print, print_decimal, code-digit, print-first, String, ℕ, zero, suc, ◌/◌, ◌%◌, ◌≤◌, ◌<◌,
  true, false, some, Dict, lookup, lookup-insert, eq_refl, is_nil, Char, code, ==_iff, ltb, eq_iff,
  ok, err, ◌≡◌, ◌≢◌, arith, inl, inr, Option-cases, Bool-cases, ◌∙◌, ap,
}
use mackerel_agent.Prelude.Int.{ℤ, pos, negsuc}
use mackerel_agent.Pidfile.{
  digits, atoi, Process, found, write_pid, same_pid, check_running, create,
}

digits-print : (k n : ℕ) (s : String) → n < k → digits 0 (print k n s) ≡ digits n s
unfolding digits print
digits-print zero n s h = absurd (omega arith)
digits-print (suc k) n s h = elim (Bool-cases (ltb n 10)) [
  | inl small ↦ ground (arith, code-digit n)
  | inr large ↦
      ground (arith, code-digit (n % 10), digits-print k (n / 10) (String.◌∷◌ (digit (n % 10)) s))
]

atoi-number :
    (c : Char) (s : String) (n : ℕ)
    → b'0' ≤ code c
    → digits 0 (String.◌∷◌ c s) ≡ some n
    → n < 9223372036854775808
    → atoi (String.◌∷◌ c s) ≡ some (pos n)
unfolding atoi
atoi-number c s n l d h = ground arith

-- A process number is read back as it was printed.
atoi-print_decimal : (n : ℕ) → n < 9223372036854775808 → atoi (print_decimal n) ≡ some (pos n)
unfolding print_decimal digits
atoi-print_decimal n h =
    let (c, rest, e, l) = print-first (suc n) n "" (omega arith) in
    let d = digits-print (suc n) n "" (omega arith) in
    rw e (atoi-number c rest n l (ground arith) h)

write_pid-holds :
    (p : Process) (f : String) (files files' : Dict String)
    → p.pid < 9223372036854775808
    → write_pid p f files ≡ ok files'
    → (content : String) × (lookup f files' ≡ some content) × (atoi content ≡ some (pos p.pid))
unfolding write_pid
write_pid-holds p f files files' h w = (
  print_decimal p.pid,
  ground (arith, lookup-insert f f (print_decimal p.pid) files, eq_refl f),
  atoi-print_decimal p.pid h,
)

same_pid-path : (n : ℕ) (z : ℤ) → same_pid n z ≡ true → z ≡ pos n
same_pid-path n (pos k) h = ap pos ((==_iff k n).0 h)
same_pid-path n (negsuc k) h = absurd (ground arith)

check_running-holds :
    (p : Process) (f content : String) (files files' : Dict String) (z : ℤ)
    → p.pid < 9223372036854775808
    → lookup f files ≡ some content
    → atoi content ≡ some z
    → check_running p f files z ≡ ok files'
    → (content : String) × (lookup f files' ≡ some content) × (atoi content ≡ some (pos p.pid))
check_running-holds p f content files files' z h l a c = elim (Bool-cases (same_pid p.pid z)) [
  | inl same ↦ (content, ground arith, a ∙ ap (λ y. some y) (same_pid-path p.pid z same))
  | inr other ↦ write_pid-holds p f files files' h (ground arith)
]

create-holds :
    (p : Process) (f : String) (files files' : Dict String)
    → is_nil f ≡ false
    → p.pid < 9223372036854775808
    → create p f files ≡ ok files'
    → (content : String) × (lookup f files' ≡ some content) × (atoi content ≡ some (pos p.pid))
unfolding create
create-holds p f files files' given h c = elim (Option-cases (lookup f files)) [
  | inl n ↦ write_pid-holds p f files files' h (ground arith)
  | inr (content, l) ↦ elim (Option-cases (atoi content)) [
    | inl n ↦ write_pid-holds p f files files' h (ground arith)
    | inr (z, a) ↦ check_running-holds p f content files files' z h l a (ground arith)
  ]
]

refused :
    (p q : Process) (f content : String) (files : Dict String)
    → is_nil f ≡ false
    → lookup f files ≡ some content
    → atoi content ≡ some (pos p.pid)
    → q.pid ≢ p.pid
    → q.cmd_name (pos p.pid) ≡ q.program
    → create q f files ≡ err found
unfolding create
refused p q f content files given l a other running =
    ground (arith, ==_iff p.pid q.pid, eq_iff (q.cmd_name (pos p.pid)) q.program)

-- After a process has created its pidfile, and as long as the file is left as it is and the process
-- runs, no other process of the same program can create it.
pub create_exclusive :
    (p q : Process) (f : String) (files files' : Dict String)
    → is_nil f ≡ false
    → p.pid < 9223372036854775808
    → create p f files ≡ ok files'
    → q.pid ≢ p.pid
    → q.cmd_name (pos p.pid) ≡ q.program
    → create q f files' ≡ err found
create_exclusive p q f files files' given h c other running =
    let (content, l, a) = create-holds p f files files' given h c in
    refused p q f content files' given l a other running
