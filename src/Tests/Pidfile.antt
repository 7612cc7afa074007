-- ===== src/Tests/Pidfile.antt =====
-- Two agents with one pidfile (pidfile/pidfile.go).
use mackerel_agent.Prelude.{
  print_decimal, ℕ, ◌≡◌, ◌≢◌, refl, true, [], ◌∷◌, ok, err, arith, insert, lookup,
}
use mackerel_agent.Pidfile.{Process, found, create}
use mackerel_agent.Pidfile.Exclusive.{create_exclusive}

abbrev agent : ℕ → Process
agent n = record {
  pid = n;
  program = "mackerel-agent";
  cmd_name = λ z. "mackerel-agent";
  made = true;
  created = true;
}

created : create (agent 123) "/run/a.pid" [] ≡ ok (("/run/a.pid", "123") ∷ [])
unfolding create print_decimal insert lookup
created = refl

another : (agent 124).pid ≢ (agent 123).pid
another h = absurd (omega arith)

create_exclusive_example : create (agent 124) "/run/a.pid" (("/run/a.pid", "123") ∷ []) ≡ err found
create_exclusive_example =
    create_exclusive (agent 123) (agent 124) "/run/a.pid" [] (("/run/a.pid", "123") ∷ []) refl
      (omega arith) created another refl
