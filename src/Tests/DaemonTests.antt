-- ===== src/Tests/DaemonTests.antt =====
-- The theorems on the daemon at concrete inputs.
use passdoq.Prelude.{
  ℕ, Option, none, some, ltb, leb, ◌==◌, if◌then◌else◌, arith, ◌≡◌, refl, true, false, [], ◌∷◌,
  ◌++◌, ◌+◌,
}
use passdoq.Prelude.Exec.{ok}
use passdoq.Prelude.Text.{Text, codes}
use passdoq.Services.{Service, Registry, stopped, start_all}
use passdoq.Daemon.{
  Host, in_child, Daemon, default_config, new_daemon, returned, looping, start_daemon, begin_stop,
  daemonize,
}
use passdoq.Daemon.Redirection.{Descriptors, close}
use passdoq.Daemon.Laws.{
  worker_runs, caller_runs, run_turns, stopped_daemon, stop_ends, start_daemon-detached,
}

-- `open` gives the lowest descriptor that is free, of the first four.
abbrev free_one : Option Text → Option ℕ → ℕ → Option ℕ
free_one none rest n = some n
free_one (some file) rest n = rest

abbrev lowest_free : Descriptors → Option ℕ
lowest_free u = free_one (u 0) (free_one (u 1) (free_one (u 2) (free_one (u 3) none 3) 2) 1) 0

lowest_free-none : (u : Descriptors) (fd : ℕ) → lowest_free u ≡ some fd → u fd ≡ none
lowest_free-none u fd e = grind (arith, e)

-- A host on which every call succeeds.
abbrev host : Host
host = record {
  first_fork = in_child;
  setsid = true;
  second_fork = in_child;
  chdir = true;
  open_null = λ u. lowest_free u;
  can_write_pid = true;
  can_unlink = true;
}

-- A service that counts its starts, and one whose `start` fails.
abbrev counter : Service ℕ
counter = record {
  name = codes "a";
  status = λ n. stopped;
  start = λ n. (true, n + 1);
  stop = λ n. (true, n);
  self = 0;
}

abbrev broken : Service ℕ
broken = record counter { name = codes "b"; start = λ n. (false, n) }

abbrev both : Registry ℕ
both = record { services = (codes "a", counter) ∷ (codes "b", broken) ∷ []; log = [] }

abbrev idle : Daemon ℕ
idle = record (new_daemon (record default_config { daemonize = false }) (λ n. none)) {
  services = both;
}

abbrev active : Daemon ℕ
active = record idle { is_running = true; worker = looping; pid_written = true }

stop_ends_example :
    let (r, e) = begin_stop host false active in
    (r ≡ ok true)
    × (run_turns host ((caller_runs ∷ []) ++ worker_runs ∷ [] ++ caller_runs ∷ []) e
        ≡ stopped_daemon host active)
stop_ends_example = stop_ends host (caller_runs ∷ []) [] [] active refl refl

-- A terminal on the standard descriptors, and another file.
abbrev terminal : Descriptors
terminal n =
    if ltb n 3 then some (codes "/dev/tty") else if n == 5 then some (codes "log") else none

abbrev detached : Daemon ℕ
detached = record (new_daemon default_config terminal) {
  services = record { services = (codes "a", counter) ∷ []; log = [] };
}

start_daemon-detached_example :
    let (r, e) = start_daemon host detached in
    let u = close 2 (close 1 (close 0 detached.descriptors)) in
    (r ≡ returned true)
    × (e.is_running ≡ true)
    × (e.worker ≡ looping)
    × (e.pid_written ≡ true)
    × (e.services ≡ (start_all detached.services).1)
    × (e.descriptors 5 ≡ (
        if leb 5 2
        then elim (host.open_null u) [ none ↦ none | some fd ↦ some (codes "/dev/null") ]
        else detached.descriptors 5))
unfolding start_all daemonize
start_daemon-detached_example =
    start_daemon-detached host detached 5 refl refl refl lowest_free-none refl refl
