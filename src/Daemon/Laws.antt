-- ===== src/Daemon/Laws.antt =====
-- Stopping the daemon: it comes to an end under every schedule of its two threads; what a start that
-- forks leaves, and a failed one.
use passdoq.Prelude.{
  ℕ, leb, if◌then◌else◌, none, some, ◌≡◌, refl, true, false, not, ◌&&◌, List, [], ◌∷◌, ◌++◌,
}
use passdoq.Prelude.Exec.{ok}
use passdoq.Prelude.Text.{codes}
use passdoq.Services.{start_all, stop_all}
use passdoq.Daemon.Redirection.{Descriptors, close, redirect_lem}
use passdoq.Daemon.{
  Host, Daemon, returned, Worker, looping, ended, joined, elsewhere, joining, finish_stop,
  start_daemon, daemonize, write_pid_file, remove_pid_file, begin_stop, worker_turn, caller_turn,
}

-- Which of the two threads goes on.
pub data Turn : Type 0 where
  worker_runs caller_runs : Turn

module _ {S : Type 0} (h : Host) where
  abbrev turn : Turn → Daemon S → Daemon S
  turn worker_runs d = worker_turn d
  turn caller_runs d = caller_turn h d

  abbrev pub run_turns : List Turn → Daemon S → Daemon S
  run_turns [] d = d
  run_turns (t ∷ ts) d = run_turns ts (turn t d)

  -- The daemon when `stop` has returned.
  abbrev pub stopped_daemon : Daemon S → Daemon S
  stopped_daemon d = record d {
    services = (stop_all d.services).1;
    is_running = false;
    worker = joined;
    caller = elsewhere;
    pid_written = d.pid_written && not h.can_unlink;
  }

  -- Between `stop` and its return: the worker is still in its loop, or past it.
  abbrev waiting : Worker → Daemon S → Daemon S
  waiting w d = record d { is_running = false; caller = joining; worker = w }

  stopped_stays :
      (ts : List Turn) (d : Daemon S) → run_turns ts (stopped_daemon d) ≡ stopped_daemon d
  stopped_stays [] d = refl
  stopped_stays (worker_runs ∷ ts) d = stopped_stays ts d
  stopped_stays (caller_runs ∷ ts) d = stopped_stays ts d

  -- Once the worker is past its loop, the caller's next turn ends the stop.
  ended_finishes :
      (ts us : List Turn) (d : Daemon S)
      → run_turns (ts ++ caller_runs ∷ us) (waiting ended d) ≡ stopped_daemon d
  unfolding finish_stop remove_pid_file
  ended_finishes [] us d = stopped_stays us d
  ended_finishes (worker_runs ∷ ts) us d = ended_finishes ts us d
  ended_finishes (caller_runs ∷ ts) us d = stopped_stays (ts ++ caller_runs ∷ us) d

  looping_finishes :
      (ts us vs : List Turn) (d : Daemon S)
      → run_turns (ts ++ worker_runs ∷ us ++ caller_runs ∷ vs) (waiting looping d)
        ≡ stopped_daemon d
  looping_finishes [] us vs d = ended_finishes us vs d
  looping_finishes (worker_runs ∷ ts) us vs d = ended_finishes (ts ++ worker_runs ∷ us) vs d
  looping_finishes (caller_runs ∷ ts) us vs d = looping_finishes ts us vs d

  -- A stop of a running daemon, called beside its worker, comes to an end under every schedule in
  -- which the worker and later the caller get a turn: the worker is joined, all services are
  -- stopped, once, and the pid file is removed where that can be done; and further turns change
  -- nothing.
  pub stop_ends :
      (ts us vs : List Turn) (d : Daemon S)
      → d.is_running ≡ true
      → d.worker ≡ looping
      → let (r, e) = begin_stop h false d in
        (r ≡ ok true)
        × (run_turns (ts ++ worker_runs ∷ us ++ caller_runs ∷ vs) e ≡ stopped_daemon d)
  unfolding begin_stop
  stop_ends ts us vs d running w = rw (running, w) (refl, looping_finishes ts us vs d)

  -- A start without a fork, whose pid file can be written and whose services do not all start,
  -- returns false; the pid file stays, the services that did start go on, and a stop afterwards
  -- returns false and changes nothing.
  start_failed-leaves :
      (d : Daemon S)
      → d.is_running ≡ false
      → d.config.daemonize ≡ false
      → h.can_write_pid ≡ true
      → (start_all d.services).0 ≡ false
      → let (r, e) = start_daemon h d in
        let (again, f) = begin_stop h false e in
        (r ≡ returned false)
        × (e ≡ record d { pid_written = true; services = (start_all d.services).1 })
        × (again ≡ ok false)
        × (f ≡ e)
  unfolding begin_stop start_daemon write_pid_file
  start_failed-leaves d idle plain writes fails =
      rw (idle, plain, writes) (rw fails (refl, refl, refl, refl))

  -- A start that forks, where every system call succeeds, `open` gives a descriptor that is free, and
  -- all services start, returns true in the process that is left: the daemon runs with its worker,
  -- the pid file and its services, its standard descriptors stand for `/dev/null`, or are closed
  -- where that cannot be opened, and the other descriptors stand for what they did.
  pub start_daemon-detached :
      (d : Daemon S) (n : ℕ)
      → d.is_running ≡ false
      → d.config.daemonize ≡ true
      → daemonize h ≡ returned true
      → ((u : Descriptors) (fd : ℕ) → h.open_null u ≡ some fd → u fd ≡ none)
      → h.can_write_pid ≡ true
      → (start_all d.services).0 ≡ true
      → let (r, e) = start_daemon h d in
        let u = close 2 (close 1 (close 0 d.descriptors)) in
        (r ≡ returned true)
        × (e.is_running ≡ true)
        × (e.worker ≡ looping)
        × (e.pid_written ≡ true)
        × (e.services ≡ (start_all d.services).1)
        × (e.descriptors n ≡ (
            if leb n 2
            then elim (h.open_null u) [ none ↦ none | some fd ↦ some (codes "/dev/null") ]
            else d.descriptors n))
  unfolding start_daemon write_pid_file
  start_daemon-detached d n idle forks detached free writes all =
      rw (idle, forks, detached, writes)
        (rw all (refl, refl, refl, refl, refl, redirect_lem h.open_null d.descriptors n free))
