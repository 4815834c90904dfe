-- ===== src/Daemon.antt =====
-- src/daemon.cpp and src/daemon.hpp: start and stop of the daemon, and the loop of its worker
-- thread, which runs beside the thread that calls `stop`.
pub mod Laws
pub mod Redirection
use passdoq.Prelude.{
  ℕ, Option, none, some, Bool, true, false, not, ◌&&◌, List, [], ◌∷◌, if◌then◌else◌,
}
use passdoq.Prelude.Exec.{Result, ok, throw, fault, runtime_error}
use passdoq.Prelude.Text.{Text, codes}
use passdoq.Daemon.Redirection.{Descriptors, redirect}
use passdoq.Services.{Registry, empty_registry, start_all, stop_all}

-- What `fork` returns: an error, the process id of the child, or 0.
pub data Fork : Type 0 where
  fork_failed in_parent in_child : Fork

-- The results of the system calls.
pub record Host : Type 0 where
  pub first_fork : Fork
  pub setsid : Bool
  pub second_fork : Fork
  pub chdir : Bool
  -- the descriptor of a new `/dev/null`; `none` is a result below 0
  pub open_null : Descriptors → Option ℕ
  pub can_write_pid : Bool
  pub can_unlink : Bool

pub record DaemonConfig : Type 0 where
  pub pid_file : Text
  pub socket_path : Text
  pub log_file : Text
  pub daemonize : Bool

abbrev pub default_config : DaemonConfig
default_config = record {
  pid_file = codes "/var/run/passdoqd.pid";
  socket_path = codes "/var/run/passdoqd.sock";
  log_file = codes "/var/log/passdoqd.log";
  daemonize = true;
}

-- The worker thread: not started, in its loop, past its loop, or joined.
pub data Worker : Type 0 where
  no_worker looping ended joined : Worker

-- The thread that called `stop`: not in `stop`, or waiting for the worker.
pub data Caller : Type 0 where
  elsewhere joining : Caller

pub record Daemon (S : Type 0) : Type 0 where
  pub config : DaemonConfig
  pub services : Registry S
  pub is_running : Bool
  pub worker : Worker
  pub caller : Caller
  -- whether the pid file is there
  pub pid_written : Bool
  -- the files of the process
  pub descriptors : Descriptors
  -- whether `instance_` is this daemon
  pub is_instance : Bool

-- What comes of a signal: the process goes on, or `std::terminate` ends it.
pub data Handled : Type 0 where
  handled terminated : Handled

-- A process that goes on, with a result, or one that called `exit(0)`.
pub data Outcome : Type 0 where
  returned : Bool → Outcome
  exited : Outcome

-- `Daemon::daemonize`, from the second fork on, and from the first.
abbrev after_second : Host → Fork → Outcome
after_second h fork_failed = returned false
after_second h in_parent = exited
after_second h in_child = returned h.chdir

abbrev after_first : Host → Fork → Outcome
after_first h fork_failed = returned false
after_first h in_parent = exited
after_first h in_child = if not h.setsid then returned false else after_second h h.second_fork

-- What `Daemon::daemonize` returns; its end, which it reaches where it returns true, redirects the
-- descriptors.
unfoldable pub daemonize : Host → Outcome
daemonize h = after_first h h.first_fork

-- `worker_thread_ && worker_thread_->joinable()`
abbrev pub is_joinable : Worker → Bool
is_joinable no_worker = false
is_joinable looping = true
is_joinable ended = true
is_joinable joined = false

-- The test of the loop of `run`.
abbrev pub next_round : Worker → Bool → Worker
next_round no_worker r = no_worker
next_round looping r = if r then looping else ended
next_round ended r = ended
next_round joined r = joined

module _ {S : Type 0} where
  -- `Daemon::Daemon`
  abbrev pub new_daemon : DaemonConfig → Descriptors → Daemon S
  new_daemon config descriptors = record {
    config = config;
    services = empty_registry;
    is_running = false;
    worker = no_worker;
    caller = elsewhere;
    pid_written = false;
    descriptors = descriptors;
    is_instance = true;
  }

  unfoldable pub write_pid_file : Host → Daemon S → Bool × Daemon S
  write_pid_file h d =
      if h.can_write_pid then (true, record d { pid_written = true }) else (false, d)

  unfoldable pub remove_pid_file : Host → Daemon S → Daemon S
  remove_pid_file h d = record d { pid_written = d.pid_written && not h.can_unlink }

  -- `start` from the start of the services on.
  abbrev pub start_services : Daemon S → Outcome × Daemon S
  start_services d =
      let (all, services) = start_all d.services in
      if not all
      then (returned false, record d { services = services })
      else (returned true, record d { services = services; is_running = true; worker = looping })

  abbrev pub start_process : Host → Outcome → Daemon S → Outcome × Daemon S
  start_process h exited d = (exited, d)
  start_process h (returned false) d = (returned false, d)
  start_process h (returned true) d =
      let (written, e) = write_pid_file h d in
      if not written then (returned false, e) else start_services e

  abbrev pub redirect_if : Host → Outcome → Daemon S → Daemon S
  redirect_if h exited d = d
  redirect_if h (returned false) d = d
  redirect_if h (returned true) d = record d { descriptors = redirect h.open_null d.descriptors }

  -- `Daemon::start`
  unfoldable pub start_daemon : Host → Daemon S → Outcome × Daemon S
  unfolding daemonize write_pid_file redirect
  start_daemon h d =
      if d.is_running
      then (returned false, d)
      else if d.config.daemonize
      then start_process h (daemonize h) (redirect_if h (daemonize h) d)
      else start_process h (returned true) d

  -- The end of `stop`, once the worker is joined.
  unfoldable pub finish_stop : Host → Daemon S → Daemon S
  unfolding remove_pid_file
  finish_stop h d =
      remove_pid_file h (record d { services = (stop_all d.services).1; caller = elsewhere })

  -- `Daemon::stop` up to the wait for the worker, called on the worker thread itself or on another
  -- one. A thread that joins itself throws `std::system_error`.
  unfoldable pub begin_stop : Host → Bool → Daemon S → Result Bool × Daemon S
  unfolding finish_stop
  begin_stop h on_worker d =
      if not d.is_running
      then (ok false, d)
      else if not (is_joinable d.worker)
      then (ok true, finish_stop h (record d { is_running = false }))
      else if on_worker
      then (
        throw (runtime_error (codes "Resource deadlock avoided")),
        record d { is_running = false },
      )
      else (ok true, record d { is_running = false; caller = joining })

  -- What a signal comes to: the result of `stop` is dropped, and an exception that leaves the handler
  -- on the worker thread leaves `run` with it, which terminates the process.
  abbrev pub end_of_signal : Result Bool × Daemon S → Handled × Daemon S
  end_of_signal (ok b, d) = (handled, d)
  end_of_signal (throw e, d) = (terminated, d)
  end_of_signal (fault, d) = (terminated, d)

  -- `Daemon::signal_handler`, on the thread that the signal interrupts, up to the wait for the worker.
  unfoldable pub signal_handler : Host → Bool → Daemon S → Handled × Daemon S
  unfolding begin_stop
  signal_handler h on_worker d =
      if not d.is_instance then (handled, d) else end_of_signal (begin_stop h on_worker d)

  -- The end of `Daemon::~Daemon`, once its `stop` has returned.
  abbrev pub finish_destroy : Daemon S → Daemon S
  finish_destroy d = record d { is_instance = false }

  -- One round of `Daemon::run`: the test of the loop, and the sleep.
  abbrev pub worker_turn : Daemon S → Daemon S
  worker_turn d = record d { worker = next_round d.worker d.is_running }

  abbrev pub join_worker : Host → Caller → Worker → Daemon S → Daemon S
  join_worker h elsewhere w d = d
  join_worker h joining ended d = finish_stop h (record d { worker = joined })
  join_worker h joining no_worker d = d
  join_worker h joining looping d = d
  join_worker h joining joined d = d

  -- The return of `join`, and what follows it, where the worker has ended.
  abbrev pub caller_turn : Host → Daemon S → Daemon S
  caller_turn h d = join_worker h d.caller d.worker d
