-- ===== src/Main/Daemon.antt =====
-- `daemonize` and `notify_parent` of usbfluxd/main.c, and what `main` does with them. Each process
-- that `fork` makes is a run of its own; a result `some n` is -n.
pub mod Reports
use usbfluxd.Prelude.{
  ℕ, ◌%◌, ◌==◌, ◌++◌, length, if◌then◌else◌, Bool, true, false, Option, none, some, List, [], take,
}
use usbfluxd.Proto.{bytes_of_u32, u32_at}
use usbfluxd.Main.Options.{Options}
use usbfluxd.Main.Start.{Created, Outcomes, Run, detach}

-- What `fork` returns, in the process that it returns in.
pub data Forked : Type 0 where
  fork_failed in_parent in_child : Forked

-- The outcomes of the calls of `daemonize` in a process.
pub record Calls : Type 0 where
  pub is_daemon : Bool
  pub pipe_ok : Bool
  pub first : Forked
  -- What `read` gets of the status; it waits until four bytes are there or all write ends are closed.
  pub status_read : List ℕ
  pub setsid_ok : Bool
  pub second : Forked
  pub chdir_ok : Bool
  pub stdin_ok : Bool
  pub stdout_ok : Bool

-- The variable `report_to_parent`, which ends of the pipe are open, and what was written to it.
pub record Process : Type 0 where
  pub report_to_parent : Bool
  pub read_end : Bool
  pub write_end : Bool
  pub sent : List ℕ

abbrev pub no_pipe : Process
no_pipe = record { report_to_parent = false; read_end = false; write_end = false; sent = [] }

-- `exit` with a status, which the system cuts to eight bits, or a return.
pub data Detached : Type 0 where
  exits : ℕ → Process → Detached
  returns : Option ℕ → Process → Detached

-- The status that the parent exits with.
pub exit_status : List ℕ → ℕ
exit_status bytes = if length bytes == 4 then u32_at bytes 0 % 256 else 1

-- `daemonize` after the second `fork`, in the process that stays.
pub leave_console : Calls → Process → Detached
leave_console c p =
    if c.chdir_ok
    then if c.stdin_ok
      then if c.stdout_ok then returns none p else returns (some 3) p
      else returns (some 3) p
    else returns (some 2) p

pub fork_again : Calls → Process → Detached
unfolding leave_console
fork_again c p =
    if c.setsid_ok
    then elim c.second [
      | Forked.fork_failed ↦ returns (some 1) p
      | Forked.in_parent ↦ exits 0 (record p { write_end = false })
      | Forked.in_child ↦ leave_console c p
    ]
    else returns (some 1) p

pub daemonize : Calls → Process → Detached
unfolding fork_again exit_status
daemonize c p =
    if c.is_daemon
    then returns none p
    else if c.pipe_ok
    then elim c.first [
      | Forked.fork_failed ↦ returns (some 1) (record p { read_end = true; write_end = true })
      | Forked.in_parent ↦
          exits (exit_status c.status_read) (record p { read_end = true; write_end = false })
      | Forked.in_child ↦
          fork_again c (record p { read_end = false; write_end = true; report_to_parent = true })
    ]
    else returns (some 1) p

-- What `write` takes, none for -1, and whether `freopen` of stderr works.
pub record Writing : Type 0 where
  pub taken : Option ℕ
  pub stderr_ok : Bool

pub notify_parent : Writing → ℕ → Process → Option ℕ × Process
notify_parent w status p = elim w.taken [
  | none ↦ (some 1, record p { report_to_parent = false })
  | some n ↦
      let p' : Process = record p {
        report_to_parent = false;
        sent = p.sent ++ take n (bytes_of_u32 status);
      } in
      if n == 4
      then (if w.stderr_ok then none else some 1, record p' { write_end = false })
      else (some 2, p')
]

-- The report of `main` once the daemon is set up.
pub report_start : Writing → Outcomes → Process → Option ℕ × Process
unfolding notify_parent
report_start w o p = elim o.created [
  | Created.listening ↦ if p.report_to_parent then notify_parent w 0 p else (none, p)
  | _ ↦ (none, p)
]

-- The report at the end of `main`.
pub report_end : Writing → ℕ → Process → Process
unfolding notify_parent
report_end w res p = if p.report_to_parent then (notify_parent w res p).1 else p

-- How a process ends: in `daemonize`, or at the end of `main` with a status.
pub data Ending : Type 0 where
  exited : ℕ → Process → Ending
  finished : ℕ → Run → Process → Ending

-- `main` after `daemonize` returned.
pub after_daemonize : Options → Outcomes → Calls → Writing → Run → Detached → Ending
unfolding report_start report_end
after_daemonize opts o c w r (exits status p) = exited status p
after_daemonize opts o c w r (returns (some n) p) =
    let o' : Outcomes = record o { is_daemon = false; daemonize_error = some n } in
    let (res, r') = detach opts o' r in finished res r' (report_end w res p)
after_daemonize opts o c w r (returns none p) =
    let (error, p') = report_start w o p in
    let o' : Outcomes = record o {
      is_daemon = c.is_daemon;
      daemonize_error = none;
      notify_error = error;
    } in
    let (res, r') = detach opts o' r in finished res r' (report_end w res p')

-- `main` from `daemonize` on, of a daemon that is not to stay in the foreground.
pub detach_process : Options → Outcomes → Calls → Writing → Run → Ending
unfolding daemonize after_daemonize
detach_process opts o c w r = after_daemonize opts o c w r (daemonize c no_pipe)
