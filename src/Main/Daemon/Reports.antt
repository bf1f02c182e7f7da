-- ===== src/Main/Daemon/Reports.antt =====
-- `main` and the process that started it: what it exits with.
use usbfluxd.Prelude.{
  ℕ, ◌<◌, ◌≡◌, refl, ap, ◌∙◌, sym, ◌⊎◌, inl, inr, ◌&&◌, if◌then◌else◌, Bool, true, false, none,
  some, List, [], arith, Bool-cases,
}
use mathlib.Core.Path.{subst}
use usbfluxd.Proto.{bytes_of_u32, u32_at}
use usbfluxd.Main.Options.{Options}
use usbfluxd.Main.Start.{Created, Outcomes, Run, result_of, create_socket, serve, detach}
use usbfluxd.Main.Daemon.{
  Forked, Calls, Process, no_pipe, Detached, returns, exit_status, leave_console, fork_again,
  daemonize, Writing, notify_parent, report_start, report_end, Ending, exited, finished,
  after_daemonize, detach_process,
}

pub is_child : Forked → Bool
is_child Forked.in_child = true
is_child _ = false

pub is_listening : Created → Bool
is_listening Created.listening = true
is_listening _ = false

-- Every call of the process that stays works, up to the creation of the socket.
abbrev pub is_set_up : Calls → Outcomes → Bool
is_set_up c o =
    c.setsid_ok
    && is_child c.second
    && c.chdir_ok
    && c.stdin_ok
    && c.stdout_ok
    && is_listening o.created

-- The process that stays, after `daemonize`.
abbrev child : Process
child = record { report_to_parent = true; read_end = false; write_end = true; sent = [] }

-- The user's process as it exits.
abbrev pub listens : Process
listens = record { report_to_parent = false; read_end = true; write_end = false; sent = [] }

-- The calls of the process that the user started.
abbrev pub parent_of : Calls → List ℕ → Calls
parent_of c bytes = record c { first = Forked.in_parent; status_read = bytes }

pub data Leaves (c : Calls) (o : Outcomes) (res : Detached) : Type 0 where
  fails : (n : ℕ) → n < 256 → is_set_up c o ≡ false → res ≡ returns (some n) child → Leaves c o res
  goes_on : is_set_up c o ≡ is_listening o.created → res ≡ returns none child → Leaves c o res

leave_console-Leaves :
    (c : Calls) (o : Outcomes)
    → c.setsid_ok ≡ true
    → c.second ≡ Forked.in_child
    → Leaves c o (leave_console c child)
unfolding leave_console is_child
leave_console-Leaves c o setsid stays = elim (Bool-cases c.chdir_ok) [
  | inr lost ↦ fails 2 (omega arith) (rw (setsid, stays, lost) refl) (rw (leave_console, lost) refl)
  | inl chdir ↦ elim (Bool-cases c.stdin_ok) [
    | inr lost ↦
        fails 3 (omega arith) (rw (setsid, stays, chdir, lost) refl)
          (rw (leave_console, chdir, lost) refl)
    | inl stdin ↦ elim (Bool-cases c.stdout_ok) [
      | inr lost ↦
          fails 3 (omega arith) (rw (setsid, stays, chdir, stdin, lost) refl)
            (rw (leave_console, chdir, stdin, lost) refl)
      | inl stdout ↦
          goes_on (rw (setsid, stays, chdir, stdin, stdout) refl)
            (rw (leave_console, chdir, stdin, stdout) refl)
    ]
  ]
]

staying :
    (c : Calls)
    → c.setsid_ok ≡ true
    → c.second ≡ Forked.in_child
    → fork_again c child ≡ leave_console c child
unfolding fork_again
staying c setsid here = rw (fork_again, setsid, here) refl

fork_again-Leaves :
    (c : Calls) (o : Outcomes)
    → (c.second ≡ Forked.fork_failed) ⊎ (c.second ≡ Forked.in_child)
    → Leaves c o (fork_again c child)
unfolding fork_again is_child
fork_again-Leaves c o stays = elim (Bool-cases c.setsid_ok) [
  | inr lost ↦ fails 1 (omega arith) (rw lost refl) (rw (fork_again, lost) refl)
  | inl setsid ↦ elim stays [
    | inl failed ↦
        fails 1 (omega arith) (rw (setsid, failed) refl) (rw (fork_again, setsid, failed) refl)
    | inr here ↦
        subst (Leaves c o) (sym (staying c setsid here)) (leave_console-Leaves c o setsid here)
  ]
]

-- How a process of the daemon ends, with what the parent exits with.
pub record Told (c : Calls) (set_up : Bool) (e : Ending) : Type 0 where
  pub res : ℕ
  pub run : Run
  pub process : Process
  pub ends : e ≡ finished res run process
  pub closed_ends : (process.read_end ≡ false) × (process.write_end ≡ false)
  pub status : exit_status process.sent ≡ (if set_up then 0 else res)

abbrev told_to_parent : ℕ → Process
told_to_parent n = record {
  report_to_parent = false;
  read_end = false;
  write_end = false;
  sent = bytes_of_u32 n;
}

abbrev served : Run → Created → Run
served r created = record r { files = create_socket created r.files }

-- An ending after a report of a small status.
finished-Told :
    (c : Calls) (set_up : Bool) (e : Ending) (res n : ℕ) (run : Run)
    → n < 256
    → n ≡ (if set_up then 0 else res)
    → e ≡ finished res run (told_to_parent n)
    → Told c set_up e
unfolding exit_status bytes_of_u32 u32_at
finished-Told c set_up e res n run small same ends = record {
  res = res;
  run = run;
  process = told_to_parent n;
  ends = ends;
  closed_ends = (refl, refl);
  status = omega (arith, small) ∙ same;
}

after-fails :
    (opts : Options) (o : Outcomes) (c : Calls) (w : Writing) (r : Run) (n : ℕ)
    → opts.foreground ≡ false
    → w.taken ≡ some 4
    → n < 256
    → Told c false (after_daemonize opts o c w r (returns (some n) child))
unfolding after_daemonize detach report_end notify_parent bytes_of_u32
after-fails opts o c w r n back whole small =
    finished-Told c false _ n n r small refl (ground (arith, back, whole))

after-goes :
    (opts : Options) (o : Outcomes) (c : Calls) (w : Writing) (r : Run)
    → opts.foreground ≡ false
    → c.is_daemon ≡ false
    → w.taken ≡ some 4
    → (created : Created) → o.created ≡ created
    → Told c (is_listening created) (after_daemonize opts o c w r (returns none child))
unfolding after_daemonize detach serve report_start report_end notify_parent bytes_of_u32
    is_listening
after-goes opts o c w r back fresh whole Created.listening e = elim (Bool-cases w.stderr_ok) [
  | inl ok ↦
      finished-Told c true _ (result_of o.main_loop_error) 0 (served r Created.listening)
        (omega arith) refl (ground (arith, e, whole, ok, back, fresh))
  | inr lost ↦
      finished-Told c true _ 1 0 (served r Created.listening) (omega arith) refl
        (ground (arith, e, whole, lost, back, fresh))
]
after-goes opts o c w r back fresh whole Created.not_deleted e =
    finished-Told c false _ 1 1 (served r Created.not_deleted) (omega arith) refl
      (ground (arith, e, whole, back, fresh))
after-goes opts o c w r back fresh whole Created.not_bound e =
    finished-Told c false _ 1 1 (served r Created.not_bound) (omega arith) refl
      (ground (arith, e, whole, back, fresh))
after-goes opts o c w r back fresh whole Created.not_listening e =
    finished-Told c false _ 1 1 (served r Created.not_listening) (omega arith) refl
      (ground (arith, e, whole, back, fresh))

parent_exits :
    (opts : Options) (o : Outcomes) (c : Calls) (w : Writing) (r : Run) (bytes : List ℕ)
    → c.is_daemon ≡ false
    → c.pipe_ok ≡ true
    → detach_process opts o (parent_of c bytes) w r ≡ exited (exit_status bytes) listens
unfolding detach_process daemonize after_daemonize
parent_exits opts o c w r bytes fresh piped = rw (fresh, piped) refl

-- Where the process is not a daemon yet, the pipe can be made, and `write` takes all four bytes: the
-- process that `fork` leaves behind the user's ends `main`, whatever fails on its way, with both ends of
-- the pipe closed, and what the user's process reads makes it exit with 0 if every step up to the
-- creation of the socket worked, and with the status that `main` of the other ends with if not.
pub detach_process-told :
    (opts : Options) (o : Outcomes) (c : Calls) (w : Writing) (r : Run)
    → opts.foreground ≡ false
    → c.is_daemon ≡ false
    → c.pipe_ok ≡ true
    → c.first ≡ Forked.in_child
    → (c.second ≡ Forked.fork_failed) ⊎ (c.second ≡ Forked.in_child)
    → w.taken ≡ some 4
    → (res : ℕ) × (r' : Run) × (p : Process) × (detach_process opts o c w r ≡ finished res r' p)
      × ((p.read_end ≡ false) × (p.write_end ≡ false))
      × (detach_process opts o (parent_of c p.sent) w r
          ≡ exited (if is_set_up c o then 0 else res) listens)
unfolding detach_process daemonize
detach_process-told opts o c w r back fresh piped first stays whole =
    let e : daemonize c no_pipe ≡ fork_again c child = rw (daemonize, fresh, piped, first) refl in
    let t : Told c (is_set_up c o) (detach_process opts o c w r) =
      (elim (fork_again-Leaves c o stays) [
        | fails n small down e' ↦ rw (down, e, e') (after-fails opts o c w r n back whole small)
        | goes_on up e' ↦ rw (up, e, e') (after-goes opts o c w r back fresh whole o.created refl)
      ]) in
    (
      t.res,
      t.run,
      t.process,
      t.ends,
      t.closed_ends,
      parent_exits opts o c w r t.process.sent fresh piped ∙ ap (λ n. exited n listens) t.status,
    )
