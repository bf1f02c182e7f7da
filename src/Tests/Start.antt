-- ===== src/Tests/Start.antt =====
-- The theorems on the start of the daemon and on a round of its loop, applied.
use usbfluxd.Prelude.{ℕ, ◌≡◌, refl, true, false, none, some, inr, if◌then◌else◌, [], ◌∷◌, ◌++◌}
use usbfluxd.Utils.FdList.{FdList, FdOwner, PollFd, fdlist_create}
use usbfluxd.Utils.FdList.Polled
use usbfluxd.Utils.FdList.Polled.{polled, fdlist_create-IsValid}
use usbfluxd.Utils.Collection.{elements, visit}
use usbfluxd.System.{no_events, pollin_only}
use usbfluxd.World.{ClientState, World}
use usbfluxd.Client.Poll.Fds.{no_client, next_client}
use usbfluxd.Remote.Poll.Fds.{SameButTimes, no_remote, next_remote}
use usbfluxd.Main.Options.{no_options}
use usbfluxd.Main.Start.{SocketFile, Created, Outcomes, Run, connects, main}
use usbfluxd.Main.Daemon.{Forked, Calls, Process, Writing, exited, finished, detach_process}
use usbfluxd.Main.Daemon.Reports.{is_set_up, listens, parent_of, detach_process-told}
use usbfluxd.Main.Start.Restore.{in_place, main-restores}
use usbfluxd.Main.Start.Refusing.{no_usbmuxd, main-refuses}
use usbfluxd.Main.Loop.{poll_list}
use usbfluxd.Main.Loop.PollList.{listen_entry, poll_list-polled}
use usbfluxd.Tests.Node.{Node, node_lib}
use usbfluxd.Tests.Clients.{calm, version, client, remote, world}

abbrev usbmuxd : SocketFile
usbmuxd = record { live = true; ours = false }

-- A run that is ended by a failure of `accept`.
abbrev short_run : Outcomes
short_run = record {
  is_root = true;
  can_rename = true;
  can_restore = true;
  is_daemon = false;
  daemonize_error = none;
  created = Created.listening;
  notify_error = none;
  main_loop_error = some 1;
}

main-restores_example :
    (main no_options short_run (record { renamed = none; socket = some usbmuxd })).1
    ≡ record { renamed = none; socket = some usbmuxd }
unfolding connects
main-restores_example =
    main-restores usbmuxd no_options short_run (record { renamed = none; socket = some usbmuxd })
      refl (in_place none refl refl) refl refl

-- The process that stays, of a start where all goes well, and the files after the renaming.
abbrev all_well : Calls
all_well = record {
  is_daemon = false;
  pipe_ok = true;
  first = Forked.in_child;
  status_read = [];
  setsid_ok = true;
  second = Forked.in_child;
  chdir_ok = true;
  stdin_ok = true;
  stdout_ok = true;
}

abbrev whole : Writing
whole = record { taken = some 4; stderr_ok = true }

abbrev renamed : Run
renamed = record {
  files = record { renamed = some usbmuxd; socket = none };
  renamed = true;
  opt_no_usbmuxd = false;
}

detach_process-told_example :
    (res : ℕ) × (r' : Run) × (p : Process) × (detach_process no_options short_run all_well whole
        renamed
      ≡ finished res r' p)
    × ((p.read_end ≡ false) × (p.write_end ≡ false))
    × (detach_process no_options short_run (parent_of all_well p.sent) whole renamed
        ≡ exited (if is_set_up all_well short_run then 0 else res) listens)
detach_process-told_example =
    detach_process-told no_options short_run all_well whole renamed refl refl refl refl (inr refl)
      refl

main-refuses_example :
    main no_options short_run (record { renamed = none; socket = none })
    ≡ (0, record { renamed = none; socket = none })
unfolding connects
main-refuses_example =
    main-refuses no_options short_run (record { renamed = none; socket = none })
      (no_usbmuxd refl refl refl)

abbrev one_each : World Node
one_each = record (world (client ClientState.listen)) {
  client_list = record { list = some 0 ∷ []; capacity = 1 };
  remote_list = record { list = some 1 ∷ []; capacity = 1 };
}

abbrev entry : FdOwner → ℕ → FdOwner × PollFd
entry owner fd = (owner, record { fd = fd; events = pollin_only; revents = no_events })

poll_list-polled_example :
    (list' : FdList) × (w' : World Node) × (poll_list calm 3 fdlist_create one_each
      ≡ some (list', w'))
    × Polled.IsValid list'
    × (polled list'
        ≡ listen_entry 3 ∷ ((entry FdOwner.fd_client 5 ∷ []) ++ (entry FdOwner.fd_remote 8 ∷ [])))
    × SameButTimes one_each w'
unfolding elements visit
poll_list-polled_example =
    poll_list-polled calm 3 one_each (entry FdOwner.fd_client 5 ∷ [])
      (entry FdOwner.fd_remote 8 ∷ []) fdlist_create
      (next_client 0 [] (client ClientState.listen) [] refl no_client)
      (next_remote 1 [] remote [] refl no_remote) fdlist_create-IsValid.0 refl refl
