-- ===== src/Main/Start.antt =====
-- `main` of usbfluxd/main.c: how the daemon takes the place of the socket file of usbmuxd, and gives it
-- back. The main loop and what the modules do are outcomes here.
pub mod Restore
pub mod Refusing
use usbfluxd.Prelude.{ℕ, ◌||◌, ◌&&◌, not, Bool, true, false, if◌then◌else◌, Option, none, some}
use usbfluxd.Main.Options.{Options}

-- A socket file: whether a process answers on it, and whether it is this daemon's own.
pub record SocketFile : Type 0 where
  pub live : Bool
  pub ours : Bool

-- What is at `USBMUXD_RENAMED_SOCKET` and at `USBMUXD_SOCKET_FILE`.
pub record Files : Type 0 where
  pub renamed : Option SocketFile
  pub socket : Option SocketFile

-- How `socket_create_unix` ends: before the file is deleted, after that, or after the new file is there.
pub data Created : Type 0 where
  not_deleted not_bound not_listening listening : Created

-- The outcomes of the calls.
pub record Outcomes : Type 0 where
  pub is_root : Bool
  pub can_rename : Bool
  pub can_restore : Bool
  -- Whether `daemonize` finds that the process is a daemon already, so that no parent waits for a report.
  pub is_daemon : Bool
  -- The negative results of `daemonize`, `notify_parent` and `main_loop`, without the sign.
  pub daemonize_error : Option ℕ
  pub created : Created
  pub notify_error : Option ℕ
  pub main_loop_error : Option ℕ

-- `access(path, R_OK | W_OK) == 0`, for a daemon that is root.
pub is_there : Option SocketFile → Bool
is_there none = false
is_there (some f) = true

-- `socket_connect_unix(path) >= 0`.
unfoldable pub connects : Option SocketFile → Bool
connects none = false
connects (some f) = f.live

-- The run so far: the files, the variables `renamed` and `opt_no_usbmuxd`, and the result to come.
pub record Run : Type 0 where
  pub files : Files
  pub renamed : Bool
  pub opt_no_usbmuxd : Bool

-- `goto terminate` with `res`, the negative number without its sign, or going on.
pub data Checked : Type 0 where
  terminates : ℕ → Run → Checked
  continues : Run → Checked

-- The look at the original socket where the renamed one was there.
pub check_both : Run → Checked
unfolding is_there connects
check_both r =
    if is_there r.files.socket
    then (if connects r.files.socket
        then terminates 0 (record r { renamed = false })
        else continues (record r { opt_no_usbmuxd = false }))
    else continues r

-- The look at the original socket where there is no renamed one.
pub check_original : Run → Checked
unfolding is_there connects
check_original r =
    if is_there r.files.socket
    then (if connects r.files.socket
        then continues (record r { opt_no_usbmuxd = false })
        else if r.opt_no_usbmuxd
        then continues r
        else terminates 0 r)
    else if r.opt_no_usbmuxd
    then continues r
    else terminates 0 r

pub check_sockets : Run → Checked
unfolding is_there connects check_both check_original
check_sockets r =
    if is_there r.files.renamed
    then (if connects r.files.renamed
        then check_both (record r { renamed = true })
        else check_both (record r { files = record r.files { renamed = none } }))
    else check_original r

-- `rename` of the original socket file, unless it was renamed before or is not wanted.
pub rename_original : Outcomes → Run → Checked
unfolding is_there
rename_original o r =
    if not r.renamed && not r.opt_no_usbmuxd
    then (if o.can_rename && is_there r.files.socket
        then continues (record r {
          files = record { renamed = r.files.socket; socket = none };
          renamed = true;
        })
        else terminates 0 r)
    else continues r

-- What `socket_create_unix` leaves at the path.
unfoldable pub create_socket : Created → Files → Files
create_socket Created.not_deleted files = files
create_socket Created.not_bound files = record files { socket = none }
create_socket Created.not_listening files = record files {
  socket = some (record { live = false; ours = true });
}
create_socket Created.listening files = record files {
  socket = some (record { live = true; ours = true });
}

-- A result that may be negative.
abbrev pub result_of : Option ℕ → ℕ
result_of none = 0
result_of (some n) = n

-- From the creation of the socket on; the first argument is the variable `report_to_parent`.
unfoldable pub serve : Bool → Outcomes → Run → ℕ × Run
unfolding create_socket
serve report_to_parent o r =
    let r' : Run = record r { files = create_socket o.created r.files } in
    elim o.created [
      | Created.listening ↦ elim (if report_to_parent then o.notify_error else none) [
        | some n ↦ (n, r')
        | none ↦ (result_of o.main_loop_error, r')
      ]
      | _ ↦ (1, r')
    ]

unfoldable pub detach : Options → Outcomes → Run → ℕ × Run
unfolding serve
detach opts o r =
    if opts.foreground
    then serve false o r
    else if o.is_daemon
    then serve false o r
    else elim o.daemonize_error [ some n ↦ (n, r) | none ↦ serve true o r ]

-- The label `terminate`: the original socket file goes back to its place.
pub restore : Outcomes → Run → Files
unfolding is_there
restore o r =
    if r.renamed && o.can_restore && is_there r.files.renamed
    then record { renamed = none; socket = r.files.renamed }
    else r.files

-- `main` from the renaming on, and from the creation of the process on.
pub after_rename : Options → Outcomes → Checked → ℕ × Run
unfolding detach
after_rename opts o (terminates res r) = (res, r)
after_rename opts o (continues r) = detach opts o r

pub after_check : Options → Outcomes → Checked → ℕ × Run
unfolding rename_original after_rename
after_check opts o (terminates res r) = (res, r)
after_check opts o (continues r) = after_rename opts o (rename_original o r)

-- `main` after `parse_opts`: the exit status, and the files at the end.
pub start : Options → Outcomes → Run → ℕ × Run
unfolding check_sockets after_check
start opts o r = if o.is_root then after_check opts o (check_sockets r) else (0, r)

pub begin : Options → Files → Run
begin opts files = record { files = files; renamed = false; opt_no_usbmuxd = opts.opt_no_usbmuxd }

pub main : Options → Outcomes → Files → ℕ × Files
unfolding start restore begin
main opts o files = let (res, r) = start opts o (begin opts files) in (res, restore o r)
