-- ===== src/Tests/Sockets.antt =====
-- The theorems on connections, applied.
use usbfluxd.Prelude.{ℕ, ◌≡◌, refl, inl, true, false, none, some, List, [], ◌∷◌}
use usbfluxd.Text.{cstr}
use usbfluxd.Socket.{
  Net, Resolved, Connected, Selected, SocketEnv, socket_connect_timeout, socket_connect_unix,
}
use usbfluxd.Socket.Connecting.{Balanced, socket_connect-Balanced, socket_connect_timeout-hangs}

abbrev idle : Net
idle = record { locked = false; open_fds = 3 ∷ [] }

-- A host that is found but does not answer.
abbrev slow : SocketEnv
slow = record {
  is_file = true;
  is_socket = true;
  resolved = λ host. Resolved.address 7;
  new_fd = some 4;
  options_set = true;
  no_sigpipe_set = true;
  connected = Connected.in_progress;
  selected = Selected.timed_out;
  unlinked = true;
  bound = true;
  listens = true;
}

socket_connect-Balanced_example :
    Balanced idle (socket_connect_unix slow idle)
    × Balanced idle (socket_connect_timeout slow (some (cstr "b")) idle)
socket_connect-Balanced_example = socket_connect-Balanced slow (cstr "b") 7 idle refl refl

abbrev lost : SocketEnv
lost = record slow { resolved = λ host. Resolved.unknown }

socket_connect_timeout-hangs_example :
    (socket_connect_timeout lost (some (cstr "b")) idle
      ≡ some (none, record idle { locked = true }))
    × ((later : SocketEnv) (next : List ℕ)
        → socket_connect_timeout later (some next) (record idle { locked = true }) ≡ none)
socket_connect_timeout-hangs_example =
    socket_connect_timeout-hangs lost (cstr "b") idle refl (inl refl)
