-- ===== src/Remote/Process.antt =====
-- The events of a remote: `remote_process_send`, `remote_process_recv` and `usbmux_remote_process` of
-- usbfluxd/usbmux_remote.c.
pub mod Dispatch
pub mod Dangling
pub mod Sending
pub mod Reading
use usbfluxd.Prelude.{
  ℕ, zero, suc, ◌+◌, ◌-◌, ◌==◌, ltb, leb, ◌&&◌, if◌then◌else◌, Bool, true, false, not, Option, none,
  some, List, [], ◌∷◌, get_elem?,
}
use usbfluxd.Proto.{header_size, header_at}
use usbfluxd.Buffer
use usbfluxd.Buffer.{memory, available}
use usbfluxd.Utils.Collection.{Ptr}
use usbfluxd.System.{
  LibPlist, Env, Events, recv, send, pollin_only, pollout_only, set_pollin, clear_pollin,
  clear_pollout,
}
use usbfluxd.World.{RemoteState, zero_command, World, RemoteMux}
use usbfluxd.World.Monad.{
  M, pure, fault, ◌>>=◌, ◌>>◌, get, deref, read_remote, write_remote, on_client, lock_remotes,
  unlock_remotes,
}
use usbfluxd.Client.Events.{client_or_events}
use usbfluxd.Remote.Events.{is_connecting2, is_connected, is_dead}
use usbfluxd.Remote.Dispose.{usbmux_remote_dispose, usbmux_remote_mark_dead, usbmux_remote_close}
use usbfluxd.Remote.Result.{remote_handle_command_result}

-- `events == POLLNVAL`.
pub is_pollnval : Events → Bool
is_pollnval e = e.pollnval && not e.pollin && not e.pollout && not e.pollerr && not e.pollhup

-- The remote after all of its output went out.
unfoldable pub all_sent : RemoteMux → RemoteMux
all_sent r =
    if is_connecting2 r.state
    then record r {
      ob = record r.ob { size = 0 };
      state = RemoteState.connected;
      events = set_pollin r.devents;
    }
    else record r { ob = record r.ob { size = 0 }; events = clear_pollout r.events }

module _ {Plist : Type 0} ⦃lib : LibPlist Plist⦄ ⦃env : Env⦄ where
  -- `send`, and its result; -1 and 0 end the remote.
  pub sent : Ptr → Option ℕ → M (World Plist) (Unit {0})
  sent p none = usbmux_remote_close p
  sent p (some n) = if n == 0 then usbmux_remote_close p else (do
    r ← read_remote p
    let r' = record r { last_active = env.now }
    if n == r.ob.size then write_remote p (all_sent r') else elim (Buffer.shift r.ob n) [
      | none ↦ fault
      | some ob ↦ write_remote p (record r' { ob = ob })
    ])

  pub remote_process_send : Ptr → M (World Plist) (Unit {0})
  remote_process_send p = do
    r ← read_remote p
    if r.ob.size == 0
        then write_remote p (record r { events = clear_pollout r.events })
        else sent p (send env r.ob.size)

  -- What a `recv` into the input buffer leaves.
  pub received : Ptr → List ℕ → M (World Plist) (Unit {0})
  received p bytes = do
    r ← read_remote p
    elim (Buffer.put r.ib bytes) [ none ↦ fault | some ib ↦ write_remote p (record r { ib = ib }) ]

  -- The last part of `remote_process_recv`: the packet is complete.
  pub run_result : Ptr → M (World Plist) (Unit {0})
  run_result p = do
    r ← read_remote p
    remote_handle_command_result p (memory r.ib)
    r' ← read_remote p
    write_remote p (record r' { ib = record r'.ib { size = 0 }; last_command = zero_command })

  -- The rest of a packet, `n` bytes of it.
  pub recv_rest : Ptr → ℕ → M (World Plist) (Unit {0})
  recv_rest p n = elim (recv env n) [
    | none ↦ usbmux_remote_mark_dead p
    | some [] ↦ usbmux_remote_mark_dead p
    | some (b ∷ bytes) ↦ (do
      received p (b ∷ bytes)
      r ← read_remote p
      write_remote p (record r { last_active = env.now })
      if ltb r.ib.size (header_at (memory r.ib)).length then pure tt else run_result p)
  ]

  -- `remote_process_recv` from the look at the header on.
  pub process_packet : Ptr → Bool → M (World Plist) (Unit {0})
  process_packet p did_read = do
    r ← read_remote p
    let hdr = header_at (memory r.ib)
    if ltb r.ib.capacity hdr.length
        then usbmux_remote_mark_dead p
        else if ltb hdr.length header_size
        then usbmux_remote_mark_dead p
        else if ltb r.ib.size hdr.length
        then (if did_read then pure tt else recv_rest p (hdr.length - r.ib.size))
        else run_result p

  pub remote_process_recv : Ptr → M (World Plist) (Unit {0})
  remote_process_recv p = do
    r ← read_remote p
    if ltb r.ib.size header_size
        then elim (recv env (header_size - r.ib.size)) [
          | none ↦ usbmux_remote_mark_dead p
          | some [] ↦ usbmux_remote_mark_dead p
          | some (b ∷ bytes) ↦ (do
            received p (b ∷ bytes)
            r' ← read_remote p
            if ltb r'.ib.size header_size then pure tt else process_packet p true)
        ]
        else process_packet p false

  -- `client_or_events(remote->client, events)`, after which the remote is read again.
  pub wake_client : Ptr → Events → M (World Plist) (Unit {0})
  wake_client p events = do
    r ← read_remote p
    client ← deref r.client
    res ← on_client client (client_or_events events)
    pure tt

  -- Bytes from a connected remote, for its client.
  pub read_connected : Ptr → M (World Plist) (Unit {0})
  read_connected p = do
    r ← read_remote p
    if ltb 0 r.ib.size && leb r.ib.capacity r.ib.size
        then pure tt
        else elim (recv env (available r.ib)) [
          | none ↦ usbmux_remote_close p
          | some [] ↦ write_remote p (record r { events = clear_pollin r.events })
          | some (b ∷ bytes) ↦ elim (Buffer.put r.ib (b ∷ bytes)) [
            | none ↦ fault
            | some ib ↦ (do
              write_remote p (record r { last_active = env.now; ib = ib })
              wake_client p pollout_only)
          ]
        ]

  -- An event of a remote in REMOTE_CONNECTED.
  pub process_connected : Ptr → Events → M (World Plist) (Unit {0})
  process_connected p events =
      if events.pollin
      then read_connected p
      else if events.pollout
      then (do remote_process_send p; wake_client p pollin_only)
      else usbmux_remote_close p

  -- An event of the remote behind a pointer.
  pub process_remote : Ptr → Events → M (World Plist) (Unit {0})
  process_remote p events = do
    r ← read_remote p
    if is_connected r.state
        then process_connected p events
        else if events.pollin
        then (if is_connecting2 r.state
            then write_remote p
                (record r { state = RemoteState.connected; events = set_pollin r.devents })
            else remote_process_recv p)
        else if events.pollout
        then remote_process_send p
        else pure tt

  -- One round of the loop below, on what the slot holds.
  pub reap_slot : ℕ → Events → Option Ptr → Option (Option Ptr) → M (World Plist) (Option Ptr)
  reap_slot fd events found none = fault
  reap_slot fd events found (some none) = pure found
  reap_slot fd events found (some (some q)) = do
    r ← read_remote q
    if is_dead r.state
        then (do usbmux_remote_dispose q; pure found)
        else if r.fd == fd
        then (if is_pollnval events then (do usbmux_remote_dispose q; pure none) else pure (some q))
        else pure found

  -- The loop of `usbmux_remote_process`: dead remotes are disposed of, and the last live one with the
  -- descriptor is found. The arguments are the rounds left, the index and what was found so far.
  pub reap : ℕ → Events → ℕ → ℕ → Option Ptr → M (World Plist) (Option Ptr)
  reap fd events zero i found = pure found
  reap fd events (suc n) i found = do
    w ← get
    found' ← reap_slot fd events found (get_elem? w.remote_list.list i)
    reap fd events n (i + 1) found'

  pub usbmux_remote_process : ℕ → Events → M (World Plist) (Unit {0})
  usbmux_remote_process fd events = do
    lock_remotes
    w ← get
    found ← reap fd events w.remote_list.capacity 0 none
    unlock_remotes
    elim found [ none ↦ pure tt | some p ↦ process_remote p events ]
