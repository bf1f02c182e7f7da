-- ===== src/Client/Process.antt =====
-- The events of a client: `process_send`, `process_recv` and `client_process` of usbfluxd/client.c.
pub mod Dispatch
pub mod Stuck
pub mod Sending
pub mod Relaying
pub mod Received
pub mod Framing
pub mod Receiving
use usbfluxd.Prelude.{
  ℕ, ◌+◌, ◌-◌, ◌%◌, ◌==◌, ltb, leb, ◌&&◌, if◌then◌else◌, Bool, true, false, not, Option, none, some,
  List, [], ◌∷◌, length, take,
}
use usbfluxd.Proto.{Header, u32_mod, header_size, header_at}
use usbfluxd.Buffer
use usbfluxd.Buffer.{Buffer, memory, available}
use usbfluxd.Utils.Collection
use usbfluxd.Utils.Collection.{Ptr}
use usbfluxd.System.{
  LibPlist, Env, Events, recv, send, set_pollin, set_pollout, clear_pollin, clear_pollout,
}
use usbfluxd.World.{ClientState, World, MuxClient}
use usbfluxd.World.Monad.{
  M, pure, fault, ◌>>=◌, ◌>>◌, get, modify, deref, read_client, write_client, on_client,
  read_remote, write_remote, lock_clients, unlock_clients,
}
use usbfluxd.Client.Events.{is_connecting2, is_connected}
use usbfluxd.Client.Close.{client_close}
use usbfluxd.Client.Command.{client_command}
use usbfluxd.Remote.Output.{Version}

module _ {Plist : Type 0} where
  -- All of the output went out. A client in CLIENT_CONNECTING2 is connected, and the descriptor of its
  -- remote is read for the log.
  pub all_sent : Ptr → M (World Plist) (Unit {0})
  all_sent p = do
    c ← read_client p
    let done = record c { ob = record c.ob { size = 0 }; events = clear_pollout c.events }
    if is_connecting2 c.state
        then (do
          q ← deref c.remote
          r ← read_remote q
          write_client p (record done {
            ob = record done.ob { buf = none };
            state = ClientState.connected;
            events = set_pollin c.devents;
          }))
        else write_client p done

  -- The client after a part of it did.
  pub some_sent : ℕ → M (MuxClient Plist) (Unit {0})
  some_sent n c = elim (Buffer.shift c.ob n) [
    | none ↦ none
    | some b ↦ some (tt, record c { ob = b })
  ]

  -- What a `recv` into the input buffer leaves.
  abbrev pub received : List ℕ → M (MuxClient Plist) (Unit {0})
  received bytes c = elim (Buffer.put c.ib bytes) [
    | none ↦ none
    | some b ↦ some (tt, record c { ib = b })
  ]

module _ {Plist : Type 0} ⦃env : Env⦄ where
  -- `send`, and its result; -1 and 0 end the client.
  pub sent : Ptr → Option ℕ → M (World Plist) (Unit {0})
  sent p none = client_close p
  sent p (some n) =
      if n == 0
      then client_close p
      else (do c ← read_client p; if n == c.ob.size then all_sent p else on_client p (some_sent n))

  pub process_send : Ptr → M (World Plist) (Unit {0})
  process_send p = do
    c ← read_client p
    if c.ob.size == 0
        then write_client p (record c { events = clear_pollout c.events })
        else sent p (send env c.ob.size)

module _ {Plist : Type 0} ⦃lib : LibPlist Plist⦄ ⦃env : Env⦄ ⦃v : Version⦄ where
  -- The last part of `process_recv`: the packet is complete.
  pub run_command : Ptr → M (World Plist) (Unit {0})
  run_command p = do
    c ← read_client p
    res ← client_command p (header_at (memory c.ib)) (memory c.ib)
    elim res [
      | none ↦ pure tt
      | some n ↦
          if n == 0
          then (do d ← read_client p; write_client p (record d { ib = record d.ib { size = 0 } }))
          else pure tt
    ]

  -- The rest of a packet, `n` bytes of it.
  pub recv_rest : Ptr → ℕ → M (World Plist) (Unit {0})
  recv_rest p n = elim (recv env n) [
    | none ↦ client_close p
    | some [] ↦ client_close p
    | some (b ∷ bytes) ↦ (do
      on_client p (received (b ∷ bytes))
      c ← read_client p
      if ltb c.ib.size (header_at (memory c.ib)).length then pure tt else run_command p)
  ]

  -- `process_recv` from the look at the header on; `did_read` says that `recv` was called already.
  pub process_packet : Ptr → Bool → M (World Plist) (Unit {0})
  process_packet p did_read = do
    c ← read_client p
    let hdr = header_at (memory c.ib)
    if ltb c.ib.capacity hdr.length
        then client_close p
        else if ltb hdr.length header_size
        then client_close p
        else if ltb c.ib.size hdr.length
        then (if did_read then pure tt else recv_rest p (hdr.length - c.ib.size))
        else run_command p

  pub process_recv : Ptr → M (World Plist) (Unit {0})
  process_recv p = do
    c ← read_client p
    if ltb c.ib.size header_size
        then elim (recv env (header_size - c.ib.size)) [
          | none ↦ client_close p
          | some [] ↦ client_close p
          | some (b ∷ bytes) ↦ (do
            on_client p (received (b ∷ bytes))
            d ← read_client p
            if ltb d.ib.size header_size then pure tt else process_packet p true)
        ]
        else process_packet p false

module _ {Plist : Type 0} ⦃env : Env⦄ where
  -- `client_read` and `client_write`, for a client that the caller knows to be connected or not.
  pub client_read : MuxClient Plist → ℕ → Option (List ℕ)
  client_read c len = if is_connected c.state then recv env len else none

  pub client_write : MuxClient Plist → ℕ → Option ℕ
  client_write c len = if is_connected c.state then send env len else none

  -- Bytes of a connected client, for its remote.
  pub client_to_remote : Ptr → Ptr → M (World Plist) (Unit {0})
  client_to_remote p q = do
    c ← read_client p
    r ← read_remote q
    if leb r.ob.capacity r.ob.size then pure tt else elim (client_read c (available r.ob)) [
      | none ↦ client_close p
      | some [] ↦ client_close p
      | some (b ∷ bytes) ↦ elim (Buffer.put r.ob (b ∷ bytes)) [
        | none ↦ fault
        | some ob ↦ (do
          write_remote q (record r { ob = ob; events = set_pollout r.events })
          write_client p (record c { events = clear_pollin c.events }))
      ]
    ]

  -- Bytes of its remote, for a connected client.
  pub remote_to_client : Ptr → Ptr → M (World Plist) (Unit {0})
  remote_to_client p q = do
    c ← read_client p
    r ← read_remote q
    if r.ib.size == 0 then pure tt else elim (client_write c r.ib.size) [
      | none ↦ client_close p
      | some n ↦
          if n == 0
          then client_close p
          else if n == r.ib.size
          then (do
            write_remote q (record r { ib = record r.ib { size = 0 } })
            write_client p (record c { events = set_pollin (clear_pollout c.events) }))
          else elim (Buffer.shift r.ib n) [
            | none ↦ fault
            | some ib ↦ write_remote q (record r { ib = ib })
          ]
    ]

  -- An event of a client in CLIENT_CONNECTED.
  pub process_connected : Ptr → Events → M (World Plist) (Unit {0})
  process_connected p events = do
    c ← read_client p
    if events.pollin
        then (do q ← deref c.remote; client_to_remote p q)
        else if events.pollout
        then (do q ← deref c.remote; remote_to_client p q)
        else pure tt

module _ {Plist : Type 0} where
  -- FOREACH of the clients, up to the first with the descriptor.
  pub find_client : ℕ → List Ptr → M (World Plist) (Option Ptr)
  find_client fd [] = pure none
  find_client fd (p ∷ ps) = do
    c ← read_client p
    if c.fd == fd then pure (some p) else find_client fd ps

module _ {Plist : Type 0} ⦃lib : LibPlist Plist⦄ ⦃env : Env⦄ ⦃v : Version⦄ where
  -- An event of the client behind a pointer.
  pub process_client : Ptr → Events → M (World Plist) (Unit {0})
  process_client p events = do
    c ← read_client p
    if is_connected c.state
        then process_connected p events
        else if events.pollin
        then process_recv p
        else if events.pollout
        then process_send p
        else pure tt

  pub client_process : ℕ → Events → M (World Plist) (Unit {0})
  client_process fd events = do
    lock_clients
    w ← get
    found ← find_client fd (Collection.elements w.client_list)
    unlock_clients
    elim found [ none ↦ pure tt | some p ↦ process_client p events ]
