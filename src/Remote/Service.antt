-- ===== src/Remote/Service.antt =====
-- The instances that the daemon listens to: `remote_mux_service_add`, `remote_mux_service_remove`,
-- what calls them, and `usbmux_remote_init` in usbfluxd/usbmux_remote.c.
pub mod Fresh
pub mod Present
pub mod Adding
pub mod Return
use usbfluxd.Prelude.{
  ℕ, ltb, ◌==◌, ◌&&◌, if◌then◌else◌, Bool, true, false, not, Option, none, some, List, [], ◌∷◌,
}
use usbfluxd.Text.{CString, cstr, str_eq}
use usbfluxd.Utils.Collection
use usbfluxd.Utils.Collection.{Ptr}
use usbfluxd.System.{LibPlist, Env}
use usbfluxd.World.{cmd_listen, World, RemoteMux}
use usbfluxd.World.Monad.{
  M, pure, fault, ◌>>=◌, ◌>>◌, get, modify, read_remote, write_remote, free_remote, close_fd,
  on_remote, lock_remotes, unlock_remotes,
}
use usbfluxd.Remote.IdMap
use usbfluxd.Remote.IdMap.{set_remote_id_used, get_new_remote_id}
use usbfluxd.Remote.Output.{Version, create_plist_message, remote_send_plist_pkt}
use usbfluxd.Remote.Connect.{remote_mux_new_with_unix_socket, remote_mux_new_with_host}
use usbfluxd.Remote.Dispose.{remote_mark_dead}

-- What `remote_mux_service_add` returns: 0, -1 and -2.
pub data AddResult : Type 0 where
  added add_failed already_present : AddResult

-- Equality with a string that must be there: NULL faults.
unfoldable pub str_eq_at : {Plist : Type 0} → Option CString → CString → M (World Plist) Bool
str_eq_at none t = fault
str_eq_at (some s) t = pure (str_eq s t)

-- The command is noted only if the packet is queued.
abbrev pub note_listen : Option ℕ → RemoteMux → RemoteMux
note_listen none r = r
note_listen (some n) r = if ltb 0 n then record r { last_command = cmd_listen } else r

module _ {Plist : Type 0} ⦃lib : LibPlist Plist⦄ ⦃env : Env⦄ where
  -- The test of the loop of `remote_mux_service_add`.
  unfoldable pub same_service : CString → CString → ℕ → RemoteMux → M (World Plist) Bool
  same_service service_name host_name port r =
      if not r.is_unix && r.is_listener
      then (do
        by_name ← str_eq_at r.service_name service_name
        if by_name
            then pure true
            else (do by_host ← str_eq_at r.host host_name; pure (by_host && r.port == port)))
      else pure false

  -- The test of the loop of `remote_mux_service_remove`; either name may be NULL.
  pub named_service : Option CString → Option CString → ℕ → RemoteMux → M (World Plist) Bool
  named_service service_name host_name port r =
      if not r.is_unix && r.is_listener
      then (do
        by_name ← elim service_name [ none ↦ pure false | some s ↦ str_eq_at r.service_name s ]
        if by_name then pure true else (do
          by_host ← elim host_name [ none ↦ pure false | some h ↦ str_eq_at r.host h ]
          pure (by_host && r.port == port)))
      else pure false

  -- FOREACH of the remotes, up to the first that passes a test.
  pub find_remote : (RemoteMux → M (World Plist) Bool) → List Ptr → M (World Plist) (Option Ptr)
  find_remote test [] = pure none
  find_remote test (q ∷ qs) = do
    r ← read_remote q
    hit ← test r
    if hit then pure (some q) else find_remote test qs

  pub remote_send_listen_packet : ⦃v : Version⦄ → Ptr → M (World Plist) (Option ℕ)
  remote_send_listen_packet p = do
    let msg = create_plist_message {Plist = Plist} (cstr "Listen")
    res ← on_remote p (remote_send_plist_pkt {Plist = Plist} 0 msg)
    r ← read_remote p
    write_remote p (note_listen res r)
    pure res

  -- A new instance that is refused because all ids are in use.
  pub discard_remote : Ptr → M (World Plist) AddResult
  discard_remote p = do
    unlock_remotes
    r ← read_remote p
    close_fd r.fd
    free_remote p
    pure add_failed

  -- A new instance that gets an id, and is asked for its devices.
  pub accept_remote : ⦃v : Version⦄ → CString → ℕ → Ptr → M (World Plist) AddResult
  accept_remote service_name id p = do
    r ← read_remote p
    write_remote p (record r { id = id; service_name = some service_name; is_listener = true })
    modify (λ w. record w {
      remote_list = Collection.add w.remote_list p;
      remote_id_map = set_remote_id_used w.remote_id_map id true;
    })
    res ← remote_send_listen_packet p
    unlock_remotes
    pure added

  pub remote_mux_service_add : ⦃v : Version⦄ → CString → CString → ℕ → M (World Plist) AddResult
  remote_mux_service_add service_name host_name port = do
    lock_remotes
    w ← get
    present ←
        find_remote (same_service service_name host_name port) (Collection.elements w.remote_list)
    elim present [
      | some _ ↦ (do unlock_remotes; pure already_present)
      | none ↦ (do
        remote ← remote_mux_new_with_host (some host_name) port
        elim remote [
          | none ↦ (do unlock_remotes; pure add_failed)
          | some p ↦ (do
            v ← get
            let id = get_new_remote_id v.remote_id_map
            if id == 0 then discard_remote p else accept_remote service_name id p)
        ])
    ]

  -- `none` is -1.
  pub remote_mux_service_remove :
      Option CString → Option CString → ℕ → M (World Plist) (Option (Unit {0}))
  remote_mux_service_remove service_name host_name port = do
    lock_remotes
    w ← get
    found ←
        find_remote (named_service service_name host_name port) (Collection.elements w.remote_list)
    elim found [
      | none ↦ (do unlock_remotes; pure none)
      | some p ↦ (do remote_mark_dead p; unlock_remotes; pure (some tt))
    ]

  pub usbmux_remote_add_remote : ⦃v : Version⦄ → CString → ℕ → M (World Plist) AddResult
  usbmux_remote_add_remote host_name port = remote_mux_service_add host_name host_name port

  pub usbmux_remote_remove_remote : CString → ℕ → M (World Plist) (Option (Unit {0}))
  usbmux_remote_remove_remote host_name port = remote_mux_service_remove none (some host_name) port

  -- The listener of the local usbmuxd, which has the id 0.
  pub usbmux_remote_init : ⦃v : Version⦄ → M (World Plist) (Unit {0})
  usbmux_remote_init = do
    modify (λ w. record w {
      remote_list = Collection.init;
      remote_list_mutex = false;
      remote_device_list = lib.new_dict;
      remote_id_map = IdMap.empty;
    })
    remote ← remote_mux_new_with_unix_socket
    elim remote [
      | none ↦ pure tt
      | some p ↦ (do
        lock_remotes
        r ← read_remote p
        write_remote p (record r { id = 0; is_listener = true })
        modify (λ w. record w {
          remote_list = Collection.add w.remote_list p;
          remote_id_map = set_remote_id_used w.remote_id_map 0 true;
        })
        res ← remote_send_listen_packet p
        unlock_remotes)
    ]
