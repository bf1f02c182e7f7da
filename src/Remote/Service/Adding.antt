-- ===== src/Remote/Service/Adding.antt =====
-- `remote_mux_service_add`: when an instance is added, and with which id.
use usbfluxd.Prelude.{
  ℕ, suc, ◌==◌, ◌+◌, ◌^◌, ◌<◌, ◌≤◌, ◌≡◌, refl, ap, ◌∙◌, sym, inl, inr, true, false, ltb, Option,
  none, some, List, ◌∷◌, ◌++◌, length, arith, Bool-cases, Option-cases,
}
use usbfluxd.Text.{CString, cstr}
use usbfluxd.Proto.{int_mod, header_size, message_plist}
use usbfluxd.Proto.RoundTrip.{as_int-some, as_int-none}
use usbfluxd.Buffer.{new_size, queued}
use usbfluxd.Utils.Collection
use usbfluxd.Utils.Collection.{Ptr}
use usbfluxd.System.{LibPlist, Env, set_pollout}
use usbfluxd.World.{RemoteCommand, World, RemoteMux}
use usbfluxd.World.Monad.{update}
use usbfluxd.Remote.IdMap.{get_new_remote_id}
use usbfluxd.Remote.Output.{Version, create_plist_message, remote_send_pkt, remote_send_plist_pkt}
use usbfluxd.Remote.Output.Queueing.{packet, remote_send_pkt-Sends}
use usbfluxd.Remote.Connect.{reply_buf_size, new_remote}
use usbfluxd.Remote.Service.{AddResult, same_service, remote_mux_service_add}
use usbfluxd.Remote.Service.Fresh.{
  connected, registered, new_buffer, Absent, with_instance, service_add-unreachable,
  service_add-full, service_add-accepted,
}

module _ {Plist : Type 0} ⦃lib : LibPlist Plist⦄ ⦃env : Env⦄ where
  -- What `remote_mux_service_add` may do with an instance that is not known yet.
  pub data Added (w : World Plist) (name host : CString) (port : ℕ) (xml : List ℕ)
      (res : Option (AddResult × World Plist)) : Type 0 where
    unreachable :
        env.host_fd host port ≡ none
        → res ≡ some (AddResult.add_failed, record w { remote_list_mutex = false })
        → Added w name host port xml res
    too_many :
        (fd : ℕ)
        → env.host_fd host port ≡ some fd
        → (get_new_remote_id w.remote_id_map == 0) ≡ true
        → res
          ≡ some (
            AddResult.add_failed,
            record w {
              remotes = update w.remotes w.next none;
              next = suc w.next;
              remote_list_mutex = false;
              closed = fd ∷ w.closed;
            },
          )
        → Added w name host port xml res
    listens :
        (fd : ℕ) (r' : RemoteMux)
        → env.host_fd host port ≡ some fd
        → (get_new_remote_id w.remote_id_map == 0) ≡ false
        → queued r'.ob ≡ packet 0 message_plist xml
        → r'
          ≡ record (registered name
              (get_new_remote_id w.remote_id_map)
              (connected env.now fd host port)) {
                ob = r'.ob;
                events = set_pollout (new_remote fd env.now).events;
                last_command = RemoteCommand.cmd_listen;
              }
        → res ≡ some (AddResult.added, with_instance w (get_new_remote_id w.remote_id_map) r')
        → Added w name host port xml res
    unnoted :
        (fd : ℕ) (r' : RemoteMux)
        → env.host_fd host port ≡ some fd
        → (get_new_remote_id w.remote_id_map == 0) ≡ false
        → int_mod ≤ header_size + length xml
        → queued r'.ob ≡ packet 0 message_plist xml
        → r'
          ≡ record (registered name
              (get_new_remote_id w.remote_id_map)
              (connected env.now fd host port)) {
                ob = r'.ob;
                events = set_pollout (new_remote fd env.now).events;
              }
        → res ≡ some (AddResult.added, with_instance w (get_new_remote_id w.remote_id_map) r')
        → Added w name host port xml res
    unasked :
        (fd : ℕ)
        → env.host_fd host port ≡ some fd
        → (get_new_remote_id w.remote_id_map == 0) ≡ false
        → env.can_alloc (new_size reply_buf_size (header_size + length xml)) ≡ false
        → res
          ≡ some (
            AddResult.added,
            with_instance w (get_new_remote_id w.remote_id_map) (
                registered name
                  (get_new_remote_id w.remote_id_map)
                  (connected env.now fd host port)),
          )
        → Added w name host port xml res

  send_xml :
      (plist : Plist) (xml : List ℕ) (r : RemoteMux)
      → lib.to_xml plist ≡ some xml
      → remote_send_plist_pkt 0 plist r ≡ remote_send_pkt 0 message_plist xml r
  unfolding remote_send_plist_pkt
  send_xml plist xml r e = rw (remote_send_plist_pkt, e) refl

  -- Adding an instance that no live remote of the list stands for, by its name or by its host and port,
  -- while no thread holds the mutex, where the message "Listen" can be written out, below 2 ^ 31 bytes:
  -- it fails, with nothing left of it, where the host cannot be reached or all ids from 1 to 255 are in
  -- use; else a new remote with the lowest unused id is on the list, the id is marked as used, and the
  -- remote is asked to report its devices, unless `realloc` fails; where the packet has 2 ^ 31 bytes or
  -- more, it is queued without its command being noted. The mutex is free at the end.
  pub remote_mux_service_add-Added :
      ⦃v : Version⦄
      → (name host : CString) (port : ℕ) (w : World Plist) (xml : List ℕ)
      → Absent w (same_service name host port) (Collection.elements w.remote_list)
      → w.remote_list_mutex ≡ false
      → lib.to_xml (create_plist_message {Plist = Plist} (cstr "Listen")) ≡ some xml
      → length xml < 2 ^ 31
      → Added w name host port xml (remote_mux_service_add name host port w)
  remote_mux_service_add-Added name host port w xml missing free made small =
      elim (Option-cases (env.host_fd host port)) [
        | inl lost ↦ unreachable lost (service_add-unreachable name host port w missing free lost)
        | inr (fd, reached) ↦
            let id = get_new_remote_id w.remote_id_map in
            elim (Bool-cases (id == 0)) [
              | inl full ↦
                  too_many fd reached full
                    (service_add-full name host port fd w missing free reached full)
              | inr some_id ↦
                  let reg = registered name id (connected env.now fd host port) in
                  let (valid, empty, cap) = new_buffer fd env.now in
                  elim (remote_send_pkt-Sends 0 message_plist xml reg valid (omega (arith, cap))
                    small) [
                      | inl (e, refused) ↦ unasked fd reached some_id (rw (sym cap) refused) (
                          service_add-accepted name host port fd w reg none missing free reached
                            some_id (send_xml _ xml reg made ∙ e))
                      | inr (r', e, q) ↦
                          let out =
                            q.appended ∙ ap (λ bytes. bytes ++ packet 0 message_plist xml) empty in
                          let sent = send_xml _ xml reg made ∙ e in
                          let pos : ltb 0 (header_size + length xml) ≡ true = ground arith in
                          elim (Bool-cases (ltb (header_size + length xml) int_mod)) [
                            | inl fits ↦
                                listens fd (record r' { last_command = RemoteCommand.cmd_listen })
                                  reached some_id out
                                  (ap
                                    (λ (s : RemoteMux). record s {
                                      last_command = RemoteCommand.cmd_listen;
                                    })
                                    q.same)
                                  (service_add-accepted name host port fd w r'
                                      (some (header_size + length xml)) missing free reached some_id
                                      (sent
                                        ∙ ap (λ n. some (n, r'))
                                            (as_int-some _ (ground (arith, fits))))
                                    ∙ rw pos refl)
                            | inr beyond ↦
                                unnoted fd r' reached some_id (ground (arith, beyond)) out q.same (
                                  service_add-accepted name host port fd w r' none missing free
                                    reached some_id
                                    (sent
                                      ∙ ap (λ n. some (n, r'))
                                          (as_int-none _ (ground (arith, beyond)))))
                          ]
                    ]
            ]
      ]
