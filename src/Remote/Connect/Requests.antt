-- ===== src/Remote/Connect/Requests.antt =====
-- The requests for the BUID and for pair records: where they go, and what is noted of them.
use usbfluxd.Prelude.{ℕ, ◌^◌, ◌<◌, ◌≡◌, refl, sym, true, false, Option, some, List, length}
use mathlib.Core.Path.{subst}
use usbfluxd.Text.{CString, cstr}
use usbfluxd.DeviceId.{remote_mux_id}
use usbfluxd.Utils.Collection.{Ptr}
use usbfluxd.System.{LibPlist, Env}
use usbfluxd.World.{RemoteCommand, World, MuxClient, RemoteMux}
use usbfluxd.World.Monad.{M, ◌>>=◌, ◌>>◌, read_client, write_client, lock_remotes, primitives}
use usbfluxd.Client.Close.{client_set_remote}
use usbfluxd.Remote.Output.{Version, create_plist_message}
use usbfluxd.Remote.Connect.Records.{Found, Found-match_device}
use usbfluxd.Remote.Connect.{
  new_remote, record_message, usbmux_remote_read_pair_record, add_remote_for, buid_remote_id,
  match_device, pair_record_request, usbmux_remote_read_buid,
}
use usbfluxd.Remote.Connect.Routing.{Route, to_local, to_host, open_remote-Route}
use usbfluxd.Remote.Connect.Forwarding.{linked, Route-locked}
use usbfluxd.Remote.Connect.Asking.{Asked, ask, ask-Asked}

module _ {Plist : Type 0} ⦃lib : LibPlist Plist⦄ ⦃env : Env⦄ where
  -- The message that asks for a pair record.
  abbrev pub record_request : ⦃v : Version⦄ → CString → CString → Plist
  record_request message_type wanted =
      lib.dict_set_item (create_plist_message message_type) (cstr "PairRecordID")
        (lib.new_string wanted)

  Route-id : (w : World Plist) (id : ℕ) (r : RemoteMux) → Route w id r → r.id ≡ 0
  unfolding new_remote
  Route-id w id r (to_local fd z e) = refl
  Route-id w id r (to_host fd h ps q qs l o i b t hi ho e) = refl

  buid_asks :
      ⦃v : Version⦄
      → (tag : ℕ) (client : Ptr) (w : World Plist) (c : MuxClient Plist) (r : RemoteMux)
      → Route w (buid_remote_id (lib.dict_items w.remote_device_list)) r
      → w.clients client ≡ some c
      → w.remote_list_mutex ≡ false
      → usbmux_remote_read_buid tag client w
        ≡ ask w.next client RemoteCommand.cmd_read_buid tag
            (create_plist_message {Plist = Plist} (cstr "ReadBUID"))
            (linked w client c r)
  unfolding usbmux_remote_read_buid add_remote_for client_set_remote primitives linked
  buid_asks tag client w c r route live free =
      rw
        (
          usbmux_remote_read_buid,
          ◌>>=◌,
          ◌>>◌,
          lock_remotes,
          free,
          open_remote-Route (record w { remote_list_mutex = true }) _ r (Route-locked w _ r route),
          add_remote_for,
          client_set_remote,
          read_client,
          live,
          write_client,
          live,
          linked,
        )
        refl

  pair_record_asks :
      (record_id : Option CString) (client : Ptr) (cmd : RemoteCommand) (tag : ℕ)
      (message : M (World Plist) Plist) (msg : Plist) (id : ℕ) (w : World Plist)
      (c : MuxClient Plist) (r : RemoteMux)
      → ((v : World Plist)
          → match_device record_id (lib.dict_items w.remote_device_list) v ≡ some (id, v))
      → ((v : World Plist) → message v ≡ some (msg, v))
      → Route w (remote_mux_id id) r
      → w.clients client ≡ some c
      → w.remote_list_mutex ≡ false
      → pair_record_request record_id client cmd tag message w
        ≡ ask w.next client cmd tag msg (linked w client c r)
  unfolding pair_record_request add_remote_for client_set_remote primitives linked
  pair_record_asks record_id client cmd tag message msg id w c r match says route live free =
      rw
        (
          pair_record_request,
          ◌>>=◌,
          ◌>>◌,
          lock_remotes,
          free,
          match (record w { remote_list_mutex = true }),
          open_remote-Route (record w { remote_list_mutex = true }) (remote_mux_id id) r
              (Route-locked w _ r route),
          add_remote_for,
          client_set_remote,
          read_client,
          live,
          write_client,
          live,
          says,
          linked,
        )
        refl

  -- A request for the BUID from a live client, while no thread holds the mutex of the remotes, where a
  -- usbmuxd can be reached and the message can be written out, below 2 ^ 31 bytes: a new remote is
  -- connected to the usbmuxd that has the first device of the list, or to the local one, and it and
  -- the client are linked; it is asked under the client's tag, unless `realloc` fails, or the packet has
  -- 2 ^ 31 bytes or more: that one is queued, but the remote has no client noted. Its id is 0, also where
  -- it is connected to another host.
  pub usbmux_remote_read_buid-Asked :
      ⦃v : Version⦄
      → (tag : ℕ) (client : Ptr) (w : World Plist) (c : MuxClient Plist) (r : RemoteMux)
        (xml : List ℕ)
      → Route w (buid_remote_id (lib.dict_items w.remote_device_list)) r
      → w.clients client ≡ some c
      → w.remote_list_mutex ≡ false
      → lib.to_xml (create_plist_message {Plist = Plist} (cstr "ReadBUID")) ≡ some xml
      → length xml < 2 ^ 31
      → Asked w client c r RemoteCommand.cmd_read_buid tag xml
          (usbmux_remote_read_buid tag client w)
        × (r.id ≡ 0)
  usbmux_remote_read_buid-Asked tag client w c r xml route live free made small = (
    subst (λ res. Asked w client c r RemoteCommand.cmd_read_buid tag xml res)
        (sym (buid_asks tag client w c r route live free))
        (ask-Asked w client c _ r RemoteCommand.cmd_read_buid tag _ xml route made small),
    Route-id w _ r route,
  )

  -- A request to read a pair record from a live client, while no thread holds the mutex of the remotes,
  -- goes to the usbmuxd that has the first device with the serial number that the record id is, or to
  -- the local one if no device has it. Where that usbmuxd can be reached and the message can be
  -- written out, below 2 ^ 31 bytes, a new remote and the client are linked, and the remote is asked
  -- for the record under the client's tag, unless `realloc` fails, or the packet has 2 ^ 31 bytes or
  -- more: that one is queued, but the remote has no client noted.
  pub usbmux_remote_read_pair_record-Asked :
      ⦃v : Version⦄
      → (wanted : CString) (n tag : ℕ) (client : Ptr) (w : World Plist) (c : MuxClient Plist)
        (r : RemoteMux) (xml : List ℕ)
      → Found wanted (lib.dict_items w.remote_device_list) n
      → Route w (remote_mux_id n) r
      → w.clients client ≡ some c
      → w.remote_list_mutex ≡ false
      → lib.to_xml (record_request (cstr "ReadPairRecord") wanted) ≡ some xml
      → length xml < 2 ^ 31
      → Asked w client c r RemoteCommand.cmd_read_pair_record tag xml
          (usbmux_remote_read_pair_record (some wanted) tag client w)
  unfolding usbmux_remote_read_pair_record record_message
  usbmux_remote_read_pair_record-Asked wanted n tag client w c r xml found route live free made
        small =
      subst (λ res. Asked w client c r RemoteCommand.cmd_read_pair_record tag xml res)
        (sym (
          pair_record_asks (some wanted) client RemoteCommand.cmd_read_pair_record tag _
            (record_request (cstr "ReadPairRecord") wanted) n w c r
            (λ v. Found-match_device wanted _ n v found) (λ v. refl) route live free))
        (ask-Asked w client c _ r RemoteCommand.cmd_read_pair_record tag _ xml route made small)
