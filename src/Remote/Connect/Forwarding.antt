-- ===== src/Remote/Connect/Forwarding.antt =====
-- `usbmux_remote_connect`: the request goes to the usbmuxd that has the device, under its own number.
use usbfluxd.Prelude.{
  ℕ, suc, ◌+◌, ◌<◌, ◌≡◌, refl, ap, ◌∙◌, ◌⊎◌, inl, inr, true, false, Option, none, some, List, [],
  ◌∷◌, ◌++◌, ◌^◌, sym, length, arith,
}
use usbfluxd.Text.{cstr}
use usbfluxd.Proto.{header_size, as_int, message_plist}
use usbfluxd.Buffer.{new_size, queued}
use usbfluxd.Buffer.Contents.{IsValid, malloc-IsValid, capacity-malloc}
use usbfluxd.DeviceId.{remote_mux_id, local_id}
use usbfluxd.Utils.Collection
use usbfluxd.Utils.Collection.{Ptr}
use usbfluxd.System.{LibPlist, Env}
use usbfluxd.World.{RemoteState, World, MuxClient, RemoteMux}
use usbfluxd.World.Monad.{
  update, update-update, eq_self, ◌>>=◌, ◌>>◌, read_client, write_client, read_remote, write_remote,
  on_remote, lock_remotes, primitives,
}
use usbfluxd.Client.Close.{client_set_remote}
use usbfluxd.Remote.Output.{remote_send_pkt, remote_send_plist_pkt}
use usbfluxd.Remote.Output.Queueing.{packet, Queued, remote_send_pkt-Sends}
use usbfluxd.Remote.Connect.{reply_buf_size, new_remote, add_remote_for, usbmux_remote_connect}
use usbfluxd.Remote.Connect.Routing.{
  Passed, Route, none_passed, passed, to_local, to_host, open_remote-Route,
}

-- A new remote has an empty and valid output buffer of 64 KiB.
pub record Fresh (r : RemoteMux) : Type 0 where
  pub valid : IsValid r.ob
  pub empty : queued r.ob ≡ []
  pub capacity : r.ob.capacity ≡ reply_buf_size

-- The remote once it is set up for the client, before the request.
abbrev pub set_up : RemoteMux → ℕ → Ptr → RemoteMux
set_up r device_id client = record r {
  id = remote_mux_id device_id;
  state = RemoteState.connecting1;
  client = some client;
}

-- What became of the request: it is queued as the only output of the remote, or `realloc` failed.
abbrev pub Requested : Env → List ℕ → RemoteMux → RemoteMux → Type 0
Requested env xml r r' =
    ((r' ≡ r) × (env.can_alloc (new_size reply_buf_size (header_size + length xml)) ≡ false))
    ⊎ ((queued r'.ob ≡ packet 0 message_plist xml) × Queued (packet 0 message_plist xml) r r')

module _ {Plist : Type 0} ⦃lib : LibPlist Plist⦄ ⦃env : Env⦄ where
  pub Route-Fresh : (w : World Plist) (id : ℕ) (r : RemoteMux) → Route w id r → Fresh r
  unfolding new_remote
  Route-Fresh w id r (to_local fd z e) = record {
    valid = (malloc-IsValid reply_buf_size (omega arith)).0;
    empty = (malloc-IsValid reply_buf_size (omega arith)).1;
    capacity = capacity-malloc reply_buf_size;
  }
  Route-Fresh w id r (to_host fd h ps q qs l o i b t hi ho e) = record {
    valid = (malloc-IsValid reply_buf_size (omega arith)).0;
    empty = (malloc-IsValid reply_buf_size (omega arith)).1;
    capacity = capacity-malloc reply_buf_size;
  }

  Passed-locked :
      (w : World Plist) (id : ℕ) (ps : List Ptr)
      → Passed w id ps
      → Passed (record w { remote_list_mutex = true }) id ps
  Passed-locked w id [] none_passed = none_passed
  Passed-locked w id (p ∷ ps) (passed _ _ r at miss rest) =
      passed p ps r at miss (Passed-locked w id ps rest)

  pub Route-locked :
      (w : World Plist) (id : ℕ) (r : RemoteMux)
      → Route w id r
      → Route (record w { remote_list_mutex = true }) id r
  Route-locked w id r (to_local fd z e) = to_local fd z e
  Route-locked w id r (to_host fd h ps q qs l o i b t hi ho e) =
      to_host fd h ps q qs l o i (Passed-locked w id ps b) t hi ho e

  -- The client and the new remote point to each other, and the remote is on the list.
  unfoldable pub linked : World Plist → Ptr → MuxClient Plist → RemoteMux → World Plist
  linked w client c r = record w {
    clients = update w.clients client (some (record c { remote = some w.next }));
    remotes = update w.remotes w.next (some r);
    next = suc w.next;
    remote_list = Collection.add w.remote_list w.next;
    remote_list_mutex = false;
  }

  -- The request that the remote is to send on, with the device's number at the remote.
  abbrev pub request : ℕ → Plist → Plist
  request device_id req =
      lib.dict_set_item req (cstr "DeviceID") (lib.new_uint (local_id device_id))

  pub connects :
      (device_id tag : ℕ) (req : Plist) (client : Ptr) (w : World Plist) (c : MuxClient Plist)
      (r r' : RemoteMux) (res : Option ℕ)
      → Route w (remote_mux_id device_id) r
      → w.clients client ≡ some c
      → w.remote_list_mutex ≡ false
      → remote_send_plist_pkt 0 (request device_id req) (set_up r device_id client) ≡ some (res, r')
      → usbmux_remote_connect device_id tag req client w ≡ some (some tt, linked w client c r')
  unfolding usbmux_remote_connect add_remote_for client_set_remote primitives linked
  connects device_id tag req client w c r r' res route live free sent =
      rw
        (
          usbmux_remote_connect,
          ◌>>=◌,
          ◌>>◌,
          lock_remotes,
          free,
          open_remote-Route (record w { remote_list_mutex = true }) (remote_mux_id device_id) r
              (Route-locked w _ r route),
          read_remote,
          eq_self w.next,
          write_remote,
          eq_self w.next,
          add_remote_for,
          client_set_remote,
          read_client,
          live,
          write_client,
          live,
          on_remote,
          eq_self w.next,
          sent,
          linked,
        )
        (ap (λ f. some (some tt, record (linked w client c r') { remotes = f }))
          (ap (λ g. update g w.next (some r'))
              (update-update w.remotes w.next (some r) (some (set_up r device_id client)))
            ∙ update-update w.remotes w.next (some (set_up r device_id client)) (some r')))

  pub send_xml :
      (plist : Plist) (xml : List ℕ) (r : RemoteMux)
      → lib.to_xml plist ≡ some xml
      → remote_send_plist_pkt 0 plist r ≡ remote_send_pkt 0 message_plist xml r
  unfolding remote_send_plist_pkt
  send_xml plist xml r e = rw (remote_send_plist_pkt, e) refl

  pub send_unwritten :
      (plist : Plist) (r : RemoteMux)
      → lib.to_xml plist ≡ none
      → remote_send_plist_pkt 0 plist r ≡ some (none, r)
  unfolding remote_send_plist_pkt
  send_unwritten plist r e = rw (remote_send_plist_pkt, e) refl

  -- The outcome of a request to connect where there is a route: it succeeds, client and remote are
  -- linked, and the request is queued or not as above.
  abbrev pub Forwards :
      ℕ → ℕ → Plist → Ptr → World Plist → MuxClient Plist → RemoteMux → List ℕ → Type 0
  Forwards device_id tag req client w c r xml =
      (r' : RemoteMux) × (usbmux_remote_connect device_id tag req client w
        ≡ some (some tt, linked w client c r'))
      × Requested env xml (set_up r device_id client) r'

  -- A request to connect to a device, from a live client and while no thread holds the mutex of the
  -- remotes, where a usbmuxd can be reached for the device and the request can be written out, below
  -- 2 ^ 31 bytes: a new remote is connected to the local usbmuxd if the device's id names remote 0,
  -- else to the host and port of the first remote that listens for the id. It points to the client
  -- and the client to it, it has the id, waits for the answer and is on the list; nothing else
  -- changes but the lock, which is free. Its output is the client's request with the number that the
  -- device has at that usbmuxd, unless `realloc` fails.
  pub usbmux_remote_connect-Forwards :
      (device_id tag : ℕ) (req : Plist) (client : Ptr) (w : World Plist) (c : MuxClient Plist)
      (r : RemoteMux) (xml : List ℕ)
      → Route w (remote_mux_id device_id) r
      → w.clients client ≡ some c
      → w.remote_list_mutex ≡ false
      → lib.to_xml (request device_id req) ≡ some xml
      → length xml < 2 ^ 31
      → Forwards device_id tag req client w c r xml
  usbmux_remote_connect-Forwards device_id tag req client w c r xml route live free made small =
      let fresh = Route-Fresh w (remote_mux_id device_id) r route in
      let r1 = set_up r device_id client in
      elim (remote_send_pkt-Sends 0 message_plist xml r1 fresh.valid (omega (arith, fresh.capacity))
        small) [
          | inl (e, full) ↦ (
            r1,
            connects device_id tag req client w c r r1 none route live free
                (send_xml (request device_id req) xml r1 made ∙ e),
            inl (refl, rw (sym fresh.capacity) full),
          )
          | inr (r', e, q) ↦ (
            r',
            connects device_id tag req client w c r r' (as_int (header_size + length xml)) route
                live free (send_xml (request device_id req) xml r1 made ∙ e),
            inr (q.appended ∙ ap (λ bytes. bytes ++ packet 0 message_plist xml) fresh.empty, q),
          )
        ]
