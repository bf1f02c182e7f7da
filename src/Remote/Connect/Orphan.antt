-- ===== src/Remote/Connect/Orphan.antt =====
-- A second request of a client leaves the remote of the first one with a pointer to it.
use usbfluxd.Prelude.{ℕ, ◌^◌, ◌<◌, ◌≡◌, ◌≢◌, refl, false, Option, none, some, List, length, arith}
use usbfluxd.Text.{cstr}
use usbfluxd.Utils.Collection.{Ptr}
use usbfluxd.System.{LibPlist, Env}
use usbfluxd.World.{RemoteCommand, World, MuxClient, RemoteMux}
use usbfluxd.World.Monad.{M, eq_self, ◌>>=◌, read_remote, primitives}
use usbfluxd.Client.Close.{client_close, client_notify_remote_close}
use usbfluxd.Client.Close.Release.{without_both, client_close-freed, client_close-linked}
use usbfluxd.Remote.Output.{Version, create_plist_message}
use usbfluxd.Remote.Dispose.{usbmux_remote_close}
use usbfluxd.Remote.Connect.{buid_remote_id, usbmux_remote_read_buid}
use usbfluxd.Remote.Connect.Routing.{Route}
use usbfluxd.Remote.Connect.Forwarding.{linked}
use usbfluxd.Remote.Connect.Asking.{Asked, asked, overlong, lost}
use usbfluxd.Remote.Connect.Requests.{usbmux_remote_read_buid-Asked}

module _ {Plist : Type 0} ⦃lib : LibPlist Plist⦄ ⦃env : Env⦄ where
  -- Whatever became of the request, the client is linked to the new remote.
  Asked-linked :
      (w : World Plist) (client : Ptr) (c : MuxClient Plist) (r : RemoteMux) (cmd : RemoteCommand)
      (tag : ℕ) (xml : List ℕ) (res : Option (Option (Unit {0}) × World Plist))
      → Asked w client c r cmd tag xml res
      → (r' : RemoteMux) × (answer : Option (Unit {0})) × (res
          ≡ some (answer, linked w client c r'))
  Asked-linked w client c r cmd tag xml res (asked r' _ _ e) = (r', some tt, e)
  Asked-linked w client c r cmd tag xml res (overlong r' _ _ _ e) = (r', none, e)
  Asked-linked w client c r cmd tag xml res (lost _ e) = (r, none, e)

  -- The request, and the end of the client.
  abbrev pub ask_and_close : ⦃v : Version⦄ → ℕ → Ptr → M (World Plist) (Unit {0})
  ask_and_close tag p = usbmux_remote_read_buid {Plist = Plist} tag p >>= λ _. client_close p

  close_orphan :
      (p q : Ptr) (w : World Plist) (r : RemoteMux)
      → w.remotes q ≡ some r
      → r.client ≡ some p
      → w.clients p ≡ none
      → usbmux_remote_close q w ≡ none
  unfolding usbmux_remote_close client_notify_remote_close primitives
  close_orphan p q w r there back gone =
      rw (usbmux_remote_close, ◌>>=◌, read_remote, there, back, client_notify_remote_close)
        (client_close-freed p w gone)

  -- A client whose first request is still unanswered asks for the BUID, where a usbmuxd can be reached,
  -- and then ends, while no thread holds a mutex: the remote of the first request is still there and
  -- still points to the client, which is freed, and closing that remote faults.
  pub usbmux_remote_read_buid-orphans :
      ⦃v : Version⦄
      → (tag : ℕ) (p q : Ptr) (w : World Plist) (c : MuxClient Plist) (first r : RemoteMux)
        (xml : List ℕ)
      → w.clients p ≡ some c
      → w.remotes q ≡ some first
      → first.client ≡ some p
      → q ≢ w.next
      → Route w (buid_remote_id (lib.dict_items w.remote_device_list)) r
      → w.client_list_mutex ≡ false
      → w.remote_list_mutex ≡ false
      → lib.to_xml (create_plist_message {Plist = Plist} (cstr "ReadBUID")) ≡ some xml
      → length xml < 2 ^ 31
      → (w' : World Plist) × (ask_and_close tag p w ≡ some (tt, w'))
        × (w'.clients p ≡ none)
        × (w'.remotes q ≡ some first)
        × (usbmux_remote_close q w' ≡ none)
  unfolding without_both linked
  usbmux_remote_read_buid-orphans tag p q w c first r xml live there back old route free free' made
        small =
      let (r', answer, e) =
        Asked-linked w p c r _ tag xml _
          (usbmux_remote_read_buid-Asked tag p w c r xml route live free' made small).0 in
      let c' : MuxClient Plist = record c { remote = some w.next } in
      let closes =
        client_close-linked p w.next (linked w p c r') c' r' (rw (eq_self p) refl) refl
          (rw (eq_self w.next) refl) free refl in
      let w' : World Plist = without_both (linked w p c r') p c' w.next r' in
      let gone : w'.clients p ≡ none = rw (eq_self p) refl in
      let still : w'.remotes q ≡ some first = ground (arith, old, there) in
      (w', rw (◌>>=◌, e) closes, gone, still, close_orphan p q w' first still back gone)
