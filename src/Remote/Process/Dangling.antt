-- ===== src/Remote/Process/Dangling.antt =====
-- `usbmux_remote_process`: the remote of a failed send is used after it was freed.
use usbfluxd.Prelude.{◌≡◌, refl, ◌∙◌, true, false, none, some, ◌==◌, ◌⊎◌, inl, inr}
use usbfluxd.Utils.Collection.{Ptr}
use usbfluxd.System.{LibPlist, Env, Events, send, pollin_only}
use usbfluxd.World.{World, MuxClient, RemoteMux}
use usbfluxd.World.Monad.{eq_self, ◌>>=◌, ◌>>◌, read_remote, primitives}
use usbfluxd.Client.Close.{client_close, client_notify_remote_close}
use usbfluxd.Client.Close.Release.{without_both, client_close-linked}
use usbfluxd.Remote.Dispose.{usbmux_remote_close}
use usbfluxd.Remote.Events.{is_connected}
use usbfluxd.Remote.Process.{
  sent, remote_process_send, wake_client, process_connected, process_remote,
}

module _ {Plist : Type 0} ⦃lib : LibPlist Plist⦄ ⦃env : Env⦄ where
  wake_freed :
      (p : Ptr) (w : World Plist) (events : Events)
      → w.remotes p ≡ none
      → wake_client p events w ≡ none
  unfolding wake_client primitives
  wake_freed p w events gone = rw (gone, wake_client, read_remote, ◌>>=◌) refl

  closes_both :
      (p q : Ptr) (w : World Plist) (r : RemoteMux) (c : MuxClient Plist)
      → w.remotes p ≡ some r
      → r.client ≡ some q
      → w.clients q ≡ some c
      → c.remote ≡ some p
      → w.client_list_mutex ≡ false
      → w.remote_list_mutex ≡ false
      → usbmux_remote_close p w ≡ some (tt, without_both w q c p r)
  unfolding usbmux_remote_close client_notify_remote_close primitives
  closes_both p q w r c there linked live back free free' =
      let to_client : usbmux_remote_close p w ≡ client_close q w =
        rw (there, usbmux_remote_close, read_remote, ◌>>=◌, linked, client_notify_remote_close)
          refl in
      to_client ∙ client_close-linked q p w c r live back there free free'

  send_fails :
      (p : Ptr) (w : World Plist) (r : RemoteMux)
      → w.remotes p ≡ some r
      → (r.ob.size == 0) ≡ false
      → (send env r.ob.size ≡ none) ⊎ (send env r.ob.size ≡ some 0)
      → remote_process_send p w ≡ usbmux_remote_close p w
  unfolding remote_process_send sent primitives
  send_fails p w r there busy (inl failed) =
      rw (there, remote_process_send, read_remote, ◌>>=◌, busy, failed, sent) refl
  send_fails p w r there busy (inr nothing) =
      rw (there, remote_process_send, read_remote, ◌>>=◌, busy, nothing, sent) refl

  -- A connected remote with output, whose client points back to it, gets an event POLLOUT and no
  -- POLLIN while no thread holds a mutex. If `send` fails or takes nothing, then the client and the
  -- remote are freed, and the handler goes on to read the freed remote, which faults.
  pub process_remote-dangling :
      (p q : Ptr) (w : World Plist) (r : RemoteMux) (c : MuxClient Plist) (events : Events)
      → w.remotes p ≡ some r
      → is_connected r.state ≡ true
      → r.client ≡ some q
      → w.clients q ≡ some c
      → c.remote ≡ some p
      → w.client_list_mutex ≡ false
      → w.remote_list_mutex ≡ false
      → events.pollin ≡ false
      → events.pollout ≡ true
      → (r.ob.size == 0) ≡ false
      → (send env r.ob.size ≡ none) ⊎ (send env r.ob.size ≡ some 0)
      → process_remote p events w ≡ none
  unfolding process_remote process_connected primitives without_both
  process_remote-dangling p q w r c events there up linked live back free free' in_ out busy
        failed =
      rw
        (
          there,
          process_remote,
          read_remote,
          ◌>>=◌,
          ◌>>◌,
          up,
          process_connected,
          in_,
          out,
          send_fails p w r there busy failed,
          closes_both p q w r c there linked live back free free',
        )
        (wake_freed p (without_both w q c p r) pollin_only (rw (without_both, eq_self p) refl))
