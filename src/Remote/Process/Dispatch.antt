-- ===== src/Remote/Process/Dispatch.antt =====
-- `usbmux_remote_process`: which function an event of a remote calls.
use usbfluxd.Prelude.{◌≡◌, refl, true, false, some}
use usbfluxd.Utils.Collection.{Ptr}
use usbfluxd.System.{LibPlist, Env, Events, set_pollin}
use usbfluxd.World.{RemoteState, World, RemoteMux}
use usbfluxd.World.Monad.{◌>>=◌, read_remote, write_remote, primitives}
use usbfluxd.Remote.Events.{is_connected, is_connecting2}
use usbfluxd.Remote.Dispose.{usbmux_remote_close}
use usbfluxd.Remote.Process.{read_connected, remote_process_send, process_connected, process_remote}
use usbfluxd.Remote.Process.Sending.{store}

module _ {Plist : Type 0} ⦃lib : LibPlist Plist⦄ ⦃env : Env⦄ where
  pub process_remote-reads :
      (q : Ptr) (w : World Plist) (r : RemoteMux) (events : Events)
      → w.remotes q ≡ some r
      → is_connected r.state ≡ true
      → events.pollin ≡ true
      → process_remote q events w ≡ read_connected q w
  unfolding process_remote process_connected primitives
  process_remote-reads q w r events there up in_ =
      rw (process_remote, ◌>>=◌, read_remote, there, up, process_connected, in_) refl

  pub process_remote-closes :
      (q : Ptr) (w : World Plist) (r : RemoteMux) (events : Events)
      → w.remotes q ≡ some r
      → is_connected r.state ≡ true
      → events.pollin ≡ false
      → events.pollout ≡ false
      → process_remote q events w ≡ usbmux_remote_close q w
  unfolding process_remote process_connected primitives
  process_remote-closes q w r events there up no_in no_out =
      rw (process_remote, ◌>>=◌, read_remote, there, up, process_connected, no_in, no_out) refl

  pub process_remote-connects :
      (q : Ptr) (w : World Plist) (r : RemoteMux) (events : Events)
      → w.remotes q ≡ some r
      → is_connected r.state ≡ false
      → events.pollin ≡ true
      → is_connecting2 r.state ≡ true
      → process_remote q events w
        ≡ some (
          tt,
          store w q (record r { state = RemoteState.connected; events = set_pollin r.devents }),
        )
  unfolding process_remote primitives
  process_remote-connects q w r events there down in_ soon =
      rw (process_remote, ◌>>=◌, read_remote, there, down, in_, soon, write_remote, there) refl

  pub process_remote-sends :
      (q : Ptr) (w : World Plist) (r : RemoteMux) (events : Events)
      → w.remotes q ≡ some r
      → is_connected r.state ≡ false
      → events.pollin ≡ false
      → events.pollout ≡ true
      → process_remote q events w ≡ remote_process_send q w
  unfolding process_remote primitives
  process_remote-sends q w r events there down no_in out =
      rw (process_remote, ◌>>=◌, read_remote, there, down, no_in, out) refl

  pub process_remote-idle :
      (q : Ptr) (w : World Plist) (r : RemoteMux) (events : Events)
      → w.remotes q ≡ some r
      → is_connected r.state ≡ false
      → events.pollin ≡ false
      → events.pollout ≡ false
      → process_remote q events w ≡ some (tt, w)
  unfolding process_remote primitives
  process_remote-idle q w r events there down no_in no_out =
      rw (process_remote, ◌>>=◌, read_remote, there, down, no_in, no_out) refl
