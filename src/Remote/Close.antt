-- ===== src/Remote/Close.antt =====
-- The end of a remote's connection that is asked for by its client: `remote_close` and
-- `usbmux_remote_notify_client_close` of usbfluxd/usbmux_remote.c.
use usbfluxd.Prelude.{none}
use usbfluxd.Utils.Collection
use usbfluxd.Utils.Collection.{Ptr}
use usbfluxd.World.{World}
use usbfluxd.World.Monad.{
  M, ◌>>=◌, ◌>>◌, modify, read_remote, write_remote, free_remote, close_fd, lock_remotes,
  unlock_remotes,
}

module _ {Plist : Type 0} where
  unfoldable pub remote_close : Ptr → M (World Plist) (Unit {0})
  remote_close p = do
    r ← read_remote p
    close_fd r.fd
    modify (λ w. record w { remote_list = Collection.remove w.remote_list p })
    free_remote p

  unfoldable pub usbmux_remote_notify_client_close : Ptr → M (World Plist) (Unit {0})
  usbmux_remote_notify_client_close p = do lock_remotes; remote_close p; unlock_remotes

  unfoldable pub usbmux_remote_clear_client : Ptr → M (World Plist) (Unit {0})
  usbmux_remote_clear_client p = do r ← read_remote p; write_remote p (record r { client = none })
