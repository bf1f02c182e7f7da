-- ===== src/Remote/Connect/Routing.antt =====
-- Which usbmuxd a request of a client is sent to.
use usbfluxd.Prelude.{ℕ, suc, ◌==◌, ◌≡◌, refl, ◌&&◌, true, false, none, some, List, [], ◌∷◌, ◌++◌}
use usbfluxd.Text.{CString}
use usbfluxd.Utils.Collection
use usbfluxd.Utils.Collection.{Ptr}
use usbfluxd.System.{LibPlist, Env}
use usbfluxd.World.{World, RemoteMux}
use usbfluxd.World.Monad.{update, ◌>>=◌, read_remote, alloc_remote, primitives}
use usbfluxd.Remote.Events.{is_listen}
use usbfluxd.Remote.Connect.{
  new_remote, remote_mux_new_with_unix_socket, remote_mux_new_with_host, connect_like, open_remote,
}

module _ {Plist : Type 0} ⦃lib : LibPlist Plist⦄ ⦃env : Env⦄ where
  -- The remotes of a list are live, and none of them listens for the id.
  pub data Passed (w : World Plist) (id : ℕ) : List Ptr → Type 0 where
    none_passed : Passed w id []
    passed :
        (p : Ptr) (ps : List Ptr) (r : RemoteMux)
        → w.remotes p ≡ some r
        → (r.id == id && is_listen r.state) ≡ false
        → Passed w id ps
        → Passed w id (p ∷ ps)

  -- The search goes on to the first remote that listens for the id, and connects to its host and port.
  pub connect_like-first :
      (id : ℕ) (ps qs : List Ptr) (q : Ptr) (w : World Plist) (r : RemoteMux)
      → Passed w id ps
      → w.remotes q ≡ some r
      → (r.id == id && is_listen r.state) ≡ true
      → connect_like id (ps ++ (q ∷ qs)) w ≡ remote_mux_new_with_host r.host r.port w
  unfolding connect_like primitives
  connect_like-first id [] qs q w r none_passed there hit =
      rw (connect_like, ◌>>=◌, read_remote, there, hit) refl
  connect_like-first id (p ∷ ps) qs q w r (passed _ _ s at miss rest) there hit =
      rw (connect_like, ◌>>=◌, read_remote, at, miss)
        (connect_like-first id ps qs q w r rest there hit)

  pub connect_like-none :
      (id : ℕ) (ps : List Ptr) (w : World Plist)
      → Passed w id ps
      → connect_like id ps w ≡ some (none, w)
  unfolding connect_like primitives
  connect_like-none id [] w none_passed = refl
  connect_like-none id (p ∷ ps) w (passed _ _ s at miss rest) =
      rw (connect_like, ◌>>=◌, read_remote, at, miss) (connect_like-none id ps w rest)

  -- Where a request for an id goes, and the remote that is opened for it: for 0 the local usbmuxd, for
  -- any other id the host and port of the first remote that listens for it.
  pub data Route (w : World Plist) (id : ℕ) : RemoteMux → Type 0 where
    to_local :
        (fd : ℕ)
        → (id == 0) ≡ true
        → env.unix_fd ≡ some fd
        → Route w id (record (new_remote fd env.now) { is_unix = true })
    to_host :
        (fd : ℕ) (h : CString) (ps : List Ptr) (q : Ptr) (qs : List Ptr) (l : RemoteMux)
        → (id == 0) ≡ false
        → Collection.elements w.remote_list ≡ ps ++ (q ∷ qs)
        → Passed w id ps
        → w.remotes q ≡ some l
        → (l.id == id && is_listen l.state) ≡ true
        → l.host ≡ some h
        → env.host_fd h l.port ≡ some fd
        → Route w id (record (new_remote fd env.now) { host = some h; port = l.port })

  new_with_host :
      (h : CString) (port fd : ℕ) (w : World Plist)
      → env.host_fd h port ≡ some fd
      → remote_mux_new_with_host (some h) port w
        ≡ some (
          some w.next,
          record w {
            remotes =
                update w.remotes w.next
                  (some (record (new_remote fd env.now) { host = some h; port = port }));
            next = suc w.next;
          },
        )
  unfolding remote_mux_new_with_host primitives
  new_with_host h port fd w e = rw (remote_mux_new_with_host, e, ◌>>=◌, alloc_remote) refl

  -- `open_remote` follows the route, and leaves the new remote at a new address.
  pub open_remote-Route :
      (w : World Plist) (id : ℕ) (r : RemoteMux)
      → Route w id r
      → open_remote id w
        ≡ some (
          some w.next,
          record w { remotes = update w.remotes w.next (some r); next = suc w.next },
        )
  unfolding open_remote remote_mux_new_with_unix_socket primitives
  open_remote-Route w id r (to_local fd zero_id e) =
      rw (open_remote, ◌>>=◌, zero_id, remote_mux_new_with_unix_socket, e, alloc_remote) refl
  open_remote-Route w id r (to_host fd h ps q qs l other listed before there hit host e) =
      rw
        (
          open_remote,
          ◌>>=◌,
          other,
          listed,
          connect_like-first id ps qs q w l before there hit,
          host,
        )
        (new_with_host h l.port fd w e)
