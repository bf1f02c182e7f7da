-- ===== src/Remote/Mdns/Flapping.antt =====
-- A service that goes away and is found again at once, as the callbacks see it.
use usbfluxd.Prelude.{ℕ, ◌≡◌, refl, some, List, [], ◌∷◌}
use usbfluxd.Text.{CString}
use usbfluxd.Utils.Collection.{Ptr}
use usbfluxd.System.{LibPlist, Env}
use usbfluxd.World.{World, RemoteMux}
use usbfluxd.World.Monad.{◌>>=◌, ◌>>◌}
use usbfluxd.Remote.Output.{Version}
use usbfluxd.Remote.Service.Return.{dead, TwoFirst, service_add-removed}
use usbfluxd.Remote.Mdns.{
  Discovery, service_resolver_free, ResolverEvent, BrowserEvent, resolved, browsed, on_world, avahi,
  service_resolve_cb, service_browse_cb, callback, callbacks,
}

-- Where the local usbmuxd and a service are the first two of the list of remotes, all of which are live,
-- and no thread holds the mutex: if Avahi reports that the service is gone, and that it resolved it
-- again, before the main loop disposes of the dead remote, then the callbacks end without a fault, and
-- the service is not added: the list is as it was, with the remote that is dead, and the resolver is
-- freed.
pub callbacks-lost :
    {Plist : Type 0}
    → ⦃lib : LibPlist Plist⦄ → ⦃v : Version⦄
    → (env later : Env) (d : Discovery Plist) (u p resolver : Ptr) (ps : List Ptr)
      (ru r : RemoteMux) (name host : CString) (port : ℕ)
    → TwoFirst d.world u p ps ru r name
    → (w' : World Plist) × (callbacks
          ((env, browsed BrowserEvent.browser_remove name)
            ∷ (later, resolved resolver ResolverEvent.resolver_found name host port)
            ∷ [])
          d
        ≡ some (tt, record d { world = w'; calls = service_resolver_free resolver ∷ d.calls }))
      × (w'.remotes p ≡ some (dead r))
      × (w'.remote_list ≡ d.world.remote_list)
unfolding callbacks callback service_resolve_cb service_browse_cb on_world avahi
callbacks-lost env later d u p resolver ps ru r name host port t =
    let (w', removed, present, gone, kept) =
      service_add-removed ⦃env = env⦄ later d.world u p ps ru r name host port t in
    (
      w',
      rw
          (
            callbacks, ◌>>=◌, ◌>>◌, callback, service_browse_cb, on_world, removed, callback,
            service_resolve_cb, on_world, present,
          )
          refl,
      gone,
      kept,
    )
