-- ===== src/Remote/Mdns.antt =====
-- The thread that looks for instances by mDNS, in usbfluxd/usbmux_remote.c as it is built with Avahi:
-- the callbacks, and the objects that the thread makes. What is called of Avahi is recorded; which
-- callbacks come, in which order, and what its functions return are inputs.
pub mod Flapping
use usbfluxd.Prelude.{ℕ, if◌then◌else◌, Bool, Option, none, some, List, [], ◌∷◌}
use usbfluxd.Text.{CString}
use usbfluxd.Utils.Collection.{Ptr}
use usbfluxd.System.{LibPlist, Env}
use usbfluxd.World.{World}
use usbfluxd.World.Monad.{M, pure, ◌>>=◌, ◌>>◌}
use usbfluxd.Remote.Output.{Version}
use usbfluxd.Remote.Service.{remote_mux_service_add, remote_mux_service_remove}

-- The calls of Avahi.
pub data AvahiCall : Type 0 where
  simple_poll_new client_new service_browser_new simple_poll_loop : AvahiCall
  simple_poll_quit service_browser_free client_free simple_poll_free : AvahiCall
  service_resolver_new : CString → AvahiCall
  service_resolver_free : Ptr → AvahiCall

-- The remotes, and the calls so far, the last one first.
pub record Discovery (Plist : Type 0) : Type 0 where
  pub world : World Plist
  pub calls : List AvahiCall

-- `AvahiResolverEvent` and `AvahiBrowserEvent`.
pub data ResolverEvent : Type 0 where
  resolver_found resolver_failure : ResolverEvent

pub data BrowserEvent : Type 0 where
  browser_failure browser_new browser_remove all_for_now cache_exhausted : BrowserEvent

pub data Callback : Type 0 where
  -- The resolver, the event, the name of the service, the host and the port.
  resolved : Ptr → ResolverEvent → CString → CString → ℕ → Callback
  browsed : BrowserEvent → CString → Callback
  -- Whether the state of the client is `AVAHI_CLIENT_FAILURE`.
  client_changed : Bool → Callback

module _ {Plist : Type 0} where
  unfoldable pub on_world : {A : Type 0} → M (World Plist) A → M (Discovery Plist) A
  on_world m d = elim (m d.world) [ none ↦ none | some (a, w) ↦ some (a, record d { world = w }) ]

  unfoldable pub avahi : AvahiCall → M (Discovery Plist) (Unit {0})
  avahi call d = some (tt, record d { calls = call ∷ d.calls })

module _ {Plist : Type 0} ⦃lib : LibPlist Plist⦄ ⦃env : Env⦄ where
  pub service_resolve_cb :
      ⦃v : Version⦄ → Ptr → ResolverEvent → CString → CString → ℕ → M (Discovery Plist) (Unit {0})
  service_resolve_cb r ResolverEvent.resolver_failure service_name host_name port =
      avahi (service_resolver_free r)
  service_resolve_cb r ResolverEvent.resolver_found service_name host_name port = do
    res ← on_world (remote_mux_service_add service_name host_name port)
    avahi (service_resolver_free r)

  -- The new resolver is not kept, and whether there is one only matters for the log.
  pub service_browse_cb : BrowserEvent → CString → M (Discovery Plist) (Unit {0})
  service_browse_cb BrowserEvent.browser_failure service_name = avahi simple_poll_quit
  service_browse_cb BrowserEvent.browser_new service_name =
      avahi (service_resolver_new service_name)
  service_browse_cb BrowserEvent.browser_remove service_name = do
    res ← on_world (remote_mux_service_remove (some service_name) none 0)
    pure tt
  service_browse_cb BrowserEvent.all_for_now service_name = pure tt
  service_browse_cb BrowserEvent.cache_exhausted service_name = pure tt

  client_cb : Bool → M (Discovery Plist) (Unit {0})
  client_cb failure = if failure then avahi simple_poll_quit else pure tt

  pub callback : ⦃v : Version⦄ → Callback → M (Discovery Plist) (Unit {0})
  callback (resolved r event service_name host_name port) =
      service_resolve_cb r event service_name host_name port
  callback (browsed event service_name) = service_browse_cb event service_name
  callback (client_changed failure) = client_cb failure

-- Which of the objects of the thread Avahi makes.
pub record Made : Type 0 where
  pub poll : Bool
  pub client : Bool
  pub browser : Bool

module _ {Plist : Type 0} ⦃lib : LibPlist Plist⦄ ⦃v : Version⦄ where
  -- The callbacks that come while Avahi's loop runs, each with the outcomes of its system calls.
  pub callbacks : List (Env × Callback) → M (Discovery Plist) (Unit {0})
  callbacks [] = pure tt
  callbacks ((env, c) ∷ rest) = do callback ⦃env = env⦄ c; callbacks rest

  with_browser : Made → List (Env × Callback) → M (Discovery Plist) (Unit {0})
  with_browser made cs = do
    avahi service_browser_new
    if made.browser
        then (do avahi simple_poll_loop; callbacks cs; avahi service_browser_free)
        else pure tt

  with_client : Made → List (Env × Callback) → M (Discovery Plist) (Unit {0})
  with_client made cs = do
    avahi client_new
    if made.client then (do with_browser made cs; avahi client_free) else pure tt

  -- The label `monitor_thread_cleanup` frees what was made, the last first.
  pub mdns_monitor_thread : Made → List (Env × Callback) → M (Discovery Plist) (Unit {0})
  mdns_monitor_thread made cs = do
    avahi simple_poll_new
    if made.poll then (do with_client made cs; avahi simple_poll_free) else pure tt
