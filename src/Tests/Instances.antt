-- ===== src/Tests/Instances.antt =====
-- The theorem on added instances, applied.
use usbfluxd.Prelude.{◌==◌, ◌≡◌, refl, true, none, some, [], ◌∷◌, if◌then◌else◌, arith}
use usbfluxd.Text.{cstr, str_eq}
use usbfluxd.Utils.Collection.{elements, visit}
use usbfluxd.World.{World, RemoteMux}
use usbfluxd.World.Monad.{primitives}
use usbfluxd.Remote.Service.{str_eq_at, same_service, remote_mux_service_add}
use usbfluxd.Remote.Service.Fresh.{none_there, absent}
use usbfluxd.Remote.Service.Adding.{Added, remote_mux_service_add-Added}
use usbfluxd.Remote.Dispose.MarkDead.{listed}
use usbfluxd.Remote.Service.Return.{dead, TwoFirst}
use usbfluxd.Remote.Mdns.{
  ResolverEvent, BrowserEvent, resolved, browsed, service_resolver_free, callbacks,
}
use usbfluxd.Remote.Mdns.Flapping.{callbacks-lost}
use usbfluxd.Tests.Node.{Node, node_lib}
use usbfluxd.Tests.Clients.{calm, version}
use usbfluxd.Tests.Requests.{listener, network}

abbrev known : RemoteMux
known = record listener { service_name = some (cstr "x") }

abbrev one_instance : World Node
one_instance = record network { remotes = λ p. if p == 1 then some known else none }

remote_mux_service_add-Added_example :
    Added one_instance
      (cstr "y")
      (cstr "c")
      5000
      (60 ∷ [])
      (remote_mux_service_add (cstr "y") (cstr "c") 5000 one_instance)
unfolding elements visit cstr str_eq same_service str_eq_at primitives
remote_mux_service_add-Added_example =
    remote_mux_service_add-Added (cstr "y") (cstr "c") 5000 one_instance (60 ∷ [])
      (absent 1 [] known refl (λ v. refl) none_there) refl refl (omega arith)

-- The local usbmuxd, and an instance that was found by mDNS.
abbrev local : RemoteMux
local = record listener { id = 0; is_unix = true }

abbrev found : RemoteMux
found = record known { id = 3; is_listener = true }

abbrev two_remotes : World Node
two_remotes = record network {
  remotes = λ p. if p == 1 then some local else if p == 2 then some found else none;
  remote_list = record { list = some 1 ∷ some 2 ∷ []; capacity = 2 };
}

two_remotes-TwoFirst : TwoFirst two_remotes 1 2 [] local found (cstr "x")
unfolding elements visit listed
two_remotes-TwoFirst = record {
  order = refl;
  local = refl;
  there = refl;
  unix = refl;
  host = refl;
  listens = refl;
  named = refl;
  own_ids = refl;
  awake = refl;
  live = λ q h. absurd (ground (arith, h));
  free = refl;
}

callbacks-lost_example :
    (w' : World Node) × (callbacks
        ((calm, browsed BrowserEvent.browser_remove (cstr "x"))
          ∷ (calm, resolved 9 ResolverEvent.resolver_found (cstr "x") (cstr "c") 5000)
          ∷ [])
        (record { world = two_remotes; calls = [] })
      ≡ some (tt, record { world = w'; calls = service_resolver_free 9 ∷ [] }))
    × (w'.remotes 2 ≡ some (dead found))
    × (w'.remote_list ≡ two_remotes.remote_list)
callbacks-lost_example =
    callbacks-lost calm calm (record { world = two_remotes; calls = [] }) 1 2 9 [] local found
      (cstr "x") (cstr "c") 5000 two_remotes-TwoFirst
