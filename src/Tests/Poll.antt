-- ===== src/Tests/Poll.antt =====
-- The theorems on the list of descriptors for `poll`, applied.
use usbfluxd.Prelude.{◌≡◌, some, [], ◌∷◌, ◌++◌}
use usbfluxd.System.{no_events, pollin_only}
use usbfluxd.Utils.FdList.{FdList, FdOwner, PollFd, fdlist_create, fdlist_add}
use usbfluxd.Utils.FdList.Polled
use usbfluxd.Utils.FdList.Polled.{polled, fdlist_create-IsValid, fdlist_add-polled}
use usbfluxd.World.{ClientState, World}
use usbfluxd.Tests.Node.{Node}
use usbfluxd.Tests.Clients.{client, world}

abbrev fd_of_client : PollFd
fd_of_client = record { fd = 5; events = pollin_only; revents = no_events }

fdlist_add-polled_example :
    (list' : FdList) × (fdlist_add FdOwner.fd_client 5 pollin_only fdlist_create ≡ some list')
    × Polled.IsValid list'
    × (polled list' ≡ polled fdlist_create ++ ((FdOwner.fd_client, fd_of_client) ∷ []))
fdlist_add-polled_example =
    fdlist_add-polled FdOwner.fd_client 5 pollin_only fdlist_create-IsValid.0

abbrev one_client : World Node
one_client = record (world (client ClientState.listen)) {
  client_list = record { list = some 0 ∷ []; capacity = 1 };
}
