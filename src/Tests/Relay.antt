-- ===== src/Tests/Relay.antt =====
-- The theorems on a connected client and its remote, applied.
use usbfluxd.Prelude.{refl, some, none, [], ◌∷◌}
use usbfluxd.System.{pollin_only, pollout_only}
use usbfluxd.World.{World, RemoteMux}
use usbfluxd.World.Monad.{update}
use usbfluxd.Client.Process.{process_client}
use usbfluxd.Client.Process.Relaying.{Linked}
use usbfluxd.Client.Process.Relaying.Up.{UpOutcome, process_client-up}
use usbfluxd.Client.Process.Relaying.Down.{DownOutcome, process_client-down}
use usbfluxd.Remote.Process.{remote_process_send, read_connected}
use usbfluxd.Remote.Process.Sending.{SendOutcome, remote_process_send_lem}
use usbfluxd.Remote.Process.Reading.{ReadOutcome, read_connected-Copied}
use usbfluxd.Tests.Node.{Node, node_lib}
use usbfluxd.Tests.Clients.{calm, version, joined, remote, world, holding, holding-IsValid_out}

-- The remote of the client, with three bytes in each buffer.
abbrev pub peer : RemoteMux
peer = record remote { ib = holding (1 ∷ 2 ∷ 3 ∷ []) 29 }

abbrev pub linked : World Node
linked = record (world joined) { remotes = update (λ p. none) 1 (some peer) }

both-Linked : Linked 0 1 linked joined peer
both-Linked = record { live = refl; there = refl; to_remote = refl; connected = refl }

process_client-up_example : UpOutcome 0 1 linked joined peer (process_client 0 pollin_only linked)
process_client-up_example =
    process_client-up 0 1 linked joined peer pollin_only both-Linked holding-IsValid_out refl

process_client-down_example :
    DownOutcome 0 1 linked joined peer (process_client 0 pollout_only linked)
process_client-down_example =
    process_client-down 0 1 linked joined peer pollout_only both-Linked holding-IsValid_out refl
      refl

remote_process_send_lem_example : SendOutcome 1 linked peer (remote_process_send 1 linked)
remote_process_send_lem_example = remote_process_send_lem 1 linked peer refl holding-IsValid_out

read_connected-Copied_example : ReadOutcome 1 0 linked peer joined (read_connected 1 linked)
read_connected-Copied_example =
    read_connected-Copied 1 0 linked peer joined refl refl refl holding-IsValid_out
