-- ===== src/Tests/Orphan.antt =====
-- The theorem on a second request of a client, applied.
use usbfluxd.Prelude.{◌==◌, ◌≡◌, refl, none, some, [], ◌∷◌, if◌then◌else◌, arith}
use usbfluxd.Text.{cstr, strtol_hex, hex_value, digit_value}
use usbfluxd.DeviceId.{remote_mux_id}
use usbfluxd.Utils.Collection.{elements, visit}
use usbfluxd.World.{World}
use usbfluxd.World.Monad.{update}
use usbfluxd.Remote.Dispose.{usbmux_remote_close}
use usbfluxd.Remote.Connect.{buid_remote_id}
use usbfluxd.Remote.Connect.Routing.{to_host, none_passed}
use usbfluxd.Remote.Connect.Orphan.{ask_and_close, usbmux_remote_read_buid-orphans}
use usbfluxd.Tests.Node.{Node, node_lib, items}
use usbfluxd.Tests.Clients.{calm, version, joined, remote}
use usbfluxd.Tests.Requests.{listener, network, opened}

-- The client at 0 waits for the remote at 0; the instance is the remote at 1.
abbrev waiting : World Node
waiting = record network {
  clients = update (λ p. none) 0 (some joined);
  remotes = λ p. if p == 1 then some listener else (if p == 0 then some remote else none);
}

usbmux_remote_read_buid-orphans_example :
    (w' : World Node) × (ask_and_close 4 0 waiting ≡ some (tt, w'))
    × (w'.clients 0 ≡ none)
    × (w'.remotes 0 ≡ some remote)
    × (usbmux_remote_close 0 w' ≡ none)
unfolding elements visit buid_remote_id remote_mux_id strtol_hex hex_value digit_value cstr items
usbmux_remote_read_buid-orphans_example =
    usbmux_remote_read_buid-orphans 4 0 0 waiting joined remote opened (60 ∷ []) refl refl refl
      (omega arith)
      (to_host 9 (cstr "b") [] 1 [] listener refl refl none_passed refl refl refl refl) refl refl
      refl (omega arith)
