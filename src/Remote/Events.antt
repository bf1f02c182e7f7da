-- ===== src/Remote/Events.antt =====
-- Tests on the state of a remote.
use usbfluxd.Prelude.{Bool, true, false}
use usbfluxd.World.{RemoteState}

abbrev pub is_command : RemoteState → Bool
is_command RemoteState.command = true
is_command _ = false

abbrev pub is_listen : RemoteState → Bool
is_listen RemoteState.listen = true
is_listen _ = false

abbrev pub is_connecting1 : RemoteState → Bool
is_connecting1 RemoteState.connecting1 = true
is_connecting1 _ = false

abbrev pub is_connecting2 : RemoteState → Bool
is_connecting2 RemoteState.connecting2 = true
is_connecting2 _ = false

abbrev pub is_connected : RemoteState → Bool
is_connected RemoteState.connected = true
is_connected _ = false

abbrev pub is_dead : RemoteState → Bool
is_dead RemoteState.dead = true
is_dead _ = false
