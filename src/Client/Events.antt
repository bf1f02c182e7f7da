-- ===== src/Client/Events.antt =====
-- Tests on the state of a client, and the event masks: `client_set_events`, `client_or_events`.
use usbfluxd.Prelude.{Bool, true, false, ◌||◌, if◌then◌else◌, Option, none, some}
use usbfluxd.System.{Events, or_events}
use usbfluxd.World.{ClientState, MuxClient}
use usbfluxd.World.Monad.{M}

abbrev pub is_command : ClientState → Bool
is_command ClientState.command = true
is_command _ = false

abbrev pub is_listen : ClientState → Bool
is_listen ClientState.listen = true
is_listen _ = false

abbrev pub is_connecting1 : ClientState → Bool
is_connecting1 ClientState.connecting1 = true
is_connecting1 _ = false

abbrev pub is_connecting2 : ClientState → Bool
is_connecting2 ClientState.connecting2 = true
is_connecting2 _ = false

abbrev pub is_connected : ClientState → Bool
is_connected ClientState.connected = true
is_connected _ = false

abbrev pub is_dead : ClientState → Bool
is_dead ClientState.dead = true
is_dead _ = false

module _ {Plist : Type 0} where
  -- `none` is the code's -1.
  pub client_set_events : Events → M (MuxClient Plist) (Option (Unit {0}))
  client_set_events events c =
      if is_connected c.state || is_connecting2 c.state
      then some (
        some tt,
        (if is_connected c.state
            then record c { devents = events; events = events }
            else record c { devents = events }),
      )
      else some (none, c)

  unfoldable pub client_or_events : Events → M (MuxClient Plist) (Option (Unit {0}))
  client_or_events events c =
      if is_connected c.state || is_connecting2 c.state
      then some (
        some tt,
        (if is_connected c.state
            then record c {
              devents = or_events c.devents events;
              events = or_events c.events events;
            }
            else record c { devents = or_events c.devents events }),
      )
      else some (none, c)
