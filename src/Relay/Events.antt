-- ===== src/Relay/Events.antt =====
-- The events of a run, and what the daemon does on each.
use usbfluxd.Main.Loop.{poll_list}
use usbfluxd.Utils.FdList.{FdList}
use usbfluxd.Prelude.{
  ℕ, ◌||◌, ◌&&◌, true, false, ◌^◌, ltb, length, not, Bool, if◌then◌else◌, Option, none, some, List,
  [], ◌∷◌,
}
use usbfluxd.Utils.Collection.{Ptr}
use usbfluxd.System.{LibPlist, Env, Events}
use usbfluxd.World.{World, MuxClient, RemoteMux}
use usbfluxd.World.Monad.{M, pure, ◌>>=◌, ◌>>◌}
use usbfluxd.Client.Events.{is_command, is_connected}
use usbfluxd.Client.Command.{connected_to}
use usbfluxd.Text.{CString}
use usbfluxd.Remote.Service.{remote_mux_service_add}
use usbfluxd.Remote.Connect.{usbmux_remote_connect}
use usbfluxd.Remote.Connect.Forwarding.{request}
use usbfluxd.Remote.Result.{connect_answer}
use usbfluxd.Client.Accept.{client_accept}
use usbfluxd.Client.Process.{process_client}
use usbfluxd.Remote.Events as RemoteEvents
use usbfluxd.Remote.Output.{Version}
use usbfluxd.Remote.Process.{process_remote}

-- A connection to the daemon's socket, a request and its answer, a new instance, and poll results of a client and of a remote.
pub data Event (Plist : Type 0) : Type 0 where
  accepts : Event Plist
  -- "Connect" of a client, with the tag, the device id and the property list.
  asks : Ptr → ℕ → ℕ → Plist → Event Plist
  -- The result that a usbmuxd sends to a remote in REMOTE_CONNECTING1.
  answers : Ptr → ℕ → Event Plist
  -- An instance to be added: its name, host and port.
  appears : CString → CString → ℕ → Event Plist
  client_ready remote_ready : Ptr → Events → Event Plist

-- Not a packet of the protocol: an event of a connected client, or no POLLIN.
unfoldable pub relays_client_event : {Plist : Type 0} → MuxClient Plist → Events → Bool
relays_client_event c events = is_connected c.state || not events.pollin

-- The same of a remote; a POLLOUT of a connected one without POLLIN is left out, since a failure of
-- `send` then leads to an access to the freed remote.
unfoldable pub relays_remote_event : RemoteMux → Events → Bool
relays_remote_event r events =
    if RemoteEvents.is_connected r.state
    then events.pollin || not events.pollout
    else not events.pollin || RemoteEvents.is_connecting2 r.state

module _ {Plist : Type 0} ⦃lib : LibPlist Plist⦄ ⦃env : Env⦄ where
  -- "Connect" from the call of `usbmux_remote_connect` on.
  abbrev pub ask : Ptr → ℕ → ℕ → Plist → M (World Plist) (Option ℕ)
  ask p tag device_id req = do
    res ← usbmux_remote_connect device_id tag req p
    connected_to p tag device_id res

module _ {Plist : Type 0} ⦃lib : LibPlist Plist⦄ ⦃v : Version⦄ where
  -- A client in CLIENT_COMMAND that has no remote yet, and sizes below 2 ^ 31 bytes.
  unfoldable pub may_ask : ⦃env : Env⦄ → MuxClient Plist → ℕ → Plist → Bool
  may_ask c device_id req =
      is_command c.state
      && ltb c.ob.capacity (2 ^ 31)
      && (elim c.remote [ none ↦ true | some q ↦ false ])
      && (elim (lib.to_xml (request device_id req)) [
        | none ↦ true
        | some xml ↦ ltb (length xml) (2 ^ 31)
      ])

  -- The output buffer of the remote's client is below 2 ^ 31 bytes, if it has a live client.
  unfoldable pub has_room : World Plist → RemoteMux → Bool
  has_room w r = elim r.client [
    | none ↦ true
    | some p ↦ elim (w.clients p) [ none ↦ true | some c ↦ ltb c.ob.capacity (2 ^ 31) ]
  ]

  unfoldable pub on_event : ⦃env : Env⦄ → Event Plist → M (World Plist) (Unit {0})
  on_event accepts w = (do cfd ← client_accept; pure tt) w
  on_event (asks p tag device_id req) w = elim (w.clients p) [
    | none ↦ some (tt, w)
    | some c ↦
        if may_ask c device_id req
        then (do res ← ask p tag device_id req; pure tt) w
        else some (tt, w)
  ]
  on_event (answers q result) w = elim (w.remotes q) [
    | none ↦ some (tt, w)
    | some r ↦
        if RemoteEvents.is_connecting1 r.state && has_room w r
        then connect_answer q result w
        else some (tt, w)
  ]
  on_event (appears name host port) w = (do res ← remote_mux_service_add name host port; pure tt) w
  on_event (client_ready p events) w = elim (w.clients p) [
    | none ↦ some (tt, w)
    | some c ↦ if relays_client_event c events then process_client p events w else some (tt, w)
  ]
  on_event (remote_ready q events) w = elim (w.remotes q) [
    | none ↦ some (tt, w)
    | some r ↦ if relays_remote_event r events then process_remote q events w else some (tt, w)
  ]

  -- Events one after another, each with the outcomes of its system calls.
  unfoldable pub run : List (Env × Event Plist) → M (World Plist) (Unit {0})
  run [] = pure tt
  run ((env, e) ∷ rest) = do on_event ⦃env = env⦄ e; run rest

  -- Rounds of `main_loop`: the list for `ppoll`, then the events.
  unfoldable pub rounds :
      ℕ → List (Env × List (Env × Event Plist)) → FdList → M (World Plist) FdList
  rounds listenfd [] list = pure list
  rounds listenfd ((env, steps) ∷ rest) list = do
    list' ← poll_list env listenfd list
    run steps
    rounds listenfd rest list'
