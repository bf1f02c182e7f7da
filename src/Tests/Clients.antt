-- ===== src/Tests/Clients.antt =====
-- The theorems on clients, applied.
use usbfluxd.Prelude.{
  ℕ, ◌≡◌, refl, true, false, none, some, List, [], ◌∷◌, ◌++◌, length, replicate, arith,
}
use usbfluxd.Proto.{bytes_of_u32, bytes_of_header, header_at}
use usbfluxd.Buffer.{Buffer}
use usbfluxd.Buffer.Contents
use usbfluxd.Utils.Collection.{init, add}
use usbfluxd.Remote.IdMap.{empty}
use usbfluxd.Remote.Output.{Version}
use usbfluxd.System.{Env, no_events, pollin_only}
use usbfluxd.World.{ClientState, RemoteState, RemoteCommand, World, MuxClient, RemoteMux}
use usbfluxd.World.Monad.{update}
use usbfluxd.Client.Output.{send_pkt}
use usbfluxd.Client.Output.Queueing.{Sends, send_pkt-Sends}
use usbfluxd.Client.Close.{client_close}
use usbfluxd.Client.Close.Release.{without_both, client_close-linked}
use usbfluxd.Client.Notify.{client_notify_connect}
use usbfluxd.Client.Notify.Answer.{Answered, client_notify_connect-Answered}
use usbfluxd.Client.Accept.New.{client_accept-New, AcceptOutcome}
use usbfluxd.Client.Process.{process_recv}
use usbfluxd.Client.Process.Sending.{SendOutcome, process_send_lem}
use usbfluxd.Client.Process.Received.{store}
use usbfluxd.Client.Process.Framing.{Framed, IsComplete}
use usbfluxd.Client.Process.Receiving.{process_recv-Framed}
use usbfluxd.Client.Process.Stuck.{process_recv-stuck}
use usbfluxd.Tests.Node.{Node, dict, node_lib, parse}

-- A buffer of 32 bytes, some of them in use.
abbrev pub holding : List ℕ → ℕ → Buffer
holding bytes rest = record {
  buf = some (bytes ++ replicate rest 0);
  size = length bytes;
  capacity = 32;
}

-- A system where `realloc` always succeeds, and a few bytes can be read and written.
instance abbrev pub calm : Env
calm = record {
  incoming = some (1 ∷ 2 ∷ 3 ∷ []);
  writable = some 2;
  can_alloc = λ n. true;
  unix_fd = some 9;
  host_fd = λ host port. some 9;
  accepted_fd = some 6;
  now = 0;
}

-- A header and one zero byte: a request in version 1 whose property list cannot be parsed.
abbrev pub bad_request : List ℕ
bad_request = 17 ∷ 0 ∷ 0 ∷ 0 ∷ 1 ∷ 0 ∷ 0 ∷ 0 ∷ 8 ∷ 0 ∷ 0 ∷ 0 ∷ 4 ∷ 0 ∷ 0 ∷ 0 ∷ 0 ∷ []

abbrev pub client : ClientState → MuxClient Node
client state = record {
  fd = 5;
  ob = holding (1 ∷ 2 ∷ 3 ∷ []) 29;
  ib = holding bad_request 15;
  events = pollin_only;
  devents = no_events;
  connect_tag = 4;
  connect_device = 1;
  state = state;
  proto_version = 0;
  remote = none;
  number = 0;
  info = none;
}

abbrev pub remote : RemoteMux
remote = record {
  fd = 8;
  ob = holding (1 ∷ 2 ∷ 3 ∷ []) 29;
  ib = holding [] 32;
  events = pollin_only;
  devents = no_events;
  state = RemoteState.connected;
  last_command = RemoteCommand.minus_one;
  id = 0;
  is_listener = false;
  service_name = none;
  is_unix = true;
  host = none;
  port = 0;
  client = some 0;
  last_active = 0;
}

-- A client at address 0, and a remote at address 1.
abbrev pub world : MuxClient Node → World Node
world c = record {
  clients = update (λ p. none) 0 (some c);
  remotes = update (λ p. none) 1 (some remote);
  next = 2;
  client_list = add init 0;
  client_number = 1;
  client_list_mutex = false;
  remote_list = add init 1;
  remote_device_list = dict;
  remote_id_map = empty;
  remote_list_mutex = false;
  closed = [];
}

pub holding-IsValid_out : Contents.IsValid (holding (1 ∷ 2 ∷ 3 ∷ []) 29)
holding-IsValid_out = record {
  block = _;
  stored = refl;
  sized = refl;
  fits = omega arith;
  small = omega arith;
}

holding-IsValid_in : Contents.IsValid (holding bad_request 15)
holding-IsValid_in = record {
  block = _;
  stored = refl;
  sized = refl;
  fits = omega arith;
  small = omega arith;
}

instance abbrev pub version : Version
version = record { client_version_string = [] }

abbrev waiting : MuxClient Node
waiting = client ClientState.connecting1

abbrev asking : MuxClient Node
asking = client ClientState.command

send_pkt-Sends_example :
    Sends calm 18
      (bytes_of_header (record { length = 18; version = 0; message = 1; tag = 4 }) ++ (7 ∷ 8 ∷ []))
      asking
      (send_pkt 4 1 (7 ∷ 8 ∷ []) asking)
send_pkt-Sends_example =
    send_pkt-Sends 4 1 (7 ∷ 8 ∷ []) asking holding-IsValid_out (omega arith) (omega arith)

client_notify_connect-Answered_example : Answered 3 waiting (client_notify_connect 3 waiting)
unfolding bytes_of_u32
client_notify_connect-Answered_example =
    client_notify_connect-Answered 3 waiting holding-IsValid_out
      (λ m e. (ground (arith, e), ground (arith, e)))

abbrev pub joined : MuxClient Node
joined = record (client ClientState.connected) { remote = some 1 }

client_close-linked_example :
    client_close 0 (world joined) ≡ some (tt, without_both (world joined) 0 joined 1 remote)
client_close-linked_example =
    client_close-linked 0 1 (world joined) joined remote refl refl refl refl refl

client_accept-New_example : AcceptOutcome (world waiting)
client_accept-New_example = client_accept-New (world waiting) refl

process_send_lem_example : SendOutcome 0 (world asking) asking
process_send_lem_example =
    process_send_lem 0 (world asking) asking refl holding-IsValid_out (omega arith)

process_recv-Framed_example : Framed 0 (world asking) asking (process_recv 0 (world asking))
process_recv-Framed_example =
    process_recv-Framed 0 (world asking) asking refl holding-IsValid_in (omega arith)

asking-IsComplete : IsComplete asking
unfolding header_at
asking-IsComplete = record {
  has_header = omega arith;
  in_buffer = omega arith;
  all_there = omega arith;
}

process_recv-stuck_example :
    process_recv 0 (world asking)
    ≡ some (tt, store (world asking) 0 (record asking { proto_version = 1 }))
unfolding header_at parse
process_recv-stuck_example =
    process_recv-stuck 0 (world asking) asking refl refl asking-IsComplete refl refl refl
