-- ===== src/World.antt =====
-- The state of the daemon: `struct mux_client` and `struct remote_mux`, the memory that they are
-- allocated in, and the global variables of usbfluxd/client.c and usbfluxd/usbmux_remote.c.
pub mod Monad
use usbfluxd.Text.{CString}
use usbfluxd.Prelude.{ℕ, Bool, Option, List}
use usbfluxd.Buffer.{Buffer}
use usbfluxd.Utils.Collection.{Collection, Ptr}
use usbfluxd.Remote.IdMap.{IdMap}
use usbfluxd.System.{Events}

-- `enum client_state`.
pub data ClientState : Type 0 where
  command listen connecting1 connecting2 connected dead : ClientState

-- `enum remote_state`.
pub data RemoteState : Type 0 where
  command listen connecting1 connecting2 connected dead : RemoteState

-- `enum remote_command`, with the other two values that `last_command` takes: -1 and 0.
pub data RemoteCommand : Type 0 where
  minus_one zero_command cmd_listen cmd_read_pair_record cmd_save_pair_record cmd_delete_pair_record
        cmd_read_buid :
      RemoteCommand

-- `struct mux_client`.
pub record MuxClient (Plist : Type 0) : Type 0 where
  pub fd : ℕ
  pub ob : Buffer
  pub ib : Buffer
  pub events : Events
  pub devents : Events
  pub connect_tag : ℕ
  pub connect_device : ℕ
  pub state : ClientState
  pub proto_version : ℕ
  pub remote : Option Ptr
  pub number : ℕ
  pub info : Option Plist

-- `struct remote_mux`.
pub record RemoteMux : Type 0 where
  pub fd : ℕ
  pub ob : Buffer
  pub ib : Buffer
  pub events : Events
  pub devents : Events
  pub state : RemoteState
  pub last_command : RemoteCommand
  pub id : ℕ
  pub is_listener : Bool
  pub service_name : Option CString
  pub is_unix : Bool
  pub host : Option CString
  pub port : ℕ
  pub client : Option Ptr
  pub last_active : ℕ

pub record World (Plist : Type 0) : Type 0 where
  -- Memory: what an address holds, `none` once it is freed. `malloc` takes a new address.
  pub clients : Ptr → Option (MuxClient Plist)
  pub remotes : Ptr → Option RemoteMux
  pub next : Ptr
  -- client.c
  pub client_list : Collection
  pub client_number : ℕ
  pub client_list_mutex : Bool
  -- usbmux_remote.c
  pub remote_list : Collection
  pub remote_device_list : Plist
  pub remote_id_map : IdMap
  pub remote_list_mutex : Bool
  -- The descriptors that were closed, the last one first.
  pub closed : List ℕ
