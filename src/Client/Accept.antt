-- ===== src/Client/Accept.antt =====
-- A new client: `client_accept`, and `client_init`.
pub mod New
use usbfluxd.Prelude.{ℕ, ◌+◌, ◌%◌, Option, none, some, false}
use usbfluxd.Proto.{u32_mod}
use usbfluxd.Buffer.{malloc}
use usbfluxd.Utils.Collection
use usbfluxd.Utils.Collection.{Ptr}
use usbfluxd.System.{Env, no_events, pollin_only}
use usbfluxd.World.{ClientState, World, MuxClient}
use usbfluxd.World.Monad.{
  M, pure, ◌>>=◌, ◌>>◌, get, modify, alloc_client, lock_clients, unlock_clients,
}

-- `CMD_BUF_SIZE` and `REPLY_BUF_SIZE`.
abbrev pub cmd_buf_size : ℕ
cmd_buf_size = 0x10000

abbrev pub reply_buf_size : ℕ
reply_buf_size = 0x10000

-- The client that `client_accept` fills in, with the number that it is given.
unfoldable pub new_client : {Plist : Type 0} → ℕ → ℕ → MuxClient Plist
new_client fd number = record {
  fd = fd;
  ob = malloc reply_buf_size;
  ib = malloc cmd_buf_size;
  events = pollin_only;
  devents = no_events;
  connect_tag = 0;
  connect_device = 0;
  state = ClientState.command;
  proto_version = 0;
  remote = none;
  number = number;
  info = none;
}

module _ {Plist : Type 0} ⦃env : Env⦄ where
  -- `none` is an error of `accept`.
  pub client_accept : M (World Plist) (Option ℕ)
  client_accept = elim env.accepted_fd [
    | none ↦ pure none
    | some cfd ↦ (do
      lock_clients
      w ← get
      p ← alloc_client (new_client cfd w.client_number)
      modify (λ v. record v {
        client_number = (v.client_number + 1) % u32_mod;
        client_list = Collection.add v.client_list p;
      })
      unlock_clients
      pure (some cfd))
  ]

module _ {Plist : Type 0} where
  pub client_init : M (World Plist) (Unit {0})
  client_init = modify (λ w. record w { client_list = Collection.init; client_list_mutex = false })
