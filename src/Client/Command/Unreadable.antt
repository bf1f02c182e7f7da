-- ===== src/Client/Command/Unreadable.antt =====
-- `client_command` on a property list that cannot be parsed.
use usbfluxd.Prelude.{ℕ, ◌-◌, ◌==◌, ◌≡◌, refl, true, false, ◌&&◌, not, none, some, List, take, drop}
use usbfluxd.Proto.{Header, header_size, message_plist}
use usbfluxd.Utils.Collection.{Ptr}
use usbfluxd.System.{LibPlist, Env}
use usbfluxd.World.{World, MuxClient}
use usbfluxd.World.Monad.{update, ◌>>=◌, ◌>>◌, read_client, write_client, primitives}
use usbfluxd.Remote.Output.{Version}
use usbfluxd.Client.Events.{is_command}
use usbfluxd.Client.Command.{plist_packet, client_command}

module _ {Plist : Type 0} ⦃lib : LibPlist Plist⦄ ⦃env : Env⦄ ⦃v : Version⦄ where
  unreadable_packet :
      (p : Ptr) (w : World Plist) (c : MuxClient Plist) (tag : ℕ) (payload : List ℕ)
      → w.clients p ≡ some c
      → lib.from_xml payload ≡ none
      → plist_packet p tag payload w
        ≡ some (
          none,
          record w { clients = update w.clients p (some (record c { proto_version = 1 })) },
        )
  unfolding plist_packet primitives
  unreadable_packet p w c tag payload live bad =
      rw (live, plist_packet, ◌>>=◌, ◌>>◌, read_client, write_client, live, bad) refl

  -- In CLIENT_COMMAND, in protocol version 0 or 1, a property list that cannot be parsed is an error;
  -- all that changes is that the client now speaks version 1.
  pub client_command-unreadable :
      (p : Ptr) (w : World Plist) (c : MuxClient Plist) (hdr : Header) (bytes : List ℕ)
      → w.clients p ≡ some c
      → is_command c.state ≡ true
      → (not (hdr.version == 0) && not (hdr.version == 1)) ≡ false
      → (hdr.message == message_plist) ≡ true
      → lib.from_xml (take (hdr.length - header_size) (drop header_size bytes)) ≡ none
      → client_command p hdr bytes w
        ≡ some (
          none,
          record w { clients = update w.clients p (some (record c { proto_version = 1 })) },
        )
  unfolding client_command primitives
  client_command-unreadable p w c hdr bytes live up ver msg bad =
      rw (live, client_command, ◌>>=◌, ◌>>◌, read_client, up, ver, msg)
        (unreadable_packet p w c hdr.tag _ live bad)
