-- ===== src/Client/Process/Stuck.antt =====
-- A packet that `client_command` refuses with -1 stays in the input buffer.
use usbfluxd.Prelude.{
  ℕ, ◌-◌, ◌==◌, ◌≤◌, ◌≡◌, refl, ◌∙◌, true, false, ◌&&◌, not, none, some, take, drop, ltb, arith,
}
use usbfluxd.Proto.{header_size, header_at, message_plist}
use usbfluxd.Buffer.{memory}
use usbfluxd.Utils.Collection.{Ptr}
use usbfluxd.System.{LibPlist, Env}
use usbfluxd.World.{World, MuxClient}
use usbfluxd.World.Monad.{◌>>=◌, ◌>>◌, read_client, primitives}
use usbfluxd.Remote.Output.{Version}
use usbfluxd.Client.Events.{is_command}
use usbfluxd.Client.Command.{client_command}
use usbfluxd.Client.Command.Unreadable.{client_command-unreadable}
use usbfluxd.Client.Process.{run_command, process_recv}
use usbfluxd.Client.Process.Received.{store, packet_length, packet_goes_on, recv_skips}
use usbfluxd.Client.Process.Framing.{IsComplete}

ltb-false : {a b : ℕ} → b ≤ a → ltb a b ≡ false
ltb-false h = ground arith

module _ {Plist : Type 0} ⦃lib : LibPlist Plist⦄ ⦃env : Env⦄ ⦃v : Version⦄ where
  run_fails :
      (p : Ptr) (w : World Plist) (c : MuxClient Plist) (w' : World Plist)
      → w.clients p ≡ some c
      → client_command p (header_at (memory c.ib)) (memory c.ib) w ≡ some (none, w')
      → run_command p w ≡ some (tt, w')
  unfolding run_command primitives
  run_fails p w c w' live e = rw (live, run_command, ◌>>=◌, ◌>>◌, read_client, e) refl

  run_complete :
      (p : Ptr) (w : World Plist) (c : MuxClient Plist)
      → w.clients p ≡ some c
      → IsComplete c
      → process_recv p w ≡ run_command p w
  run_complete p w c live there =
      recv_skips p w c live (omega (arith, there.has_header, there.all_there))
      ∙ packet_goes_on p false w c live there.in_buffer there.has_header
      ∙ rw (ltb-false there.all_there) refl

  -- A client in CLIENT_COMMAND whose input buffer holds a whole packet with a property list that cannot
  -- be parsed: `process_recv` receives nothing, answers nothing, keeps the packet and keeps the client,
  -- whatever the environment, so that the next event does the same again.
  pub process_recv-stuck :
      (p : Ptr) (w : World Plist) (c : MuxClient Plist)
      → w.clients p ≡ some c
      → is_command c.state ≡ true
      → IsComplete c
      → (not ((header_at (memory c.ib)).version == 0)
          && not ((header_at (memory c.ib)).version == 1))
        ≡ false
      → ((header_at (memory c.ib)).message == message_plist) ≡ true
      → lib.from_xml (take (packet_length c - header_size) (drop header_size (memory c.ib))) ≡ none
      → process_recv p w ≡ some (tt, store w p (record c { proto_version = 1 }))
  process_recv-stuck p w c live up there ver msg bad =
      run_complete p w c live there
      ∙ run_fails p w c _ live (
          client_command-unreadable p w c (header_at (memory c.ib)) (memory c.ib) live up ver msg
            bad)
