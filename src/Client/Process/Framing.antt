-- ===== src/Client/Process/Framing.antt =====
-- What `process_recv` may do with a packet that is or is not in the input buffer.
use usbfluxd.Prelude.{
  ℕ, ◌-◌, ◌≤◌, ◌<◌, ◌≡◌, ltb, if◌then◌else◌, Option, none, some, List, [], length, ◌⊎◌,
}
use usbfluxd.Proto.{header_size}
use usbfluxd.Utils.Collection.{Ptr}
use usbfluxd.System.{LibPlist, Env, recv}
use usbfluxd.World.{World, MuxClient}
use usbfluxd.Client.Close.{client_close}
use usbfluxd.Client.Process.{run_command}
use usbfluxd.Remote.Output.{Version}
use usbfluxd.Client.Process.Received.{store, Extends, packet_length}

-- A packet is there from its first to its last byte, and its length is allowed.
pub record IsComplete {Plist : Type 0} (c : MuxClient Plist) : Type 0 where
  pub has_header : header_size ≤ packet_length c
  pub in_buffer : packet_length c ≤ c.ib.capacity
  pub all_there : packet_length c ≤ c.ib.size

-- A header or a packet has not come in whole.
abbrev pub IsIncomplete : {Plist : Type 0} → MuxClient Plist → Type 0
IsIncomplete c = (c.ib.size < header_size) ⊎ (c.ib.size < packet_length c)

-- A header is there, and its length is not allowed.
pub record IsBad {Plist : Type 0} (c : MuxClient Plist) : Type 0 where
  pub header_there : header_size ≤ c.ib.size
  pub not_allowed : (c.ib.capacity < packet_length c) ⊎ (packet_length c < header_size)

-- How many bytes are asked for: those that are missing of the header, or of the packet.
abbrev pub wanted : {Plist : Type 0} → MuxClient Plist → ℕ
wanted c =
    if ltb c.ib.size header_size then header_size - c.ib.size else packet_length c - c.ib.size

module _ {Plist : Type 0} ⦃env : Env⦄ where
  -- Bytes that `recv` delivered for an incomplete packet.
  pub record Incoming (bytes : List ℕ) (c : MuxClient Plist) : Type 0 where
    pub incomplete : IsIncomplete c
    pub delivered : recv env (wanted c) ≡ some bytes
    pub some_bytes : 0 < length bytes

module _ {Plist : Type 0} ⦃lib : LibPlist Plist⦄ ⦃env : Env⦄ ⦃v : Version⦄ where
  -- What `process_recv` may do with a client: it closes the client if nothing comes in, or if a length
  -- is not allowed; it waits after bytes that leave a packet incomplete; it runs the command of a
  -- complete packet. There are new bytes only if the packet was incomplete.
  pub data Framed (p : Ptr) (w : World Plist) (c : MuxClient Plist)
      (r : Option (Unit {0} × World Plist)) : Type 0 where
    ends :
        IsIncomplete c
        → (recv env (wanted c) ≡ none) ⊎ (recv env (wanted c) ≡ some [])
        → r ≡ client_close p w
        → Framed p w c r
    refuses :
        (bytes : List ℕ) (c' : MuxClient Plist)
        → (bytes ≡ []) ⊎ Incoming bytes c
        → Extends bytes c c'
        → IsBad c'
        → r ≡ client_close p (store w p c')
        → Framed p w c r
    waits :
        (bytes : List ℕ) (c' : MuxClient Plist)
        → Incoming bytes c
        → Extends bytes c c'
        → IsIncomplete c'
        → r ≡ some (tt, store w p c')
        → Framed p w c r
    runs :
        (bytes : List ℕ) (c' : MuxClient Plist)
        → (bytes ≡ []) ⊎ Incoming bytes c
        → Extends bytes c c'
        → IsComplete c'
        → r ≡ run_command p (store w p c')
        → Framed p w c r
