-- ===== src/Client/Process/Received.antt =====
-- The bytes that `process_recv` receives go behind those in the input buffer.
use usbfluxd.Prelude.{
  Bool, true, false, ◌<◌, ℕ, ◌∙◌, ap, sym, ◌+◌, ◌-◌, ◌≤◌, ◌≡◌, refl, ltb, if◌then◌else◌, none, some,
  List, [], ◌∷◌, ◌++◌, length, take, arith, ◌⊎◌, inl, inr, Option-cases, length-take, drop,
  take-append-drop,
}
use mathlib.Core.List.{append-nil}
use usbfluxd.Proto.{header_size, header_at}
use usbfluxd.Buffer.{Buffer, queued, memory, available}
use usbfluxd.Buffer.Contents.{IsValid, put_lem}
use usbfluxd.Proto.RoundTrip.{header_at-append}
use usbfluxd.Utils.Collection.{Ptr}
use usbfluxd.System.{LibPlist, Env, recv}
use usbfluxd.World.{World, MuxClient}
use usbfluxd.World.Monad.{update, update_self, on_client, read_client}
use usbfluxd.Client.Close.{client_close}
use usbfluxd.Client.Process.{received, run_command, recv_rest, process_packet, process_recv}
use usbfluxd.Remote.Output.{Version}

-- The world with another value of a client.
abbrev pub store : {Plist : Type 0} → World Plist → Ptr → MuxClient Plist → World Plist
store w p c = record w { clients = update w.clients p (some c) }

-- A client with these bytes appended to its input.
pub record Extends {Plist : Type 0} (bytes : List ℕ) (c c' : MuxClient Plist) : Type 0 where
  pub valid : IsValid c'.ib
  pub appended : queued c'.ib ≡ queued c.ib ++ bytes
  pub capacity : c'.ib.capacity ≡ c.ib.capacity
  pub same : c' ≡ record c { ib = c'.ib }

-- The length that the packet in the input buffer says it has.
abbrev pub packet_length : {Plist : Type 0} → MuxClient Plist → ℕ
packet_length c = (header_at (memory c.ib)).length

pub header_at-queued :
    {b : Buffer} → IsValid b → header_size ≤ b.size → header_at (memory b) ≡ header_at (queued b)
header_at-queued {b} v h = rw v.stored (
    sym (ap header_at (take-append-drop b.size v.block))
    ∙ header_at-append (take b.size v.block) (drop b.size v.block)
        (omega (arith, length-take b.size v.block, v.sized, v.fits)))

pub length-queued : {b : Buffer} → IsValid b → length (queued b) ≡ b.size
length-queued {b} v = rw v.stored (omega (arith, length-take b.size v.block, v.sized, v.fits))

pub available_lem : {b : Buffer} → IsValid b → available b ≡ b.capacity - b.size
available_lem v = ground (arith, v.fits, v.small)

pub recv-length :
    (env : Env) (len : ℕ) {bytes : List ℕ} → recv env len ≡ some bytes → length bytes ≤ len
unfolding recv
recv-length env len e = elim (Option-cases env.incoming) [
  | inl none_in ↦ ground (arith, none_in)
  | inr (all, some_in) ↦ ground (arith, some_in, length-take len all)
]

module _ {Plist : Type 0} ⦃lib : LibPlist Plist⦄ ⦃env : Env⦄ ⦃v : Version⦄ where
  pub received_lem :
      (bytes : List ℕ) (c : MuxClient Plist)
      → IsValid c.ib
      → c.ib.size + length bytes ≤ c.ib.capacity
      → (c' : MuxClient Plist) × (received bytes c ≡ some (tt, c'))
        × Extends bytes c c'
        × (c'.ib.size ≡ c.ib.size + length bytes)
  received_lem bytes c valid h =
      let (b, e, valid', q, size, cap) = put_lem bytes valid h in
      (
        record c { ib = b },
        rw (e, received),
        record { valid = valid'; appended = q; capacity = cap; same = refl },
        size,
      )

  -- More bytes of a packet do not change its header.
  pub header_kept :
      {bytes : List ℕ} {c c' : MuxClient Plist}
      → IsValid c.ib
      → header_size ≤ c.ib.size
      → Extends bytes c c'
      → c.ib.size ≤ c'.ib.size
      → header_at (memory c'.ib) ≡ header_at (memory c.ib)
  header_kept {bytes} {c} v h x le =
      header_at-queued x.valid (omega arith)
      ∙ ap header_at x.appended
      ∙ header_at-append (queued c.ib) bytes (rw (length-queued v) h)
      ∙ sym (header_at-queued v h)

  -- The state of the client behind the pointer is set by `received`.
  pub on_client-received :
      (p : Ptr) (w : World Plist) (c c' : MuxClient Plist) (bytes : List ℕ)
      → w.clients p ≡ some c
      → received bytes c ≡ some (tt, c')
      → on_client p (received bytes) w ≡ some (tt, store w p c')
  unfolding on_client
  on_client-received p w c c' bytes live e = ground (arith, e)

  pub live_after :
      (p : Ptr) (w : World Plist) (c : MuxClient Plist) → (store w p c).clients p ≡ some c
  live_after p w c = ground arith

  pub store_same :
      (p : Ptr) (w : World Plist) (c : MuxClient Plist) → w.clients p ≡ some c → store w p c ≡ w
  store_same p w c live =
      rw (sym live) (ap (λ f. record w { clients = f }) (update_self w.clients p))

  pub no_bytes : {c : MuxClient Plist} → IsValid c.ib → Extends [] c c
  no_bytes {c} v = record {
    valid = v;
    appended = sym (append-nil (queued c.ib));
    capacity = refl;
    same = refl;
  }

  pub rest_closes :
      (p : Ptr) (n : ℕ) (w : World Plist)
      → (recv env n ≡ none) ⊎ (recv env n ≡ some [])
      → recv_rest p n w ≡ client_close p w
  unfolding recv_rest
  rest_closes p n w (inl e) = rw (e, recv_rest)
  rest_closes p n w (inr e) = rw (e, recv_rest)

  pub rest_reads :
      (p : Ptr) (n : ℕ) (w : World Plist) (c c' : MuxClient Plist) (b : ℕ) (bytes : List ℕ)
      → w.clients p ≡ some c
      → recv env n ≡ some (b ∷ bytes)
      → received (b ∷ bytes) c ≡ some (tt, c')
      → recv_rest p n w ≡ (
          if ltb c'.ib.size (packet_length c')
          then some (tt, store w p c')
          else run_command p (store w p c'))
  unfolding recv_rest read_client
  rest_reads p n w c c' b bytes live e got =
      ground (arith, on_client-received p w c c' (b ∷ bytes) live got)

  pub packet_closes :
      (p : Ptr) (did_read : Bool) (w : World Plist) (c : MuxClient Plist)
      → w.clients p ≡ some c
      → (c.ib.capacity < packet_length c) ⊎ (packet_length c < header_size)
      → process_packet p did_read w ≡ client_close p w
  unfolding process_packet read_client
  packet_closes p did_read w c live (inl bad) = ground arith
  packet_closes p did_read w c live (inr bad) = ground arith

  pub packet_goes_on :
      (p : Ptr) (did_read : Bool) (w : World Plist) (c : MuxClient Plist)
      → w.clients p ≡ some c
      → packet_length c ≤ c.ib.capacity
      → header_size ≤ packet_length c
      → process_packet p did_read w ≡ (
          if ltb c.ib.size (packet_length c)
          then (if did_read then some (tt, w) else recv_rest p (packet_length c - c.ib.size) w)
          else run_command p w)
  unfolding process_packet read_client
  packet_goes_on p did_read w c live room h = ground arith

  pub recv_fails :
      (p : Ptr) (w : World Plist) (c : MuxClient Plist)
      → w.clients p ≡ some c
      → c.ib.size < header_size
      → (recv env (header_size - c.ib.size) ≡ none) ⊎ (recv env (header_size - c.ib.size) ≡ some [])
      → process_recv p w ≡ client_close p w
  unfolding process_recv read_client
  recv_fails p w c live short (inl e) = ground (arith, e)
  recv_fails p w c live short (inr e) = ground (arith, e)

  pub recv_reads :
      (p : Ptr) (w : World Plist) (c c' : MuxClient Plist) (b : ℕ) (bytes : List ℕ)
      → w.clients p ≡ some c
      → c.ib.size < header_size
      → recv env (header_size - c.ib.size) ≡ some (b ∷ bytes)
      → received (b ∷ bytes) c ≡ some (tt, c')
      → process_recv p w ≡ (
          if ltb c'.ib.size header_size
          then some (tt, store w p c')
          else process_packet p true (store w p c'))
  unfolding process_recv read_client
  recv_reads p w c c' b bytes live short e got =
      ground (arith, on_client-received p w c c' (b ∷ bytes) live got)

  pub recv_skips :
      (p : Ptr) (w : World Plist) (c : MuxClient Plist)
      → w.clients p ≡ some c
      → header_size ≤ c.ib.size
      → process_recv p w ≡ process_packet p false w
  unfolding process_recv read_client
  recv_skips p w c live there = ground arith
