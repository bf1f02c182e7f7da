-- ===== src/Remote/Output/Queueing.antt =====
-- Queueing a packet for a remote.
use usbfluxd.Prelude.{
  ℕ, ltb, true, ◌+◌, ◌<◌, ◌≡◌, refl, ap, ◌∙◌, ◌⊎◌, inl, inr, false, Option, none, some, List, ◌++◌,
  length, arith, length-append, Option-cases,
}
use usbfluxd.Proto.{int_mod, as_int, u32_mod, header_size, bytes_of_header}
use usbfluxd.Proto.RoundTrip.{length-bytes_of_header}
use usbfluxd.Buffer
use usbfluxd.Buffer.{Buffer, make_room, queued, new_size}
use usbfluxd.Buffer.Contents.{IsValid, make_room-Roomy, make_room_fails, put_lem}
use usbfluxd.System.{Env, set_pollout}
use usbfluxd.World.{RemoteMux}
use usbfluxd.World.Monad.{◌>>=◌, ◌>>◌}
use usbfluxd.Remote.Output.{ensure_room, append, append_packet, packet_header, remote_send_pkt}

-- The bytes of a packet for a remote.
abbrev pub packet : ℕ → ℕ → List ℕ → List ℕ
packet tag msg payload =
    bytes_of_header
      (record { length = header_size + length payload; version = 1; message = msg; tag = tag })
    ++ payload

-- A packet of a remote was queued: its bytes follow those that were queued, in a buffer that is still
-- within its memory, POLLOUT is asked for, and nothing else of the remote has changed.
pub record Queued (bytes : List ℕ) (r r' : RemoteMux) : Type 0 where
  pub valid : IsValid r'.ob
  pub appended : queued r'.ob ≡ queued r.ob ++ bytes
  pub same : r' ≡ record r { ob = r'.ob; events = set_pollout r.events }

-- The packet is queued and its length returned as an `int`, or, only where `realloc` fails, the result is
-- -1 and the remote is as it was.
abbrev pub Sends : Env → ℕ → List ℕ → RemoteMux → Option (Option ℕ × RemoteMux) → Type 0
Sends env n bytes r res =
    ((res ≡ some (none, r)) × (env.can_alloc (new_size r.ob.capacity n) ≡ false))
    ⊎ ((r' : RemoteMux) × (res ≡ some (as_int n, r')) × Queued bytes r r')

module _ ⦃env : Env⦄ where
  length-packet_header :
      (tag msg : ℕ) (payload : List ℕ)
      → header_size + length payload < u32_mod
      → packet_header tag msg payload
        ≡ record { length = header_size + length payload; version = 1; message = msg; tag = tag }
  unfolding packet_header
  length-packet_header tag msg payload h =
      ap (λ (n : ℕ). record { length = n; version = 1; message = msg; tag = tag }) (omega arith)

  send_full :
      (tag msg : ℕ) (payload : List ℕ) (r : RemoteMux)
      → header_size + length payload < u32_mod
      → make_room env.can_alloc r.ob (header_size + length payload) ≡ none
      → remote_send_pkt tag msg payload r ≡ some (none, r)
  unfolding remote_send_pkt ensure_room
  send_full tag msg payload r h e =
      rw (remote_send_pkt, length-packet_header tag msg payload h, ◌>>=◌, ◌>>◌, ensure_room, e) refl

  send_fits :
      (tag msg : ℕ) (payload : List ℕ) (r : RemoteMux) (b b' : Buffer)
      → header_size + length payload < u32_mod
      → length payload < int_mod
      → make_room env.can_alloc r.ob (header_size + length payload) ≡ some b
      → Buffer.put b (packet tag msg payload) ≡ some b'
      → remote_send_pkt tag msg payload r
        ≡ some (
          as_int (header_size + length payload),
          record r { ob = b'; events = set_pollout r.events },
        )
  unfolding remote_send_pkt ensure_room append append_packet
  send_fits tag msg payload r b b' h fits e e' =
      let short : ltb (length payload) int_mod ≡ true = ground (arith, fits) in
      rw
        (
          remote_send_pkt,
          length-packet_header tag msg payload h,
          ◌>>=◌,
          ◌>>◌,
          ensure_room,
          e,
          append_packet,
          short,
          append,
          length-packet_header tag msg payload h,
          e',
          length-packet_header tag msg payload h,
        )
        refl

  -- `remote_send_pkt` on a remote whose output buffer is valid, for a payload below 2 ^ 31 bytes and a
  -- buffer that stays below 2 ^ 32: either the packet is queued behind the others, a header of version 1
  -- with the length of the whole, the given message type and tag, then the payload; or `realloc` fails and nothing changes.
  pub remote_send_pkt-Sends :
      (tag msg : ℕ) (payload : List ℕ) (r : RemoteMux)
      → IsValid r.ob
      → r.ob.capacity + (header_size + length payload) + 4096 < u32_mod
      → length payload < int_mod
      → Sends env
          (header_size + length payload)
          (packet tag msg payload)
          r
          (remote_send_pkt tag msg payload r)
  remote_send_pkt-Sends tag msg payload r v small fits =
      let n = header_size + length payload in
      elim (Option-cases (make_room env.can_alloc r.ob n)) [
        | inl e ↦
            inl
              (send_full tag msg payload r (omega arith) e, make_room_fails env.can_alloc r.ob n e)
        | inr (b, e) ↦
            let room = make_room-Roomy env.can_alloc n v small e in
            let size : length (packet tag msg payload) ≡ n =
              length-append (bytes_of_header _) payload
              ∙ ap (λ k. k + length payload) (length-bytes_of_header _) in
            let (b', put_ok, valid, q, _, _) =
              put_lem (packet tag msg payload) room.valid
                (omega (arith, size, room.room, room.same_size)) in
            inr (
              record r { ob = b'; events = set_pollout r.events },
              send_fits tag msg payload r b b' (omega arith) fits e put_ok,
              record {
                valid = valid;
                appended = q ∙ ap (λ xs. xs ++ packet tag msg payload) room.same_bytes;
                same = refl;
              },
            )
      ]
