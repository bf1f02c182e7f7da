-- ===== src/Client/Output/Queueing.antt =====
-- Queueing a packet for a client: what is appended to the output buffer, and what stays as it was.
use usbfluxd.Prelude.{
  ℕ, ltb, ◌+◌, ◌%◌, ◌<◌, ◌≡◌, refl, ap, ◌∙◌, ◌⊎◌, inl, inr, true, false, Option, none, some, List,
  ◌++◌, length, arith, length-append, Option-cases,
}
use usbfluxd.Proto.{Header, int_mod, u32_mod, header_size, bytes_of_header}
use usbfluxd.Proto.RoundTrip.{length-bytes_of_header, as_int-some}
use usbfluxd.Buffer.{Buffer, make_room, queued, new_size}
use usbfluxd.Buffer.Contents.{IsValid, Roomy, make_room-Roomy, make_room_fails, put_lem}
use usbfluxd.System.{LibPlist, Env, set_pollout}
use usbfluxd.World.{MuxClient}
use usbfluxd.Client.Output.{
  ensure_room, append, append_packet, queue, send_pkt_raw, packet_header, send_pkt,
}
use usbfluxd.World.Monad.{M, ◌>>=◌, ◌>>◌}

-- A packet of a client was queued: its bytes follow those that were queued, in a buffer that is
-- still within its memory, POLLOUT is asked for, and nothing else of the client has changed.
pub record Queued {Plist : Type 0} (bytes : List ℕ) (c c' : MuxClient Plist) : Type 0 where
  pub valid : IsValid c'.ob
  pub appended : queued c'.ob ≡ queued c.ob ++ bytes
  pub asked : c'.events ≡ record c.events { pollout = true }
  pub same : c' ≡ record c { ob = c'.ob; events = c'.events }

-- The outcome of a send: the packet is queued and its length returned, or, only where `realloc`
-- fails, the result is -1 and the client is as it was.
abbrev pub Sends :
    {Plist : Type 0}
    → Env
    → ℕ
    → List ℕ
    → MuxClient Plist
    → Option (Option ℕ × MuxClient Plist)
    → Type 0
Sends {Plist} env n bytes c r =
    ((r ≡ some (none, c)) × (env.can_alloc (new_size c.ob.capacity n) ≡ false))
    ⊎ ((c' : MuxClient Plist) × (r ≡ some (some n, c')) × Queued bytes c c')

module _ {Plist : Type 0} ⦃lib : LibPlist Plist⦄ ⦃env : Env⦄ where
  ensure_room-none :
      (n : ℕ) (c : MuxClient Plist)
      → make_room env.can_alloc c.ob n ≡ none
      → ensure_room n c ≡ some (false, c)
  unfolding ensure_room
  ensure_room-none n c e = rw (e, ensure_room)

  ensure_room-some :
      (n : ℕ) (c : MuxClient Plist) {b : Buffer}
      → make_room env.can_alloc c.ob n ≡ some b
      → ensure_room n c ≡ some (true, record c { ob = b })
  unfolding ensure_room
  ensure_room-some n c e = rw (e, ensure_room)

  append_lem :
      (c : MuxClient Plist) {b : Buffer} (n : ℕ) (bytes : List ℕ)
      → Roomy c.ob n b
      → length bytes ≡ n
      → (b' : Buffer) × (append bytes (record c { ob = b }) ≡ some (tt, record c { ob = b' }))
        × IsValid b'
        × (queued b' ≡ queued c.ob ++ bytes)
  unfolding append
  append_lem c {b} n bytes r e =
      let (b', eq, valid, q, _, _) = put_lem bytes r.valid (omega (arith, r.room, r.same_size)) in
      (b', rw (eq, append), valid, q ∙ ap (λ xs. xs ++ bytes) r.same_bytes)

  queue-Sends :
      (n : ℕ) (bytes : List ℕ) (copy : M (MuxClient Plist) (Unit {0})) (c : MuxClient Plist)
      → copy ≡ append bytes
      → IsValid c.ob
      → c.ob.capacity + n + 4096 < u32_mod
      → n < int_mod
      → length bytes ≡ n
      → Sends env n bytes c (queue n copy c)
  unfolding queue
  queue-Sends n bytes copy c copies v small fits len =
      elim (Option-cases (make_room env.can_alloc c.ob n)) [
        | inl e ↦
            inl (ground (arith, ensure_room-none n c e), make_room_fails env.can_alloc c.ob n e)
        | inr (b, e) ↦
            let (b', eq, valid, q) =
              append_lem c n bytes (make_room-Roomy env.can_alloc n v small e) len in
            inr (
              record c { ob = b'; events = set_pollout c.events },
              rw (queue, ◌>>=◌, ◌>>◌, ensure_room-some n c e, copies, eq, as_int-some n fits) refl,
              record { valid = valid; appended = q; asked = refl; same = refl },
            )
      ]

  -- `send_pkt_raw` on a client whose output buffer is valid, for sizes that stay below 2 ^ 31: either
  -- exactly the given bytes are queued behind the others, or `realloc` fails and nothing changes.
  pub send_pkt_raw-Sends :
      (bytes : List ℕ) (c : MuxClient Plist)
      → IsValid c.ob
      → c.ob.capacity + length bytes + 4096 < u32_mod
      → length bytes < int_mod
      → Sends env (length bytes) bytes c (send_pkt_raw bytes c)
  unfolding send_pkt_raw
  send_pkt_raw-Sends bytes c v small fits =
      queue-Sends (length bytes) bytes _ c refl v small fits refl

  copies_packet :
      (hdr : Header) (payload : List ℕ)
      → length payload < int_mod
      → append_packet {Plist = Plist} hdr payload ≡ append (bytes_of_header hdr ++ payload)
  unfolding append_packet
  copies_packet hdr payload fits =
      let short : ltb (length payload) int_mod ≡ true = ground (arith, fits) in
      rw (append_packet, short) refl

  -- `send_pkt` on a client whose output buffer is valid, for a packet below 2 ^ 31 bytes and a buffer
  -- that stays below 2 ^ 32: either the packet is queued behind the others, first the header, with the
  -- length of the whole, the version of the client and the given message type and tag, then the payload,
  -- and its length is returned; or `realloc` fails and nothing changes.
  pub send_pkt-Sends :
      (tag msg : ℕ) (payload : List ℕ) (c : MuxClient Plist)
      → IsValid c.ob
      → c.ob.capacity + (header_size + length payload) + 4096 < u32_mod
      → header_size + length payload < int_mod
      → Sends env
          (header_size + length payload)
          (bytes_of_header (record {
            length = header_size + length payload;
            version = c.proto_version;
            message = msg;
            tag = tag;
          })
            ++ payload)
          c
          (send_pkt tag msg payload c)
  unfolding send_pkt packet_header
  send_pkt-Sends tag msg payload c v small short =
      let fits : (header_size + length payload) % u32_mod ≡ header_size + length payload =
        omega arith in
      rw fits (
        queue-Sends (header_size + length payload) _ _ c (copies_packet _ payload (omega arith)) v
          small short
          (length-append (bytes_of_header _) payload
            ∙ ap (λ k. k + length payload) (length-bytes_of_header _)))
