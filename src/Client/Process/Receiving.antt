-- ===== src/Client/Process/Receiving.antt =====
-- `process_recv`: a command is only run on a complete packet of an allowed length.
use usbfluxd.Prelude.{
  ℕ, ◌∙◌, ap, sym, ◌-◌, ◌≤◌, ◌<◌, ◌≡◌, refl, true, false, ltb, if◌then◌else◌, Option, some, List,
  [], ◌∷◌, arith, inl, inr, Bool-cases, Option-cases,
}
use mathlib.Core.Path.{subst}
use usbfluxd.Proto.{Header, header_size}
use usbfluxd.Buffer.Contents.{IsValid}
use usbfluxd.Utils.Collection.{Ptr}
use usbfluxd.System.{LibPlist, Env, recv}
use usbfluxd.World.{World, MuxClient}
use usbfluxd.Client.Close.{client_close}
use usbfluxd.Client.Process.{run_command, recv_rest, process_packet, process_recv}
use usbfluxd.Remote.Output.{Version}
use usbfluxd.Client.Process.Received.{
  store, Extends, packet_length, live_after, store_same, no_bytes, rest_closes, rest_reads,
  received_lem, header_kept, recv-length, packet_closes, packet_goes_on, recv_fails, recv_reads,
  recv_skips,
}
use usbfluxd.Client.Process.Framing.{wanted, Incoming, Framed, ends, refuses, waits, runs}

module _ {Plist : Type 0} ⦃lib : LibPlist Plist⦄ ⦃env : Env⦄ ⦃v : Version⦄ where
  -- The two ends of a read: the packet is complete or not.
  finish :
      (p : Ptr) (w : World Plist) (bytes : List ℕ) (c c' : MuxClient Plist)
      → Incoming bytes c
      → Extends bytes c c'
      → header_size ≤ packet_length c'
      → packet_length c' ≤ c'.ib.capacity
      → {r : Option (Unit {0} × World Plist)}
      → r ≡ (
          if ltb c'.ib.size (packet_length c')
          then some (tt, store w p c')
          else run_command p (store w p c'))
      → Framed p w c r
  finish p w bytes c c' new x h room e = elim (Bool-cases (ltb c'.ib.size (packet_length c'))) [
    | inl short ↦ waits bytes c' new x (inr (ground arith)) (e ∙ rw short refl)
    | inr there ↦
        runs bytes c' (inr new) x
          (record { has_header = h; in_buffer = room; all_there = ground arith })
          (e ∙ rw there refl)
  ]

  wanted-rest :
      (c : MuxClient Plist) → header_size ≤ c.ib.size → wanted c ≡ packet_length c - c.ib.size
  wanted-rest c h = ground arith

  wanted-header :
      (c : MuxClient Plist) → c.ib.size < header_size → wanted c ≡ header_size - c.ib.size
  wanted-header c h = ground arith

  recv_rest_lem :
      (p : Ptr) (w : World Plist) (c : MuxClient Plist)
      → w.clients p ≡ some c
      → IsValid c.ib
      → header_size ≤ c.ib.size
      → c.ib.size < packet_length c
      → packet_length c ≤ c.ib.capacity
      → Framed p w c (recv_rest p (packet_length c - c.ib.size) w)
  recv_rest_lem p w c live v h short room =
      let n = packet_length c - c.ib.size in
      elim (Option-cases (recv env n)) [
        | inl failed ↦
            ends (inr short) (inl (ap (recv env) (wanted-rest c h) ∙ failed))
              (rest_closes p n w (inl failed))
        | inr ([], ended) ↦
            ends (inr short) (inr (ap (recv env) (wanted-rest c h) ∙ ended))
              (rest_closes p n w (inr ended))
        | inr (b ∷ bytes, more) ↦
            let (c', got, x, size) =
              received_lem (b ∷ bytes) c v (omega (arith, recv-length env n more)) in
            let kept : packet_length c' ≡ packet_length c =
              ap (λ (k : Header). k.length) (header_kept v h x (omega arith)) in
            finish p w (b ∷ bytes) c c'
              (record {
                incomplete = inr short;
                delivered = ap (recv env) (wanted-rest c h) ∙ more;
                some_bytes = omega arith;
              })
              x (omega arith) (omega (arith, x.capacity))
              (rest_reads p n w c c' b bytes live more got)
      ]

  -- The same after the bytes that completed a header.
  read_packet :
      (p : Ptr) (w : World Plist) (bytes : List ℕ) (c c' : MuxClient Plist)
      → Incoming bytes c
      → Extends bytes c c'
      → header_size ≤ c'.ib.size
      → Framed p w c (process_packet p true (store w p c'))
  read_packet p w bytes c c' new x there =
      elim (Bool-cases (ltb c'.ib.capacity (packet_length c'))) [
        | inl long ↦
            let bad : c'.ib.capacity < packet_length c' = ground arith in
            refuses bytes c' (inr new) x (record { header_there = there; not_allowed = inl bad })
              (packet_closes p true (store w p c') c' (live_after p w c') (inl bad))
        | inr room ↦ elim (Bool-cases (ltb (packet_length c') header_size)) [
          | inl short ↦
              let bad : packet_length c' < header_size = ground arith in
              refuses bytes c' (inr new) x (record { header_there = there; not_allowed = inr bad })
                (packet_closes p true (store w p c') c' (live_after p w c') (inr bad))
          | inr h ↦ finish p w bytes c c' new x (ground arith) (ground arith) (
              packet_goes_on p true (store w p c') c' (live_after p w c') (ground arith)
                (ground arith))
        ]
      ]

  old_packet :
      (p : Ptr) (w : World Plist) (c : MuxClient Plist)
      → w.clients p ≡ some c
      → IsValid c.ib
      → header_size ≤ c.ib.size
      → Framed p w c (process_packet p false w)
  old_packet p w c live v there = elim (Bool-cases (ltb c.ib.capacity (packet_length c))) [
    | inl long ↦
        let bad : c.ib.capacity < packet_length c = ground arith in
        refuses [] c (inl refl) (no_bytes v)
          (record { header_there = there; not_allowed = inl bad })
          (packet_closes p false w c live (inl bad)
            ∙ ap (client_close p) (sym (store_same p w c live)))
    | inr room ↦ elim (Bool-cases (ltb (packet_length c) header_size)) [
      | inl short ↦
          let bad : packet_length c < header_size = ground arith in
          refuses [] c (inl refl) (no_bytes v)
            (record { header_there = there; not_allowed = inr bad })
            (packet_closes p false w c live (inr bad)
              ∙ ap (client_close p) (sym (store_same p w c live)))
      | inr h ↦
          let go = packet_goes_on p false w c live (ground arith) (ground arith) in
          elim (Bool-cases (ltb c.ib.size (packet_length c))) [
            | inl more ↦
                subst (λ r. Framed p w c r) (sym (go ∙ rw more refl))
                  (recv_rest_lem p w c live v there (ground arith) (ground arith))
            | inr all ↦
                runs [] c (inl refl) (no_bytes v)
                  (record {
                    has_header = ground arith;
                    in_buffer = ground arith;
                    all_there = ground arith;
                  })
                  (go ∙ rw all (ap (run_command p) (sym (store_same p w c live))))
          ]
    ]
  ]

  -- `process_recv` on a client whose input buffer can hold a header. If a header or a packet is
  -- incomplete, it asks `recv` for the bytes that are missing, and closes the client if none come.
  -- What comes is kept behind what was there. It closes the client if the length of the packet is below
  -- a header or above the buffer, waits, having received some bytes, if the packet is still incomplete,
  -- and runs `client_command` only on a complete packet. Nothing is written outside the buffer, and the
  -- rest of the client is as it was.
  pub process_recv-Framed :
      (p : Ptr) (w : World Plist) (c : MuxClient Plist)
      → w.clients p ≡ some c
      → IsValid c.ib
      → header_size ≤ c.ib.capacity
      → Framed p w c (process_recv p w)
  process_recv-Framed p w c live v room = elim (Bool-cases (ltb c.ib.size header_size)) [
    | inr there ↦
        subst (λ r. Framed p w c r) (sym (recv_skips p w c live (ground arith)))
          (old_packet p w c live v (ground arith))
    | inl short ↦
        let lt : c.ib.size < header_size = ground arith in
        let n = header_size - c.ib.size in
        elim (Option-cases (recv env n)) [
          | inl failed ↦
              ends (inl lt) (inl (ap (recv env) (wanted-header c lt) ∙ failed))
                (recv_fails p w c live lt (inl failed))
          | inr ([], ended) ↦
              ends (inl lt) (inr (ap (recv env) (wanted-header c lt) ∙ ended))
                (recv_fails p w c live lt (inr ended))
          | inr (b ∷ bytes, more) ↦
              let (c', got, x, size) =
                received_lem (b ∷ bytes) c v (omega (arith, recv-length env n more)) in
              let new : Incoming (b ∷ bytes) c = record {
                incomplete = inl lt;
                delivered = ap (recv env) (wanted-header c lt) ∙ more;
                some_bytes = omega arith;
              } in
              let go = recv_reads p w c c' b bytes live lt more got in
              elim (Bool-cases (ltb c'.ib.size header_size)) [
                | inl waiting ↦
                    waits (b ∷ bytes) c' new x (inl (ground arith)) (go ∙ rw waiting refl)
                | inr whole ↦
                    subst (λ r. Framed p w c r) (sym (go ∙ rw whole refl))
                      (read_packet p w (b ∷ bytes) c c' new x (ground arith))
              ]
        ]
  ]
