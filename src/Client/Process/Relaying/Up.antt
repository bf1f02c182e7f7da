-- ===== src/Client/Process/Relaying/Up.antt =====
-- `client_process` on a connected client: its bytes go to its remote in order.
use usbfluxd.Prelude.{
  ℕ, ◌∙◌, ◌-◌, leb, ◌≤◌, ◌<◌, ◌≡◌, refl, Option, none, some, true, false, List, [], ◌∷◌, ◌++◌,
  length, arith, ◌⊎◌, inl, inr, Bool-cases, Option-cases,
}
use usbfluxd.Buffer
use usbfluxd.Buffer.{Buffer, queued, available}
use usbfluxd.Buffer.Contents.{IsValid, put_lem}
use usbfluxd.Utils.Collection.{Ptr}
use usbfluxd.System.{LibPlist, Env, Events, recv, clear_pollin, set_pollout}
use usbfluxd.World.{World, MuxClient, RemoteMux}
use usbfluxd.World.Monad.{
  ◌>>=◌, ◌>>◌, read_client, read_remote, write_client, write_remote, primitives,
}
use usbfluxd.Client.Close.{client_close}
use usbfluxd.Client.Process.{client_read, client_to_remote, process_client}
use usbfluxd.Client.Process.Received.{recv-length, available_lem}
use usbfluxd.Remote.Output.{Version}
use usbfluxd.Client.Process.Relaying.{Linked, store_both, goes_up}

module _ {Plist : Type 0} ⦃env : Env⦄ where
  -- What an event POLLIN of a connected client may do.
  pub data UpOutcome (p q : Ptr) (w : World Plist) (c : MuxClient Plist) (r : RemoteMux)
      (res : Option (Unit {0} × World Plist)) : Type 0 where
    full : r.ob.size ≡ r.ob.capacity → res ≡ some (tt, w) → UpOutcome p q w c r res
    ended :
        (recv env (r.ob.capacity - r.ob.size) ≡ none)
          ⊎ (recv env (r.ob.capacity - r.ob.size) ≡ some [])
        → res ≡ client_close p w
        → UpOutcome p q w c r res
    taken :
        (bytes : List ℕ) (ob : Buffer)
        → recv env (r.ob.capacity - r.ob.size) ≡ some bytes
        → 0 < length bytes
        → IsValid ob
        → queued ob ≡ queued r.ob ++ bytes
        → res
          ≡ some (
            tt,
            store_both w p
                (record c { events = clear_pollin c.events })
                q
                (record r { ob = ob; events = set_pollout r.events }),
          )
        → UpOutcome p q w c r res

  up_full :
      (p q : Ptr) (w : World Plist) (c : MuxClient Plist) (r : RemoteMux)
      → Linked p q w c r
      → leb r.ob.capacity r.ob.size ≡ true
      → client_to_remote p q w ≡ some (tt, w)
  unfolding client_to_remote primitives
  up_full p q w c r l no_room =
      rw (client_to_remote, ◌>>=◌, read_client, l.live, read_remote, l.there, no_room) refl

  up_ended :
      (p q : Ptr) (w : World Plist) (c : MuxClient Plist) (r : RemoteMux)
      → Linked p q w c r
      → leb r.ob.capacity r.ob.size ≡ false
      → (recv env (available r.ob) ≡ none) ⊎ (recv env (available r.ob) ≡ some [])
      → client_to_remote p q w ≡ client_close p w
  unfolding client_to_remote client_read primitives
  up_ended p q w c r l some_room (inl e) =
      rw
        (
          client_to_remote, ◌>>=◌, read_client, l.live, read_remote, l.there, some_room,
          client_read, l.connected, e,
        )
        refl
  up_ended p q w c r l some_room (inr e) =
      rw
        (
          client_to_remote, ◌>>=◌, read_client, l.live, read_remote, l.there, some_room,
          client_read, l.connected, e,
        )
        refl

  up_taken :
      (p q : Ptr) (w : World Plist) (c : MuxClient Plist) (r : RemoteMux) (b : ℕ) (bytes : List ℕ)
      (ob : Buffer)
      → Linked p q w c r
      → leb r.ob.capacity r.ob.size ≡ false
      → recv env (available r.ob) ≡ some (b ∷ bytes)
      → Buffer.put r.ob (b ∷ bytes) ≡ some ob
      → client_to_remote p q w
        ≡ some (
          tt,
          store_both w p
              (record c { events = clear_pollin c.events })
              q
              (record r { ob = ob; events = set_pollout r.events }),
        )
  unfolding client_to_remote client_read primitives
  up_taken p q w c r b bytes ob l some_room e stored =
      rw
        (
          client_to_remote, ◌>>=◌, ◌>>◌, read_client, l.live, read_remote, l.there, some_room,
          client_read, l.connected, e, stored, write_remote, l.there, write_client, l.live,
        )
        refl

module _ {Plist : Type 0} ⦃lib : LibPlist Plist⦄ ⦃env : Env⦄ ⦃v : Version⦄ where
  -- The event POLLIN of a connected client whose remote is live: if the remote's output buffer is full,
  -- the bytes are left for later; if `recv` fails or the client has closed, the client is closed; else
  -- what is received goes behind the output of the remote, which polls for POLLOUT, and the client does
  -- not poll for POLLIN until more is asked of it. `recv` is asked for what there is room for.
  pub process_client-up :
      (p q : Ptr) (w : World Plist) (c : MuxClient Plist) (r : RemoteMux) (events : Events)
      → Linked p q w c r
      → IsValid r.ob
      → events.pollin ≡ true
      → UpOutcome p q w c r (process_client p events w)
  process_client-up p q w c r events l valid in_ = elim (Bool-cases (leb r.ob.capacity r.ob.size)) [
    | inl no_room ↦
        full (ground (arith, valid.fits))
          (goes_up p q w c r events l in_ ∙ up_full p q w c r l no_room)
    | inr some_room ↦ elim (Option-cases (recv env (available r.ob))) [
      | inl e ↦
          ended (inl (rw (available_lem valid) at e))
            (goes_up p q w c r events l in_ ∙ up_ended p q w c r l some_room (inl e))
      | inr ([], e) ↦
          ended (inr (rw (available_lem valid) at e))
            (goes_up p q w c r events l in_ ∙ up_ended p q w c r l some_room (inr e))
      | inr (b ∷ bytes, e) ↦
          let fits : length (b ∷ bytes) ≤ r.ob.capacity - r.ob.size =
            recv-length env (r.ob.capacity - r.ob.size) (rw (available_lem valid) at e) in
          let (ob, stored, valid', queue, _, _) =
            put_lem (b ∷ bytes) valid (omega (arith, fits, valid.fits)) in
          taken (b ∷ bytes) ob (rw (available_lem valid) at e) (omega arith) valid' queue
            (goes_up p q w c r events l in_ ∙ up_taken p q w c r b bytes ob l some_room e stored)
    ]
  ]
