-- ===== src/Client/Process/Relaying/Down.antt =====
-- `client_process` on a connected client: the bytes of its remote go to it in order.
use usbfluxd.Prelude.{
  ℕ, zero, suc, ap, ◌∙◌, ◌==◌, ◌<◌, ◌≡◌, refl, Option, none, some, true, false, drop, arith, ◌⊎◌,
  inl, inr, Bool-cases, Option-cases,
}
use usbfluxd.Buffer
use usbfluxd.Buffer.{Buffer, queued, available}
use usbfluxd.Buffer.Contents.{IsValid, shift_lem}
use usbfluxd.Utils.Collection.{Ptr}
use usbfluxd.System.{LibPlist, Env, Events, send, set_pollin, clear_pollout}
use usbfluxd.World.{World, MuxClient, RemoteMux}
use usbfluxd.World.Monad.{
  update, ◌>>=◌, ◌>>◌, read_client, read_remote, write_client, write_remote, primitives,
}
use usbfluxd.Client.Close.{client_close}
use usbfluxd.Client.Process.{client_write, remote_to_client, process_client}
use usbfluxd.Client.Process.Sending.{send-le}
use usbfluxd.Remote.Output.{Version}
use usbfluxd.Client.Process.Relaying.{Linked, store_both, goes_down}

module _ {Plist : Type 0} ⦃env : Env⦄ where
  -- What an event POLLOUT without POLLIN may do.
  pub data DownOutcome (p q : Ptr) (w : World Plist) (c : MuxClient Plist) (r : RemoteMux)
      (res : Option (Unit {0} × World Plist)) : Type 0 where
    nothing_there : r.ib.size ≡ 0 → res ≡ some (tt, w) → DownOutcome p q w c r res
    refused :
        (send env r.ib.size ≡ none) ⊎ (send env r.ib.size ≡ some 0)
        → res ≡ client_close p w
        → DownOutcome p q w c r res
    all_out :
        send env r.ib.size ≡ some r.ib.size
        → 0 < r.ib.size
        → res
          ≡ some (
            tt,
            store_both w p
                (record c { events = set_pollin (clear_pollout c.events) })
                q
                (record r { ib = record r.ib { size = 0 } }),
          )
        → DownOutcome p q w c r res
    part_out :
        (n : ℕ) (ib : Buffer)
        → send env r.ib.size ≡ some n
        → 0 < n
        → n < r.ib.size
        → IsValid ib
        → queued ib ≡ drop n (queued r.ib)
        → res ≡ some (tt, record w { remotes = update w.remotes q (some (record r { ib = ib })) })
        → DownOutcome p q w c r res

  down_nothing :
      (p q : Ptr) (w : World Plist) (c : MuxClient Plist) (r : RemoteMux)
      → Linked p q w c r
      → (r.ib.size == 0) ≡ true
      → remote_to_client p q w ≡ some (tt, w)
  unfolding remote_to_client primitives
  down_nothing p q w c r l empty =
      rw (remote_to_client, ◌>>=◌, read_client, l.live, read_remote, l.there, empty) refl

  down_refused :
      (p q : Ptr) (w : World Plist) (c : MuxClient Plist) (r : RemoteMux)
      → Linked p q w c r
      → (r.ib.size == 0) ≡ false
      → (send env r.ib.size ≡ none) ⊎ (send env r.ib.size ≡ some 0)
      → remote_to_client p q w ≡ client_close p w
  unfolding remote_to_client client_write primitives
  down_refused p q w c r l busy (inl e) =
      rw
        (
          remote_to_client, ◌>>=◌, read_client, l.live, read_remote, l.there, busy, client_write,
          l.connected, e,
        )
        refl
  down_refused p q w c r l busy (inr e) =
      rw
        (
          remote_to_client, ◌>>=◌, read_client, l.live, read_remote, l.there, busy, client_write,
          l.connected, e,
        )
        refl

  down_all :
      (p q : Ptr) (w : World Plist) (c : MuxClient Plist) (r : RemoteMux) (n : ℕ)
      → Linked p q w c r
      → (r.ib.size == 0) ≡ false
      → send env r.ib.size ≡ some n
      → (n == 0) ≡ false
      → (n == r.ib.size) ≡ true
      → remote_to_client p q w
        ≡ some (
          tt,
          store_both w p
              (record c { events = set_pollin (clear_pollout c.events) })
              q
              (record r { ib = record r.ib { size = 0 } }),
        )
  unfolding remote_to_client client_write primitives
  down_all p q w c r n l busy e some_out all =
      rw
        (
          remote_to_client, ◌>>=◌, ◌>>◌, read_client, l.live, read_remote, l.there, busy,
          client_write, l.connected, e, some_out, all, write_remote, l.there, write_client, l.live,
        )
        refl

  down_part :
      (p q : Ptr) (w : World Plist) (c : MuxClient Plist) (r : RemoteMux) (n : ℕ) (ib : Buffer)
      → Linked p q w c r
      → (r.ib.size == 0) ≡ false
      → send env r.ib.size ≡ some n
      → (n == 0) ≡ false
      → (n == r.ib.size) ≡ false
      → Buffer.shift r.ib n ≡ some ib
      → remote_to_client p q w
        ≡ some (tt, record w { remotes = update w.remotes q (some (record r { ib = ib })) })
  unfolding remote_to_client client_write primitives
  down_part p q w c r n ib l busy e some_out less moved =
      rw
        (
          remote_to_client, ◌>>=◌, read_client, l.live, read_remote, l.there, busy, client_write,
          l.connected, e, some_out, less, moved, write_remote, l.there,
        )
        refl

module _ {Plist : Type 0} ⦃lib : LibPlist Plist⦄ ⦃env : Env⦄ ⦃v : Version⦄ where
  -- The event POLLOUT, without POLLIN, of a connected client whose remote is live: with no input of the
  -- remote nothing happens; if `send` fails or takes nothing, the client is closed; if it takes all, the
  -- remote's input buffer is empty, and the client polls for POLLIN and not for POLLOUT; if it takes a
  -- part, exactly the bytes that it took leave the remote's input buffer.
  pub process_client-down :
      (p q : Ptr) (w : World Plist) (c : MuxClient Plist) (r : RemoteMux) (events : Events)
      → Linked p q w c r
      → IsValid r.ib
      → events.pollin ≡ false
      → events.pollout ≡ true
      → DownOutcome p q w c r (process_client p events w)
  process_client-down p q w c r events l valid in_ out = elim (Bool-cases (r.ib.size == 0)) [
    | inl empty ↦
        nothing_there (ground arith)
          (goes_down p q w c r events l in_ out ∙ down_nothing p q w c r l empty)
    | inr busy ↦ elim (Option-cases (send env r.ib.size)) [
      | inl failed ↦
          refused (inl failed)
            (goes_down p q w c r events l in_ out ∙ down_refused p q w c r l busy (inl failed))
      | inr (zero, took) ↦
          refused (inr took)
            (goes_down p q w c r events l in_ out ∙ down_refused p q w c r l busy (inr took))
      | inr (suc n, took) ↦ elim (Bool-cases (suc n == r.ib.size)) [
        | inl all ↦
            let e : suc n ≡ r.ib.size = ground arith in
            all_out (took ∙ ap some e) (omega arith) (
              goes_down p q w c r events l in_ out
              ∙ down_all p q w c r (suc n) l busy took (ground arith) all)
        | inr less ↦
            let lt : suc n < r.ib.size = ground (arith, send-le env r.ib.size took) in
            let (ib, moved, valid', rest, _, _) = shift_lem (suc n) valid (omega arith) in
            part_out (suc n) ib took (omega arith) lt valid' rest (
              goes_down p q w c r events l in_ out
              ∙ down_part p q w c r (suc n) ib l busy took (ground arith) less moved)
      ]
    ]
  ]
