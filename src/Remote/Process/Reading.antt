-- ===== src/Remote/Process/Reading.antt =====
-- `usbmux_remote_process`: what a connected remote sends is kept for its client.
use usbfluxd.Prelude.{
  ℕ, ◌-◌, ◌&&◌, ltb, leb, ◌≤◌, ◌<◌, ◌≡◌, refl, Option, none, some, true, false, List, [], ◌∷◌, ◌++◌,
  length, arith, if◌then◌else◌, inl, inr, Bool-cases, Option-cases,
}
use usbfluxd.Buffer
use usbfluxd.Buffer.{Buffer, queued, available}
use usbfluxd.Buffer.Contents.{IsValid, put_lem}
use usbfluxd.Utils.Collection.{Ptr}
use usbfluxd.System.{LibPlist, Env, Events, recv, or_events, clear_pollin, pollout_only}
use usbfluxd.World.{World, MuxClient, RemoteMux}
use usbfluxd.World.Monad.{
  update, eq_self, ◌>>=◌, ◌>>◌, read_remote, write_remote, deref, on_client, primitives,
}
use usbfluxd.Client.Events.{is_connected, is_connecting2, client_or_events}
use usbfluxd.Client.Process.Received.{recv-length, available_lem}
use usbfluxd.Remote.Dispose.{usbmux_remote_close}
use usbfluxd.Remote.Process.{wake_client, read_connected}
use usbfluxd.Remote.Process.Sending.{store}

-- A client that is told of events: a connected one polls for them, and one whose connect answer is on
-- its way will.
unfoldable pub woken : {Plist : Type 0} → Events → MuxClient Plist → MuxClient Plist
woken events c =
    if is_connected c.state
    then record c { devents = or_events c.devents events; events = or_events c.events events }
    else if is_connecting2 c.state
    then record c { devents = or_events c.devents events }
    else c

client_or_events-woken :
    {Plist : Type 0} (events : Events) (c : MuxClient Plist)
    → (res : Option (Unit {0})) × (client_or_events events c ≡ some (res, woken events c))
unfolding client_or_events woken
client_or_events-woken events c = elim (Bool-cases (is_connected c.state)) [
  | inl up ↦ (some tt, rw (up, client_or_events, woken) refl)
  | inr not_up ↦ elim (Bool-cases (is_connecting2 c.state)) [
    | inl soon ↦ (some tt, rw (not_up, soon, client_or_events, woken) refl)
    | inr not_soon ↦ (none, rw (not_up, not_soon, client_or_events, woken) refl)
  ]
]

module _ {Plist : Type 0} ⦃lib : LibPlist Plist⦄ ⦃env : Env⦄ where
  -- What an event POLLIN of a connected remote may do.
  pub data ReadOutcome (p q : Ptr) (w : World Plist) (r : RemoteMux) (c : MuxClient Plist)
      (res : Option (Unit {0} × World Plist)) : Type 0 where
    full :
        0 < r.ib.size → r.ib.size ≡ r.ib.capacity → res ≡ some (tt, w) → ReadOutcome p q w r c res
    lost :
        recv env (r.ib.capacity - r.ib.size) ≡ none
        → res ≡ usbmux_remote_close p w
        → ReadOutcome p q w r c res
    drained :
        recv env (r.ib.capacity - r.ib.size) ≡ some []
        → res ≡ some (tt, store w p (record r { events = clear_pollin r.events }))
        → ReadOutcome p q w r c res
    copied :
        (bytes : List ℕ) (ib : Buffer)
        → recv env (r.ib.capacity - r.ib.size) ≡ some bytes
        → 0 < length bytes
        → IsValid ib
        → queued ib ≡ queued r.ib ++ bytes
        → res
          ≡ some (
            tt,
            record (store w p (record r { last_active = env.now; ib = ib })) {
              clients = update w.clients q (some (woken pollout_only c));
            },
          )
        → ReadOutcome p q w r c res

  wakes :
      (p q : Ptr) (w : World Plist) (r : RemoteMux) (c : MuxClient Plist) (events : Events)
      → w.remotes p ≡ some r
      → r.client ≡ some q
      → w.clients q ≡ some c
      → wake_client p events w
        ≡ some (tt, record w { clients = update w.clients q (some (woken events c)) })
  unfolding wake_client primitives
  wakes p q w r c events there linked live =
      let (res, e) = client_or_events-woken events c in
      rw (wake_client, ◌>>=◌, ◌>>◌, read_remote, there, linked, deref, on_client, live, e) refl

  reads_nothing :
      (p : Ptr) (w : World Plist) (r : RemoteMux)
      → w.remotes p ≡ some r
      → (ltb 0 r.ib.size && leb r.ib.capacity r.ib.size) ≡ true
      → read_connected p w ≡ some (tt, w)
  unfolding read_connected primitives
  reads_nothing p w r there no_room = rw (read_connected, ◌>>=◌, read_remote, there, no_room) refl

  read_fails :
      (p : Ptr) (w : World Plist) (r : RemoteMux)
      → w.remotes p ≡ some r
      → (ltb 0 r.ib.size && leb r.ib.capacity r.ib.size) ≡ false
      → recv env (available r.ib) ≡ none
      → read_connected p w ≡ usbmux_remote_close p w
  unfolding read_connected primitives
  read_fails p w r there some_room e =
      rw (read_connected, ◌>>=◌, read_remote, there, some_room, e) refl

  reads_end :
      (p : Ptr) (w : World Plist) (r : RemoteMux)
      → w.remotes p ≡ some r
      → (ltb 0 r.ib.size && leb r.ib.capacity r.ib.size) ≡ false
      → recv env (available r.ib) ≡ some []
      → read_connected p w ≡ some (tt, store w p (record r { events = clear_pollin r.events }))
  unfolding read_connected primitives
  reads_end p w r there some_room e =
      rw (read_connected, ◌>>=◌, read_remote, there, some_room, e, write_remote, there) refl

  reads_bytes :
      (p q : Ptr) (w : World Plist) (r : RemoteMux) (c : MuxClient Plist) (b : ℕ) (bytes : List ℕ)
      (ib : Buffer)
      → w.remotes p ≡ some r
      → r.client ≡ some q
      → w.clients q ≡ some c
      → (ltb 0 r.ib.size && leb r.ib.capacity r.ib.size) ≡ false
      → recv env (available r.ib) ≡ some (b ∷ bytes)
      → Buffer.put r.ib (b ∷ bytes) ≡ some ib
      → read_connected p w
        ≡ some (
          tt,
          record (store w p (record r { last_active = env.now; ib = ib })) {
            clients = update w.clients q (some (woken pollout_only c));
          },
        )
  unfolding read_connected primitives
  reads_bytes p q w r c b bytes ib there linked live some_room e stored =
      let r' : RemoteMux = record r { last_active = env.now; ib = ib } in
      rw
        (read_connected, ◌>>=◌, ◌>>◌, read_remote, there, some_room, e, stored, write_remote, there)
        (wakes p q (store w p r') r' c pollout_only (rw (eq_self p) refl) linked live)

  -- The event POLLIN of a connected remote with a client: a full input buffer is left for later; if
  -- `recv` fails, the remote is closed; at the end of the input, POLLIN is dropped; else what is
  -- received goes behind the bytes that wait for the client, and the client is told to poll for
  -- POLLOUT. `recv` is asked for as many bytes as there is room for.
  pub read_connected-Copied :
      (p q : Ptr) (w : World Plist) (r : RemoteMux) (c : MuxClient Plist)
      → w.remotes p ≡ some r
      → r.client ≡ some q
      → w.clients q ≡ some c
      → IsValid r.ib
      → ReadOutcome p q w r c (read_connected p w)
  read_connected-Copied p q w r c there linked live v =
      elim (Bool-cases (ltb 0 r.ib.size && leb r.ib.capacity r.ib.size)) [
        | inl no_room ↦
            full (ground arith) (ground (arith, v.fits)) (reads_nothing p w r there no_room)
        | inr some_room ↦ elim (Option-cases (recv env (available r.ib))) [
          | inl e ↦ lost (rw (available_lem v) at e) (read_fails p w r there some_room e)
          | inr ([], e) ↦ drained (rw (available_lem v) at e) (reads_end p w r there some_room e)
          | inr (b ∷ bytes, e) ↦
              let fits : length (b ∷ bytes) ≤ r.ib.capacity - r.ib.size =
                recv-length env (r.ib.capacity - r.ib.size) (rw (available_lem v) at e) in
              let (ib, stored, valid, queue, _, _) =
                put_lem (b ∷ bytes) v (omega (arith, fits, v.fits)) in
              copied (b ∷ bytes) ib (rw (available_lem v) at e) (omega arith) valid queue
                (reads_bytes p q w r c b bytes ib there linked live some_room e stored)
        ]
      ]
