-- ===== src/Client/Process/Sending.antt =====
-- `process_send`: the output of a client goes out in order, none of it twice.
use usbfluxd.Prelude.{
  ℕ, zero, suc, ◌∙◌, ◌==◌, ◌≤◌, ◌<◌, ◌≡◌, ◌≢◌, refl, ap, sym, true, false, Option, none, some, drop,
  arith, ◌⊎◌, inl, inr, Bool-cases, Option-cases,
}
use mathlib.Core.Path.{subst}
use usbfluxd.Buffer.{queued}
use usbfluxd.Buffer.Contents.{IsValid, shift_lem}
use usbfluxd.Utils.Collection.{Ptr}
use usbfluxd.System.{Env, send}
use usbfluxd.World.{ClientState, World, MuxClient, RemoteMux}
use usbfluxd.World.Monad.{update, ◌>>=◌, read_client, read_remote, write_client, deref, primitives}
use usbfluxd.Client.Events.{is_connecting2}
use usbfluxd.Client.Close.{client_close}
use usbfluxd.Client.Process.{all_sent, some_sent, sent, process_send}

pub send-le : (env : Env) (len : ℕ) {n : ℕ} → send env len ≡ some n → n ≤ len
unfolding send
send-le env len e = ground arith

module _ {Plist : Type 0} where
  -- What a client is after all of its output was sent: no output is left and POLLOUT is dropped.
  abbrev pub emptied : MuxClient Plist → MuxClient Plist
  emptied c = record c {
    ob = record c.ob { size = 0 };
    events = record c.events { pollout = false };
  }

  -- The same of a client that waited for this: it is connected, without memory for output, and polls
  -- for what its remote has set up, and POLLIN.
  abbrev pub joined : MuxClient Plist → MuxClient Plist
  joined c = record c {
    ob = record c.ob { buf = none; size = 0 };
    state = ClientState.connected;
    events = record c.devents { pollin = true };
  }

  -- How the last part of a full send ends; a CLIENT_CONNECTING2 without a live remote faults.
  pub data AllSent (p : Ptr) (w : World Plist) (c : MuxClient Plist)
      (res : Option (Unit {0} × World Plist)) : Type 0 where
    goes_on :
        is_connecting2 c.state ≡ false
        → res ≡ some (tt, record w { clients = update w.clients p (some (emptied c)) })
        → AllSent p w c res
    connects :
        (q : Ptr) (r : RemoteMux)
        → is_connecting2 c.state ≡ true
        → c.remote ≡ some q
        → w.remotes q ≡ some r
        → res ≡ some (tt, record w { clients = update w.clients p (some (joined c)) })
        → AllSent p w c res
    no_remote : is_connecting2 c.state ≡ true → c.remote ≡ none → res ≡ none → AllSent p w c res
    freed_remote :
        (q : Ptr)
        → is_connecting2 c.state ≡ true
        → c.remote ≡ some q
        → w.remotes q ≡ none
        → res ≡ none
        → AllSent p w c res

  all_sent-AllSent :
      (p : Ptr) (w : World Plist) (c : MuxClient Plist)
      → w.clients p ≡ some c
      → AllSent p w c (all_sent p w)
  unfolding all_sent primitives
  all_sent-AllSent p w c live = elim (Bool-cases (is_connecting2 c.state)) [
    | inr other ↦
        goes_on other (rw (all_sent, ◌>>=◌, read_client, live, other, write_client, live) refl)
    | inl soon ↦ elim (Option-cases c.remote) [
      | inl alone ↦
          no_remote soon alone (rw (all_sent, ◌>>=◌, read_client, live, soon, deref, alone) refl)
      | inr (q, to) ↦ elim (Option-cases (w.remotes q)) [
        | inl gone ↦
            freed_remote q soon to gone
              (rw (all_sent, ◌>>=◌, read_client, live, soon, deref, to, read_remote, gone) refl)
        | inr (r, there) ↦ connects q r soon to there (
            rw
              (
                all_sent, ◌>>=◌, read_client, live, soon, deref, to, read_remote, there,
                write_client, live,
              )
              (ap
                (λ o. some (
                  tt,
                  record w {
                    clients = update w.clients p (some (record (joined c) { remote = o }));
                  },
                ))
                to))
      ]
    ]
  ]

module _ {Plist : Type 0} ⦃env : Env⦄ where
  -- What a client is after `n` of the bytes that were queued for it were sent.
  pub record Sent (n : ℕ) (c c' : MuxClient Plist) : Type 0 where
    pub valid : IsValid c'.ob
    pub rest : queued c'.ob ≡ drop n (queued c.ob)
    pub same : c' ≡ record c { ob = c'.ob }

  some_sent_lem :
      (n : ℕ) (c : MuxClient Plist)
      → IsValid c.ob
      → n ≤ c.ob.size
      → (c' : MuxClient Plist) × (some_sent n c ≡ some (tt, c')) × Sent n c c'
  unfolding some_sent
  some_sent_lem n c v h =
      let (b, e, valid, rest, _, _) = shift_lem n v h in
      (record c { ob = b }, rw (e, some_sent), record { valid = valid; rest = rest; same = refl })

  process_send_to :
      (p : Ptr) (w : World Plist) (c : MuxClient Plist) {r : Option ℕ}
      → w.clients p ≡ some c
      → c.ob.size ≢ 0
      → send env c.ob.size ≡ r
      → process_send p w ≡ sent p r w
  unfolding process_send primitives
  process_send_to p w c live busy e = ground arith

  sent_all :
      (p : Ptr) (w : World Plist) (c : MuxClient Plist) (n : ℕ)
      → w.clients p ≡ some c
      → suc n ≡ c.ob.size
      → sent p (some (suc n)) w ≡ all_sent p w
  unfolding sent primitives
  sent_all p w c n live e = ground arith

  sent-some :
      (p : Ptr) (w : World Plist) (c c' : MuxClient Plist) (n : ℕ)
      → w.clients p ≡ some c
      → suc n < c.ob.size
      → some_sent (suc n) c ≡ some (tt, c')
      → sent p (some (suc n)) w ≡ some (tt, record w { clients = update w.clients p (some c') })
  unfolding sent primitives
  sent-some p w c c' n live lt e = ground arith

  -- The four ways in which `process_send` may end.
  abbrev pub SendOutcome : Ptr → World Plist → MuxClient Plist → Type 0
  SendOutcome p w c =
      ((send env c.ob.size ≡ none) × (process_send p w ≡ client_close p w))
      ⊎ ((send env c.ob.size ≡ some 0) × (process_send p w ≡ client_close p w))
      ⊎ ((send env c.ob.size ≡ some c.ob.size) × AllSent p w c (process_send p w))
      ⊎ ((n : ℕ) × (c' : MuxClient Plist) × (send env c.ob.size ≡ some n)
          × (0 < n)
          × (n < c.ob.size)
          × (process_send p w ≡ some (tt, record w { clients = update w.clients p (some c') }))
          × Sent n c c')

  -- `process_send` on a client with output: if `send` fails or takes nothing, the client is closed; if
  -- it takes all, no output is left and POLLOUT is dropped, and a client that waited for its connect
  -- answer to go out is connected, its output memory freed, and polls for POLLIN and the events that
  -- were set aside for it; such a client without a live remote faults, since the remote's descriptor is
  -- read for the log; if `send` takes a part, exactly the bytes that it took leave the queue.
  pub process_send_lem :
      (p : Ptr) (w : World Plist) (c : MuxClient Plist)
      → w.clients p ≡ some c
      → IsValid c.ob
      → c.ob.size ≢ 0
      → SendOutcome p w c
  unfolding sent
  process_send_lem p w c live v busy = elim (Option-cases (send env c.ob.size)) [
    | inl failed ↦ inl (failed, process_send_to p w c live busy failed)
    | inr (zero, took) ↦ inr (inl (took, process_send_to p w c live busy took))
    | inr (suc n, took) ↦ elim (Bool-cases (suc n == c.ob.size)) [
      | inl all ↦
          let e : suc n ≡ c.ob.size = ground arith in
          let same = process_send_to p w c live busy took ∙ sent_all p w c n live e in
          inr (
            inr
              (inl (rw e at took, subst (AllSent p w c) (sym same) (all_sent-AllSent p w c live))))
      | inr less ↦
          let lt : suc n < c.ob.size = ground (arith, send-le env c.ob.size took) in
          let (c', e, s) = some_sent_lem (suc n) c v (omega arith) in
          inr (
            inr (
              inr (
                suc n,
                c',
                took,
                omega arith,
                lt,
                process_send_to p w c live busy took ∙ sent-some p w c c' n live lt e,
                s,
              )))
    ]
  ]
