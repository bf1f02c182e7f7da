-- ===== src/Remote/Process/Sending.antt =====
-- `remote_process_send`: the output of a remote goes out in order, none of it twice.
use usbfluxd.Prelude.{
  ℕ, zero, suc, ◌∙◌, ap, ◌==◌, ◌<◌, ◌≡◌, refl, Option, none, some, true, false, drop, arith, ◌⊎◌,
  inl, inr, Bool-cases, Option-cases,
}
use usbfluxd.Buffer
use usbfluxd.Buffer.{Buffer, queued}
use usbfluxd.Buffer.Contents.{IsValid, shift_lem}
use usbfluxd.Utils.Collection.{Ptr}
use usbfluxd.System.{LibPlist, Env, send}
use usbfluxd.World.{RemoteState, World, RemoteMux}
use usbfluxd.Remote.Events.{is_connecting2}
use usbfluxd.World.Monad.{update, ◌>>=◌, read_remote, write_remote, primitives}
use usbfluxd.Client.Process.Sending.{send-le}
use usbfluxd.Remote.Dispose.{usbmux_remote_close}
use usbfluxd.Remote.Process.{all_sent, sent, remote_process_send}

-- The world with another value of a remote.
abbrev pub store : {Plist : Type 0} → World Plist → Ptr → RemoteMux → World Plist
store w p r = record w { remotes = update w.remotes p (some r) }

-- What a remote is after all of its output was sent, at a time: no output is left and POLLOUT is dropped.
abbrev pub emptied : ℕ → RemoteMux → RemoteMux
emptied now r = record r {
  ob = record r.ob { size = 0 };
  events = record r.events { pollout = false };
  last_active = now;
}

-- The same of a remote that waited for this: it is connected, and polls for what was set aside for it,
-- and POLLIN.
abbrev pub joined : ℕ → RemoteMux → RemoteMux
joined now r = record r {
  ob = record r.ob { size = 0 };
  state = RemoteState.connected;
  events = record r.devents { pollin = true };
  last_active = now;
}

module _ {Plist : Type 0} ⦃lib : LibPlist Plist⦄ ⦃env : Env⦄ where
  -- The ways in which `remote_process_send` may end.
  pub data SendOutcome (p : Ptr) (w : World Plist) (r : RemoteMux)
      (res : Option (Unit {0} × World Plist)) : Type 0 where
    nothing_to_send :
        r.ob.size ≡ 0
        → res ≡ some (tt, store w p (record r { events = record r.events { pollout = false } }))
        → SendOutcome p w r res
    refused :
        (send env r.ob.size ≡ none) ⊎ (send env r.ob.size ≡ some 0)
        → res ≡ usbmux_remote_close p w
        → SendOutcome p w r res
    all_out :
        send env r.ob.size ≡ some r.ob.size
        → 0 < r.ob.size
        → is_connecting2 r.state ≡ false
        → res ≡ some (tt, store w p (emptied env.now r))
        → SendOutcome p w r res
    connects :
        send env r.ob.size ≡ some r.ob.size
        → 0 < r.ob.size
        → is_connecting2 r.state ≡ true
        → res ≡ some (tt, store w p (joined env.now r))
        → SendOutcome p w r res
    part_out :
        (n : ℕ) (b : Buffer)
        → send env r.ob.size ≡ some n
        → 0 < n
        → n < r.ob.size
        → IsValid b
        → queued b ≡ drop n (queued r.ob)
        → res ≡ some (tt, store w p (record r { ob = b; last_active = env.now }))
        → SendOutcome p w r res

  sends_nothing :
      (p : Ptr) (w : World Plist) (r : RemoteMux)
      → w.remotes p ≡ some r
      → (r.ob.size == 0) ≡ true
      → remote_process_send p w
        ≡ some (tt, store w p (record r { events = record r.events { pollout = false } }))
  unfolding remote_process_send primitives
  sends_nothing p w r there none_left =
      rw (remote_process_send, ◌>>=◌, read_remote, there, none_left, write_remote, there) refl

  sends :
      (p : Ptr) (w : World Plist) (r : RemoteMux) {res : Option ℕ}
      → w.remotes p ≡ some r
      → (r.ob.size == 0) ≡ false
      → send env r.ob.size ≡ res
      → remote_process_send p w ≡ sent p res w
  unfolding remote_process_send primitives
  sends p w r there busy e = rw (remote_process_send, ◌>>=◌, read_remote, there, busy, e) refl

  sent_all :
      (p : Ptr) (w : World Plist) (r : RemoteMux) (n : ℕ)
      → w.remotes p ≡ some r
      → (suc n == r.ob.size) ≡ true
      → is_connecting2 r.state ≡ false
      → sent p (some (suc n)) w ≡ some (tt, store w p (emptied env.now r))
  unfolding sent all_sent primitives
  sent_all p w r n there all other = ground (arith, other)

  sent_joined :
      (p : Ptr) (w : World Plist) (r : RemoteMux) (n : ℕ)
      → w.remotes p ≡ some r
      → (suc n == r.ob.size) ≡ true
      → is_connecting2 r.state ≡ true
      → sent p (some (suc n)) w ≡ some (tt, store w p (joined env.now r))
  unfolding sent all_sent primitives
  sent_joined p w r n there all soon = ground (arith, soon)

  sent_part :
      (p : Ptr) (w : World Plist) (r : RemoteMux) (n : ℕ) (b : Buffer)
      → w.remotes p ≡ some r
      → (suc n == r.ob.size) ≡ false
      → Buffer.shift r.ob (suc n) ≡ some b
      → sent p (some (suc n)) w ≡ some (tt, store w p (record r { ob = b; last_active = env.now }))
  unfolding sent primitives
  sent_part p w r n b there less e = ground arith

  -- `remote_process_send` on a live remote: with no output, POLLOUT is dropped; if `send` fails or takes
  -- nothing, the remote is closed; if it takes all, the queue is empty and POLLOUT is dropped, and a
  -- remote that waited for this is connected and polls for POLLIN and the events that were set aside for
  -- it; if it takes a part, exactly the bytes that it took leave the queue. Where it takes any, the time
  -- is noted.
  pub remote_process_send_lem :
      (p : Ptr) (w : World Plist) (r : RemoteMux)
      → w.remotes p ≡ some r
      → IsValid r.ob
      → SendOutcome p w r (remote_process_send p w)
  unfolding sent
  remote_process_send_lem p w r there v = elim (Bool-cases (r.ob.size == 0)) [
    | inl none_left ↦ nothing_to_send (ground arith) (sends_nothing p w r there none_left)
    | inr busy ↦ elim (Option-cases (send env r.ob.size)) [
      | inl failed ↦ refused (inl failed) (sends p w r there busy failed)
      | inr (zero, took) ↦ refused (inr took) (sends p w r there busy took)
      | inr (suc n, took) ↦ elim (Bool-cases (suc n == r.ob.size)) [
        | inl all ↦
            let e : suc n ≡ r.ob.size = ground arith in
            let first = sends p w r there busy took in
            elim (Bool-cases (is_connecting2 r.state)) [
              | inl soon ↦
                  connects (took ∙ ap some e) (omega arith) soon
                    (first ∙ sent_joined p w r n there all soon)
              | inr other ↦
                  all_out (took ∙ ap some e) (omega arith) other
                    (first ∙ sent_all p w r n there all other)
            ]
        | inr less ↦
            let lt : suc n < r.ob.size = ground (arith, send-le env r.ob.size took) in
            let (b, e, valid, rest, _, _) = shift_lem (suc n) v (omega arith) in
            part_out (suc n) b took (omega arith) lt valid rest
              (sends p w r there busy took ∙ sent_part p w r n b there less e)
      ]
    ]
  ]
