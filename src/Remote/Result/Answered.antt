-- ===== src/Remote/Result/Answered.antt =====
-- The answer of a usbmuxd to a request to connect.
use usbfluxd.Prelude.{
  ℕ, ◌==◌, ◌≡◌, refl, ap, true, Option, some, Bool-cases, inl, inr, if◌then◌else◌,
}
use usbfluxd.Utils.Collection.{Ptr}
use usbfluxd.System.{LibPlist, Env, no_events}
use usbfluxd.World.{RemoteState, World, MuxClient, RemoteMux}
use usbfluxd.World.Monad.{update, ◌>>=◌, read_remote, write_remote, deref, on_client, primitives}
use usbfluxd.Client.Notify.{client_notify_connect}
use usbfluxd.Remote.Result.{connect_answer}

-- A remote that copies from now on.
abbrev pub answered : RemoteMux → RemoteMux
answered r = record r {
  state = RemoteState.connected;
  events = record no_events { pollin = true; pollout = true };
}

module _ {Plist : Type 0} ⦃lib : LibPlist Plist⦄ ⦃env : Env⦄ where
  -- The client is told, and the remote is connected if the result is 0.
  pub connect_answer-tells :
      (q p : Ptr) (result : ℕ) (w : World Plist) (r : RemoteMux) (c c' : MuxClient Plist)
      (res : Option (Unit {0}))
      → w.remotes q ≡ some r
      → r.client ≡ some p
      → w.clients p ≡ some c
      → client_notify_connect result c ≡ some (res, c')
      → connect_answer q result w
        ≡ some (
          tt,
          (if result == 0
              then record w {
                clients = update w.clients p (some c');
                remotes = update w.remotes q (some (answered r));
              }
              else record w { clients = update w.clients p (some c') }),
        )
  unfolding connect_answer primitives
  connect_answer-tells q p result w r c c' res there linked live e =
      elim (Bool-cases (result == 0)) [
        | inl ok ↦
            rw
              (
                connect_answer, ◌>>=◌, read_remote, there, linked, deref, on_client, live, e, ok,
                write_remote, there,
              )
              (ap
                (λ (o : Option Ptr). some (
                  tt,
                  record w {
                    clients = update w.clients p (some c');
                    remotes = update w.remotes q (some (record (answered r) { client = o }));
                  },
                ))
                linked)
        | inr failed ↦
            rw
              (connect_answer, ◌>>=◌, read_remote, there, linked, deref, on_client, live, e, failed)
              refl
      ]
