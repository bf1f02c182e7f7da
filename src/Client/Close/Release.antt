-- ===== src/Client/Close/Release.antt =====
-- `client_close` releases the client, and the remote that it is linked to.
use usbfluxd.Prelude.{◌≡◌, refl, false, none, some, ◌∷◌, ap, ◌||◌, Bool-cases, inl, inr}
use usbfluxd.Client.Events.{is_connecting1, is_connecting2}
use usbfluxd.Utils.Collection
use usbfluxd.Utils.Collection.{Ptr}
use usbfluxd.World.{ClientState, World, MuxClient, RemoteMux}
use usbfluxd.World.Monad.{
  update, update-update, eq_self, ◌>>=◌, ◌>>◌, read_client, write_client, free_client, read_remote,
  write_remote, free_remote, close_fd, primitives,
}
use usbfluxd.Remote.Close.{
  remote_close, usbmux_remote_notify_client_close, usbmux_remote_clear_client,
}
use usbfluxd.Client.Close.{close_remote_of, client_close}

module _ {Plist : Type 0} where
  -- The world without a client, whose descriptor is closed.
  unfoldable pub without_client : World Plist → Ptr → MuxClient Plist → World Plist
  without_client w p c = record w {
    clients = update w.clients p none;
    client_list = Collection.remove w.client_list p;
    client_list_mutex = false;
    closed = c.fd ∷ w.closed;
  }

  -- The world without a client and its remote.
  unfoldable pub without_both : World Plist → Ptr → MuxClient Plist → Ptr → RemoteMux → World Plist
  without_both w p c q r = record w {
    clients = update w.clients p none;
    remotes = update w.remotes q none;
    client_list = Collection.remove w.client_list p;
    client_list_mutex = false;
    remote_list = Collection.remove w.remote_list q;
    remote_list_mutex = false;
    closed = r.fd ∷ c.fd ∷ w.closed;
  }

  pub client_close-freed :
      (p : Ptr) (w : World Plist) → w.clients p ≡ none → client_close p w ≡ none
  unfolding client_close primitives
  client_close-freed p w gone = rw (client_close, ◌>>=◌, read_client, gone) refl

  -- Closing a live client that has no remote, while no thread holds the mutex: its descriptor is closed,
  -- it leaves the client list and is freed, the mutex is free again, and nothing else changes.
  pub client_close-alone :
      (p : Ptr) (w : World Plist) (c : MuxClient Plist)
      → w.clients p ≡ some c
      → c.remote ≡ none
      → w.client_list_mutex ≡ false
      → client_close p w ≡ some (tt, without_client w p c)
  unfolding client_close close_remote_of primitives without_client
  client_close-alone p w c live alone free =
      elim (Bool-cases (is_connecting1 c.state || is_connecting2 c.state)) [
        | inl connecting ↦
            rw
              (
                live,
                client_close,
                read_client,
                write_client,
                ◌>>=◌,
                ◌>>◌,
                connecting,
                live,
                alone,
                free,
                free_client,
                without_client,
                eq_self p,
              )
              (ap (λ f. some (tt, record (without_client w p c) { clients = f }))
                (update-update w.clients p _ none))
        | inr other ↦
            rw
              (
                live, client_close, read_client, ◌>>=◌, ◌>>◌, other, alone, free, live, free_client,
                without_client,
              )
              refl
      ]

  -- What `client_close` does to the remote.
  close_linked :
      (q : Ptr) (w : World Plist) (r : RemoteMux)
      → w.remotes q ≡ some r
      → w.remote_list_mutex ≡ false
      → close_remote_of (some q) w
        ≡ some (
          tt,
          record w {
            remotes = update w.remotes q none;
            remote_list = Collection.remove w.remote_list q;
            remote_list_mutex = false;
            closed = r.fd ∷ w.closed;
          },
        )
  unfolding close_remote_of usbmux_remote_clear_client usbmux_remote_notify_client_close
      remote_close primitives
  close_linked q w r there free =
      rw
        (
          there,
          close_remote_of,
          usbmux_remote_clear_client,
          usbmux_remote_notify_client_close,
          remote_close,
          read_remote,
          write_remote,
          free_remote,
          ◌>>=◌,
          ◌>>◌,
          there,
          free,
          eq_self q,
          eq_self q,
          close_fd,
        )
        (ap
          (λ f. some (
            tt,
            record w {
              remotes = f;
              remote_list = Collection.remove w.remote_list q;
              remote_list_mutex = false;
              closed = r.fd ∷ w.closed;
            },
          ))
          (update-update w.remotes q _ none))

  -- Closing a live client whose remote is live, while no thread holds either mutex, does not fault and
  -- ends both: the two descriptors are closed, both leave their lists and are freed, the mutexes are
  -- free again, and nothing else changes.
  pub client_close-linked :
      (p q : Ptr) (w : World Plist) (c : MuxClient Plist) (r : RemoteMux)
      → w.clients p ≡ some c
      → c.remote ≡ some q
      → w.remotes q ≡ some r
      → w.client_list_mutex ≡ false
      → w.remote_list_mutex ≡ false
      → client_close p w ≡ some (tt, without_both w p c q r)
  unfolding client_close primitives without_both
  client_close-linked p q w c r live linked there free free' =
      elim (Bool-cases (is_connecting1 c.state || is_connecting2 c.state)) [
        | inl connecting ↦
            rw
              (
                live,
                client_close,
                read_client,
                write_client,
                ◌>>=◌,
                ◌>>◌,
                connecting,
                live,
                linked,
                close_linked q
                    (record w {
                      clients =
                          update w.clients p
                            (some (record c { state = ClientState.dead; remote = some q }));
                      closed = c.fd ∷ w.closed;
                    })
                    r there free',
                free,
                free_client,
                without_both,
                eq_self p,
              )
              (ap (λ f. some (tt, record (without_both w p c q r) { clients = f }))
                (update-update w.clients p _ none))
        | inr other ↦
            rw
              (
                live,
                client_close,
                read_client,
                ◌>>=◌,
                ◌>>◌,
                other,
                linked,
                close_linked q (record w { closed = c.fd ∷ w.closed }) r there free',
                free,
                live,
                free_client,
                without_both,
              )
              refl
      ]
