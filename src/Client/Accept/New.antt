-- ===== src/Client/Accept/New.antt =====
-- `client_accept`: what a new client is, and where it is kept.
use usbfluxd.Prelude.{
  ℕ, suc, ◌+◌, ◌%◌, ◌≤◌, ◌≡◌, refl, false, none, some, [], arith, ◌⊎◌, inl, inr, Option-cases,
}
use usbfluxd.Proto.{u32_mod, header_size}
use usbfluxd.Buffer.{queued}
use usbfluxd.Buffer.Contents.{IsValid, malloc-IsValid, capacity-malloc}
use usbfluxd.Utils.Collection
use usbfluxd.System.{Env}
use usbfluxd.World.{World}
use usbfluxd.World.Monad.{update, ◌>>=◌, ◌>>◌, lock_clients, primitives}
use usbfluxd.Client.Accept.{cmd_buf_size, reply_buf_size, new_client, client_accept}

module _ {Plist : Type 0} ⦃env : Env⦄ where
  -- The world with a new client.
  unfoldable pub with_client : World Plist → ℕ → World Plist
  with_client w cfd = record w {
    clients = update w.clients w.next (some (new_client cfd w.client_number));
    next = suc w.next;
    client_number = (w.client_number + 1) % u32_mod;
    client_list = Collection.add w.client_list w.next;
    client_list_mutex = false;
  }

  -- The two ways in which `client_accept` may end.
  abbrev pub AcceptOutcome : World Plist → Type 0
  AcceptOutcome w =
      ((env.accepted_fd ≡ none) × (client_accept w ≡ some (none, w)))
      ⊎ ((cfd : ℕ) × (env.accepted_fd ≡ some cfd)
          × (client_accept w ≡ some (some cfd, with_client w cfd))
          × IsValid (new_client {Plist = Plist} cfd w.client_number).ob
          × IsValid (new_client {Plist = Plist} cfd w.client_number).ib
          × (queued (new_client {Plist = Plist} cfd w.client_number).ob ≡ [])
          × (queued (new_client {Plist = Plist} cfd w.client_number).ib ≡ [])
          × (header_size ≤ (new_client {Plist = Plist} cfd w.client_number).ib.capacity))

  -- `client_accept` leaves the state alone where `accept` fails. Else, if no thread holds the mutex, it
  -- returns the descriptor, and the one client that it adds, at a new address, has empty and valid
  -- buffers, the one for input large enough for a header.
  pub client_accept-New : (w : World Plist) → w.client_list_mutex ≡ false → AcceptOutcome w
  unfolding client_accept primitives with_client new_client
  client_accept-New w free = elim (Option-cases env.accepted_fd) [
    | inl failed ↦ inl (failed, rw (client_accept, failed) refl)
    | inr (cfd, got) ↦ inr (
      cfd,
      got,
      rw (client_accept, got, ◌>>=◌, ◌>>◌, lock_clients, free, with_client) refl,
      (malloc-IsValid reply_buf_size (omega arith)).0,
      (malloc-IsValid cmd_buf_size (omega arith)).0,
      (malloc-IsValid reply_buf_size (omega arith)).1,
      (malloc-IsValid cmd_buf_size (omega arith)).1,
      omega (arith, capacity-malloc cmd_buf_size),
    )
  ]
