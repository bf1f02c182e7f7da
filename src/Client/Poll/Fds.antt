-- ===== src/Client/Poll/Fds.antt =====
-- `client_get_fds` adds every client, once and in order.
use usbfluxd.Prelude.{◌≡◌, refl, ap, ◌∙◌, sym, true, false, some, List, [], ◌∷◌, ◌++◌}
use mathlib.Core.List.{append-nil, append_assoc}
use usbfluxd.System.{no_events}
use usbfluxd.Utils.Collection
use usbfluxd.Utils.Collection.{Ptr}
use usbfluxd.Utils.FdList.{FdList, FdOwner, PollFd}
use usbfluxd.Utils.FdList.Polled
use usbfluxd.Utils.FdList.Polled.{polled, fdlist_add-polled}
use usbfluxd.World.{World, MuxClient}
use usbfluxd.World.Monad.{◌>>=◌, ◌>>◌, read_client, lock_clients, primitives}
use usbfluxd.Client.Poll.{add_clients, client_get_fds}

module _ {Plist : Type 0} where
  -- The clients of a list are live; these are their descriptors and events.
  pub data Fds (w : World Plist) : List Ptr → List (FdOwner × PollFd) → Type 0 where
    no_client : Fds w [] []
    next_client :
        (p : Ptr) (ps : List Ptr) (c : MuxClient Plist) (rest : List (FdOwner × PollFd))
        → w.clients p ≡ some c
        → Fds w ps rest
        → Fds w (p ∷ ps) (
            (FdOwner.fd_client, record { fd = c.fd; events = c.events; revents = no_events })
            ∷ rest)

  Fds-locked :
      (w : World Plist) (ps : List Ptr) (fds : List (FdOwner × PollFd))
      → Fds w ps fds
      → Fds (record w { client_list_mutex = true }) ps fds
  Fds-locked w [] fds no_client = no_client
  Fds-locked w (p ∷ ps) fds (next_client _ _ c rest live more) =
      next_client p ps c rest live (Fds-locked w ps rest more)

  add_clients-polled :
      (w : World Plist) (ps : List Ptr) (fds : List (FdOwner × PollFd)) (list : FdList)
      → Fds w ps fds
      → Polled.IsValid list
      → (list' : FdList) × (add_clients ps list w ≡ some (list', w))
        × Polled.IsValid list'
        × (polled list' ≡ polled list ++ fds)
  unfolding add_clients primitives
  add_clients-polled w [] fds list no_client v = (list, refl, v, sym (append-nil (polled list)))
  add_clients-polled w (p ∷ ps) fds list (next_client _ _ c rest live more) v =
      let (list1, e, v1, added) = fdlist_add-polled FdOwner.fd_client c.fd c.events v in
      let (list2, e', v2, added') = add_clients-polled w ps rest list1 more v1 in
      (
        list2,
        rw (add_clients, ◌>>=◌, read_client, live, e) e',
        v2,
        added' ∙ ap (λ xs. xs ++ rest) added ∙ append_assoc (polled list) _ rest,
      )

  -- `client_get_fds` on a valid list, where all clients of the list are live and no thread holds the
  -- mutex: it does not fault, adds the descriptor and the events of each client in the order of the
  -- list, keeps the entries that are there, and leaves the state as it was.
  pub client_get_fds-polled :
      (w : World Plist) (fds : List (FdOwner × PollFd)) (list : FdList)
      → Fds w (Collection.elements w.client_list) fds
      → Polled.IsValid list
      → w.client_list_mutex ≡ false
      → (list' : FdList) × (client_get_fds list w
          ≡ some (list', record w { client_list_mutex = false }))
        × Polled.IsValid list'
        × (polled list' ≡ polled list ++ fds)
  unfolding client_get_fds primitives
  client_get_fds-polled w fds list live v free =
      let (list', e, valid, added) =
        add_clients-polled (record w { client_list_mutex = true })
          (Collection.elements w.client_list) fds list (Fds-locked w _ fds live) v in
      (list', rw (client_get_fds, ◌>>=◌, ◌>>◌, lock_clients, free, e) refl, valid, added)
