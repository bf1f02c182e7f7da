-- ===== src/Main/Loop/PollList.antt =====
-- What a round of `main_loop` polls.
use usbfluxd.Prelude.{ℕ, ◌≡◌, refl, ap, ◌∙◌, sym, Bool, false, some, List, [], ◌∷◌, ◌++◌}
use usbfluxd.System.{LibPlist, Env, no_events, pollin_only}
use usbfluxd.Utils.Collection
use usbfluxd.Utils.FdList.{FdList, FdOwner, PollFd}
use usbfluxd.Utils.FdList.Polled
use usbfluxd.Utils.FdList.Polled.{polled, fdlist_add-polled, fdlist_reset-IsValid}
use usbfluxd.World.{World}
use usbfluxd.World.Monad.{◌>>=◌}
use usbfluxd.Client.Poll.Fds.{Fds, client_get_fds-polled}
use usbfluxd.Remote.Poll.Fds.{RemoteFds, SameButTimes, usbmux_remote_get_fds-polled}
use usbfluxd.Remote.Output.{Version}
use usbfluxd.Main.Loop.{poll_list}

-- The entry of the daemon's own socket.
abbrev pub listen_entry : ℕ → FdOwner × PollFd
listen_entry listenfd =
    (FdOwner.fd_listen, record { fd = listenfd; events = pollin_only; revents = no_events })

module _ {Plist : Type 0} ⦃lib : LibPlist Plist⦄ ⦃v : Version⦄ where
  -- The list of a round, in any state where the clients and remotes on the two lists are live and no
  -- thread holds a mutex, whatever the list held before: there is no fault, and `ppoll` is asked for
  -- POLLIN of the daemon's socket, then for the events of each client, then of each remote, each once
  -- and in the order of its list; nothing changes but the times of the remotes.
  pub poll_list-polled :
      (env : Env) (listenfd : ℕ) (w : World Plist) (cfds rfds : List (FdOwner × PollFd))
      (list : FdList)
      → Fds w (Collection.elements w.client_list) cfds
      → RemoteFds w (Collection.elements w.remote_list) rfds
      → Polled.IsValid list
      → w.client_list_mutex ≡ false
      → w.remote_list_mutex ≡ false
      → (list' : FdList) × (w' : World Plist) × (poll_list env listenfd list w ≡ some (list', w'))
        × Polled.IsValid list'
        × (polled list' ≡ listen_entry listenfd ∷ (cfds ++ rfds))
        × SameButTimes w w'
  unfolding poll_list
  poll_list-polled env listenfd w cfds rfds list clients remotes valid free free' =
      let (valid0, empty) = fdlist_reset-IsValid valid in
      let (list1, e1, valid1, added1) =
        fdlist_add-polled FdOwner.fd_listen listenfd pollin_only valid0 in
      let (list2, e2, valid2, added2) = client_get_fds-polled w cfds list1 clients valid1 free in
      let same : record w { client_list_mutex = false } ≡ w =
        ap (λ (b : Bool). record w { client_list_mutex = b }) (sym free) in
      let r = usbmux_remote_get_fds-polled ⦃env = env⦄ w rfds list2 remotes valid2 free' in
      let first : polled list1 ≡ listen_entry listenfd ∷ [] =
        added1 ∙ ap (λ xs. xs ++ (listen_entry listenfd ∷ [])) empty in
      (
        r.list',
        r.after,
        rw (poll_list, e1, ◌>>=◌, e2, same, r.result) refl,
        r.valid,
        r.added ∙ ap (λ xs. xs ++ rfds) (added2 ∙ ap (λ xs. xs ++ cfds) first),
        r.same,
      )
