-- ===== src/Main/Loop.antt =====
-- `main_loop` of usbfluxd/main.c, and the part of `main` around it that works on the daemon's state.
pub mod PollList
use usbfluxd.Prelude.{
  ℕ, zero, suc, ◌||◌, Bool, true, false, if◌then◌else◌, none, some, List, [], ◌∷◌,
}
use usbfluxd.Utils.FdList.{FdList, FdOwner, PollFd, fdlist_create, fdlist_reset, fdlist_add}
use usbfluxd.System.{LibPlist, Env, Events, pollin_only}
use usbfluxd.World.{World}
use usbfluxd.World.Monad.{M, pure, fault, ◌>>=◌, ◌>>◌}
use usbfluxd.Client.Accept.{client_accept, client_init}
use usbfluxd.Client.Poll.{client_get_fds, client_shutdown}
use usbfluxd.Client.Process.{client_process}
use usbfluxd.Remote.Output.{Version}
use usbfluxd.Remote.Poll.{usbmux_remote_get_fds, usbmux_remote_shutdown}
use usbfluxd.Remote.Process.{usbmux_remote_process}
use usbfluxd.Remote.Service.{usbmux_remote_init, usbmux_remote_add_remote}
use usbfluxd.Main.Options.{Options}

-- What `ppoll` returns: -1, 0, or the events of each descriptor of the list, and with each the outcomes
-- of the calls that its handler makes.
pub data Polled : Type 0 where
  interrupted nothing : Polled
  ready : List (Events × Env) → Polled

-- One round of the loop: whether a signal asked for the end before it, and whether one does at `ppoll`.
pub record Round : Type 0 where
  pub should_exit : Bool
  pub exit_asked : Bool
  pub env : Env
  pub polled : Polled

-- How the loop ends, or that the rounds given do not end it.
pub data LoopEnd : Type 0 where
  stopped accept_failed running : LoopEnd

any_event : Events → Bool
any_event e = e.pollin || e.pollout || e.pollerr || e.pollhup || e.pollnval

module _ {Plist : Type 0} ⦃lib : LibPlist Plist⦄ ⦃v : Version⦄ where
  -- The handler that the owner of a descriptor calls for; true is -1 of `client_accept`.
  pub handle : Env → FdOwner → ℕ → Events → M (World Plist) Bool
  handle env FdOwner.fd_listen fd events = do
    cfd ← client_accept ⦃env = env⦄
    elim cfd [ none ↦ pure true | some _ ↦ pure false ]
  handle env FdOwner.fd_client fd events = do client_process ⦃env = env⦄ fd events; pure false
  handle env FdOwner.fd_remote fd events = do
    usbmux_remote_process ⦃env = env⦄ fd events
    pure false
  handle env FdOwner.fd_usb fd events = pure false
  handle env FdOwner.fd_usbmux fd events = pure false

  -- The loop over the descriptors of the list: the number of them that are left, then the two arrays
  -- and what `ppoll` wrote.
  pub dispatch : ℕ → List FdOwner → List PollFd → List (Events × Env) → M (World Plist) Bool
  unfolding any_event
  dispatch zero owners fds events = pure false
  dispatch (suc n) (o ∷ owners) (f ∷ fds) ((revents, env) ∷ events) = do
    failed ← (if any_event revents then handle env o f.fd revents else pure false)
    if failed then pure true else dispatch n owners fds events
  dispatch (suc n) _ _ _ = fault

  -- The list that a round polls.
  pub poll_list : Env → ℕ → FdList → M (World Plist) FdList
  poll_list env listenfd list =
      elim (fdlist_add FdOwner.fd_listen listenfd pollin_only (fdlist_reset list)) [
        | none ↦ fault
        | some list1 ↦ (do
          list2 ← client_get_fds list1
          result ← usbmux_remote_get_fds ⦃env = env⦄ list2
          pure result.1)
      ]

  pub main_rounds : ℕ → List Round → FdList → M (World Plist) LoopEnd
  main_rounds listenfd [] list = pure running
  main_rounds listenfd (r ∷ rounds) list = if r.should_exit then pure stopped else (do
    list' ← poll_list r.env listenfd list
    elim r.polled [
      | interrupted ↦ if r.exit_asked then pure stopped else main_rounds listenfd rounds list'
      | nothing ↦ main_rounds listenfd rounds list'
      | ready events ↦ (do
        failed ← dispatch list'.count list'.owners list'.fds events
        if failed then pure accept_failed else main_rounds listenfd rounds list')
    ])

  pub main_loop : ℕ → List Round → M (World Plist) LoopEnd
  main_loop listenfd rounds = main_rounds listenfd rounds fdlist_create

  -- `main` from `client_init` to the shutdown, without the report to the parent process.
  pub run_daemon : Options → ℕ → Env → List Round → Env → M (World Plist) LoopEnd
  run_daemon opts listenfd env rounds at_end = do
    client_init
    usbmux_remote_init ⦃env = env⦄
    elim opts.remote [
      | none ↦ pure tt
      | some (host, port) ↦ (do res ← usbmux_remote_add_remote ⦃env = env⦄ host port; pure tt)
    ]
    res ← main_loop listenfd rounds
    client_shutdown
    usbmux_remote_shutdown ⦃env = at_end⦄
    pure res
