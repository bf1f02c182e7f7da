-- ===== src/Remote/Service/Fresh.antt =====
-- `remote_mux_service_add`: its runs for an instance that is not known yet.
use usbfluxd.Prelude.{
  ℕ, suc, ◌==◌, ◌≡◌, refl, ap, Bool, true, false, Option, none, some, List, [], ◌∷◌, arith,
}
use usbfluxd.Text.{CString, cstr}
use usbfluxd.Buffer.{queued}
use usbfluxd.Buffer.Contents.{IsValid, malloc-IsValid, capacity-malloc}
use usbfluxd.Utils.Collection
use usbfluxd.Utils.Collection.{Ptr}
use usbfluxd.System.{LibPlist, Env}
use usbfluxd.World.{World, RemoteMux}
use usbfluxd.World.Monad.{
  M, update, update-update, update-update-update, eq_self, ◌>>=◌, ◌>>◌, read_remote, write_remote,
  alloc_remote, on_remote, free_remote, lock_remotes, primitives,
}
use usbfluxd.Remote.IdMap.{set_remote_id_used, get_new_remote_id}
use usbfluxd.Remote.Output.{Version, create_plist_message, remote_send_plist_pkt}
use usbfluxd.Remote.Connect.{reply_buf_size, new_remote, remote_mux_new_with_host}
use usbfluxd.Remote.Service.{
  AddResult, note_listen, same_service, find_remote, remote_send_listen_packet, discard_remote,
  accept_remote, remote_mux_service_add,
}

-- The remote that an instance is connected by, before and after it has its id.
abbrev pub connected : ℕ → ℕ → CString → ℕ → RemoteMux
connected now fd host port = record (new_remote fd now) { host = some host; port = port }

abbrev pub registered : CString → ℕ → RemoteMux → RemoteMux
registered name id r = record r { id = id; service_name = some name; is_listener = true }

pub new_buffer :
    (fd now : ℕ)
    → IsValid (new_remote fd now).ob
      × (queued (new_remote fd now).ob ≡ [])
      × ((new_remote fd now).ob.capacity ≡ reply_buf_size)
unfolding new_remote
new_buffer fd now = (
  (malloc-IsValid reply_buf_size (omega arith)).0,
  (malloc-IsValid reply_buf_size (omega arith)).1,
  capacity-malloc reply_buf_size,
)

module _ {Plist : Type 0} ⦃lib : LibPlist Plist⦄ ⦃env : Env⦄ where
  -- The remotes of a list are live, and none of them passes a test.
  pub data Absent (w : World Plist) (test : RemoteMux → M (World Plist) Bool)
      : List Ptr → Type 0 where
    none_there : Absent w test []
    absent :
        (p : Ptr) (ps : List Ptr) (r : RemoteMux)
        → w.remotes p ≡ some r
        → ((v : World Plist) → test r v ≡ some (false, v))
        → Absent w test ps
        → Absent w test (p ∷ ps)

  pub Absent-find :
      (w : World Plist) (test : RemoteMux → M (World Plist) Bool) (ps : List Ptr)
      → Absent w test ps
      → (b : Bool)
      → find_remote test ps (record w { remote_list_mutex = b })
        ≡ some (none, record w { remote_list_mutex = b })
  unfolding find_remote primitives
  Absent-find w test [] none_there b = refl
  Absent-find w test (p ∷ ps) (absent _ _ r live misses rest) b =
      rw (find_remote, ◌>>=◌, read_remote, live, misses) (Absent-find w test ps rest b)

  -- The world with a new instance.
  unfoldable pub with_instance : World Plist → ℕ → RemoteMux → World Plist
  with_instance w id r = record w {
    remotes = update w.remotes w.next (some r);
    next = suc w.next;
    remote_list = Collection.add w.remote_list w.next;
    remote_id_map = set_remote_id_used w.remote_id_map id true;
    remote_list_mutex = false;
  }

  -- An instance that cannot be reached, and one for which there is no id, are not added.
  pub service_add-unreachable :
      ⦃v : Version⦄
      → (name host : CString) (port : ℕ) (w : World Plist)
      → Absent w (same_service name host port) (Collection.elements w.remote_list)
      → w.remote_list_mutex ≡ false
      → env.host_fd host port ≡ none
      → remote_mux_service_add name host port w
        ≡ some (AddResult.add_failed, record w { remote_list_mutex = false })
  unfolding remote_mux_service_add remote_mux_new_with_host primitives
  service_add-unreachable name host port w missing free lost =
      rw
        (
          remote_mux_service_add,
          ◌>>=◌,
          ◌>>◌,
          lock_remotes,
          free,
          Absent-find w _ _ missing true,
          remote_mux_new_with_host,
          lost,
        )
        refl

  pub service_add-full :
      ⦃v : Version⦄
      → (name host : CString) (port fd : ℕ) (w : World Plist)
      → Absent w (same_service name host port) (Collection.elements w.remote_list)
      → w.remote_list_mutex ≡ false
      → env.host_fd host port ≡ some fd
      → (get_new_remote_id w.remote_id_map == 0) ≡ true
      → remote_mux_service_add name host port w
        ≡ some (
          AddResult.add_failed,
          record w {
            remotes = update w.remotes w.next none;
            next = suc w.next;
            remote_list_mutex = false;
            closed = fd ∷ w.closed;
          },
        )
  unfolding remote_mux_service_add remote_mux_new_with_host discard_remote new_remote primitives
  service_add-full name host port fd w missing free reached full =
      rw
        (
          remote_mux_service_add,
          ◌>>=◌,
          ◌>>◌,
          lock_remotes,
          free,
          Absent-find w _ _ missing true,
          remote_mux_new_with_host,
          reached,
          alloc_remote,
          full,
          discard_remote,
          read_remote,
          eq_self w.next,
          free_remote,
          eq_self w.next,
        )
        (ap
          (λ f. some (
            AddResult.add_failed,
            record w {
              remotes = f;
              next = suc w.next;
              remote_list_mutex = false;
              closed = fd ∷ w.closed;
            },
          ))
          (update-update w.remotes w.next (some (connected env.now fd host port)) none))

  -- The listen packet of a remote, and the note of it.
  pub listen_sent :
      ⦃v : Version⦄
      → (p : Ptr) (w : World Plist) (r r' : RemoteMux) (res : Option ℕ) → w.remotes p ≡ some r
      → remote_send_plist_pkt {Plist = Plist} 0
          (create_plist_message {Plist = Plist} (cstr "Listen"))
          r
        ≡ some (res, r')
      → remote_send_listen_packet p w
        ≡ some (res, record w { remotes = update w.remotes p (some (note_listen res r')) })
  unfolding remote_send_listen_packet primitives
  listen_sent p w r r' res there e =
      rw
        (
          remote_send_listen_packet,
          ◌>>=◌,
          ◌>>◌,
          on_remote,
          there,
          e,
          read_remote,
          eq_self p,
          write_remote,
          eq_self p,
        )
        (ap (λ f. some (res, record w { remotes = f }))
          (update-update w.remotes p (some r') (some (note_listen res r'))))

  pub service_add-accepted :
      ⦃v : Version⦄
      → (name host : CString) (port fd : ℕ) (w : World Plist) (r' : RemoteMux) (res : Option ℕ)
      → Absent w (same_service name host port) (Collection.elements w.remote_list)
      → w.remote_list_mutex ≡ false
      → env.host_fd host port ≡ some fd
      → (get_new_remote_id w.remote_id_map == 0) ≡ false
      → remote_send_plist_pkt {Plist = Plist} 0
          (create_plist_message {Plist = Plist} (cstr "Listen"))
          (registered name (get_new_remote_id w.remote_id_map) (connected env.now fd host port))
        ≡ some (res, r')
      → remote_mux_service_add name host port w
        ≡ some (
          AddResult.added,
          with_instance w (get_new_remote_id w.remote_id_map) (note_listen res r'),
        )
  unfolding remote_mux_service_add remote_mux_new_with_host accept_remote with_instance primitives
  service_add-accepted name host port fd w r' res missing free reached some_id sent =
      let id = get_new_remote_id w.remote_id_map in
      let conn = connected env.now fd host port in
      let reg = registered name id conn in
      let w1 : World Plist = record w {
        remotes = update (update w.remotes w.next (some conn)) w.next (some reg);
        next = suc w.next;
        remote_list = Collection.add w.remote_list w.next;
        remote_id_map = set_remote_id_used w.remote_id_map id true;
        remote_list_mutex = true;
      } in
      rw
        (
          remote_mux_service_add,
          ◌>>=◌,
          ◌>>◌,
          lock_remotes,
          free,
          Absent-find w _ _ missing true,
          remote_mux_new_with_host,
          reached,
          alloc_remote,
          some_id,
          accept_remote,
          read_remote,
          eq_self w.next,
          write_remote,
          eq_self w.next,
          listen_sent w.next w1 reg r' res (rw (eq_self w.next) refl) sent,
          with_instance,
        )
        (ap
          (λ f.
            some
              (AddResult.added, record (with_instance w id (note_listen res r')) { remotes = f }))
          (update-update-update w.remotes w.next (some conn) (some reg)
            (some (note_listen res r'))))
