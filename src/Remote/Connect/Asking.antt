-- ===== src/Remote/Connect/Asking.antt =====
-- A remote that was opened for a client's request is asked, and told which client waits.
use usbfluxd.Prelude.{
  ℕ, ◌+◌, ◌^◌, ◌<◌, ◌≤◌, ◌≡◌, refl, ap, ◌∙◌, inl, inr, true, false, ltb, Option, none, some, List,
  ◌++◌, length, arith, Bool-cases,
}
use usbfluxd.Proto.{int_mod, header_size, message_plist}
use usbfluxd.Proto.RoundTrip.{as_int-some, as_int-none}
use usbfluxd.Buffer.{new_size, queued}
use usbfluxd.Utils.Collection.{Ptr}
use usbfluxd.System.{LibPlist, Env, set_pollout}
use usbfluxd.World.{RemoteCommand, World, MuxClient, RemoteMux}
use usbfluxd.World.Monad.{
  M, update-update, update-update-update, eq_self, ◌>>=◌, ◌>>◌, read_remote, write_remote,
  on_remote, primitives,
}
use usbfluxd.Remote.Output.{remote_send_pkt, remote_send_plist_pkt}
use usbfluxd.Remote.Output.Queueing.{packet, remote_send_pkt-Sends}
use usbfluxd.Remote.Connect.{sent_to}
use usbfluxd.Remote.Connect.Routing.{Route}
use usbfluxd.Remote.Connect.Forwarding.{linked, Route-Fresh}

module _ {Plist : Type 0} ⦃lib : LibPlist Plist⦄ ⦃env : Env⦄ where
  -- A remote was linked to a client and asked: the request is its only output, its command is noted
  -- and its client is set; or `realloc` failed, and the remote has no client; or the packet is that long
  -- that the result is negative: it is queued, and the remote has no client.
  pub data Asked (w : World Plist) (client : Ptr) (c : MuxClient Plist) (r : RemoteMux)
      (cmd : RemoteCommand) (tag : ℕ) (xml : List ℕ)
      (res : Option (Option (Unit {0}) × World Plist)) : Type 0 where
    asked :
        (r' : RemoteMux)
        → queued r'.ob ≡ packet tag message_plist xml
        → r' ≡ record r {
          ob = r'.ob;
          events = set_pollout r.events;
          last_command = cmd;
          client = some client;
        }
        → res ≡ some (some tt, linked w client c r')
        → Asked w client c r cmd tag xml res
    overlong :
        (r' : RemoteMux)
        → int_mod ≤ header_size + length xml
        → queued r'.ob ≡ packet tag message_plist xml
        → r' ≡ record r { ob = r'.ob; events = set_pollout r.events }
        → res ≡ some (none, linked w client c r')
        → Asked w client c r cmd tag xml res
    lost :
        env.can_alloc (new_size r.ob.capacity (header_size + length xml)) ≡ false
        → res ≡ some (none, linked w client c r)
        → Asked w client c r cmd tag xml res

  -- The send and what follows it.
  abbrev pub ask : Ptr → Ptr → RemoteCommand → ℕ → Plist → M (World Plist) (Option (Unit {0}))
  ask p client cmd tag msg = on_remote p (remote_send_plist_pkt tag msg) >>= sent_to p client cmd

  ask-some :
      (w : World Plist) (client : Ptr) (c : MuxClient Plist) (r r' : RemoteMux)
      (cmd : RemoteCommand) (tag n : ℕ) (msg : Plist)
      → ltb 0 n ≡ true
      → remote_send_plist_pkt tag msg r ≡ some (some n, r')
      → ask w.next client cmd tag msg (linked w client c r)
        ≡ some (some tt, linked w client c (record r' { last_command = cmd; client = some client }))
  unfolding sent_to linked primitives
  ask-some w client c r r' cmd tag n msg pos e =
      rw
        (
          ◌>>=◌,
          linked,
          on_remote,
          eq_self w.next,
          e,
          sent_to,
          pos,
          ◌>>◌,
          read_remote,
          linked,
          eq_self w.next,
          write_remote,
          eq_self w.next,
        )
        (ap (λ f. some (some tt, record (linked w client c r) { remotes = f }))
          (update-update-update w.remotes w.next (some r) (some r')
            (some (record r' { last_command = cmd; client = some client }))))

  ask-none :
      (w : World Plist) (client : Ptr) (c : MuxClient Plist) (r r' : RemoteMux)
      (cmd : RemoteCommand) (tag : ℕ) (msg : Plist)
      → remote_send_plist_pkt tag msg r ≡ some (none, r')
      → ask w.next client cmd tag msg (linked w client c r) ≡ some (none, linked w client c r')
  unfolding sent_to linked primitives
  ask-none w client c r r' cmd tag msg e =
      rw (◌>>=◌, linked, on_remote, eq_self w.next, e, sent_to)
        (ap (λ f. some (none, record (linked w client c r) { remotes = f }))
          (update-update w.remotes w.next (some r) (some r')))

  send_xml :
      (tag : ℕ) (plist : Plist) (xml : List ℕ) (r : RemoteMux)
      → lib.to_xml plist ≡ some xml
      → remote_send_plist_pkt tag plist r ≡ remote_send_pkt tag message_plist xml r
  unfolding remote_send_plist_pkt
  send_xml tag plist xml r e = rw (remote_send_plist_pkt, e) refl

  pub ask-Asked :
      (w : World Plist) (client : Ptr) (c : MuxClient Plist) (id : ℕ) (r : RemoteMux)
      (cmd : RemoteCommand) (tag : ℕ) (msg : Plist) (xml : List ℕ)
      → Route w id r
      → lib.to_xml msg ≡ some xml
      → length xml < 2 ^ 31
      → Asked w client c r cmd tag xml (ask w.next client cmd tag msg (linked w client c r))
  ask-Asked w client c id r cmd tag msg xml route made small =
      let fresh = Route-Fresh w id r route in
      elim (remote_send_pkt-Sends tag message_plist xml r fresh.valid
        (omega (arith, fresh.capacity)) small) [
          | inl (e, full) ↦
              lost full (ask-none w client c r r cmd tag msg (send_xml tag msg xml r made ∙ e))
          | inr (r', e, q) ↦
              let sent = send_xml tag msg xml r made ∙ e in
              let out =
                q.appended ∙ ap (λ bytes. bytes ++ packet tag message_plist xml) fresh.empty in
              elim (Bool-cases (ltb (header_size + length xml) int_mod)) [
                | inl fits ↦
                    asked (record r' { last_command = cmd; client = some client }) out
                      (ap (λ (s : RemoteMux). record s { last_command = cmd; client = some client })
                        q.same)
                      (ask-some w client c r r' cmd tag (header_size + length xml) msg
                        (ground arith)
                        (sent ∙ ap (λ n. some (n, r')) (as_int-some _ (ground (arith, fits)))))
                | inr beyond ↦ overlong r' (ground (arith, beyond)) out q.same (
                    ask-none w client c r r' cmd tag msg
                      (sent ∙ ap (λ n. some (n, r')) (as_int-none _ (ground (arith, beyond)))))
              ]
        ]
