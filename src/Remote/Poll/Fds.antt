-- ===== src/Remote/Poll/Fds.antt =====
-- `usbmux_remote_get_fds` adds every remote, once and in order.
use usbfluxd.Prelude.{
  ℕ, ◌≡◌, refl, ap, ◌∙◌, sym, Bool, true, false, Option, none, some, List, [], ◌∷◌, ◌++◌, arith,
  Bool-cases, inl, inr,
}
use mathlib.Core.Path.{subst}
use mathlib.Core.List.{append-nil, append_assoc}
use usbfluxd.System.{Env, no_events}
use usbfluxd.Utils.Collection
use usbfluxd.Utils.Collection.{Ptr}
use usbfluxd.Utils.FdList.{FdList, FdOwner, PollFd}
use usbfluxd.Utils.FdList.Polled
use usbfluxd.Utils.FdList.Polled.{polled, fdlist_add-polled}
use usbfluxd.World.{World, RemoteMux}
use usbfluxd.World.Monad.{update, ◌>>=◌, ◌>>◌, read_remote, write_remote, lock_remotes, primitives}
use usbfluxd.Remote.Poll.{Check, is_stale, check_of, add_remote, add_remotes, usbmux_remote_get_fds}

-- A remote without the time of its last use.
abbrev pub timeless : Option RemoteMux → Option RemoteMux
timeless none = none
timeless (some r) = some (record r { last_active = 0 })

abbrev entry_of : RemoteMux → FdOwner × PollFd
entry_of r = (FdOwner.fd_remote, record { fd = r.fd; events = r.events; revents = no_events })

same_entry : (r r' : RemoteMux) → timeless (some r') ≡ timeless (some r) → entry_of r' ≡ entry_of r
same_entry r r' e = ground (arith, e)

module _ {Plist : Type 0} where
  -- The remotes of a list are live; these are their descriptors and events.
  pub data RemoteFds (w : World Plist) : List Ptr → List (FdOwner × PollFd) → Type 0 where
    no_remote : RemoteFds w [] []
    next_remote :
        (p : Ptr) (ps : List Ptr) (r : RemoteMux) (rest : List (FdOwner × PollFd))
        → w.remotes p ≡ some r
        → RemoteFds w ps rest
        → RemoteFds w (p ∷ ps) (
            (FdOwner.fd_remote, record { fd = r.fd; events = r.events; revents = no_events })
            ∷ rest)

  -- Only the times of the remotes differ.
  pub record SameButTimes (w w' : World Plist) : Type 0 where
    pub remotes_same : (p : Ptr) → timeless (w'.remotes p) ≡ timeless (w.remotes p)
    pub rest_same : w' ≡ record w { remotes = w'.remotes }

  RemoteFds-same :
      (w w' : World Plist) (ps : List Ptr) (fds : List (FdOwner × PollFd))
      → SameButTimes w w'
      → RemoteFds w ps fds
      → RemoteFds w' ps fds
  RemoteFds-same w w' [] fds s no_remote = no_remote
  RemoteFds-same w w' (p ∷ ps) fds s (next_remote _ _ r rest live more) =
      go (w'.remotes p) refl (RemoteFds-same w w' ps rest s more)
    where
      go :
          (o : Option RemoteMux)
          → w'.remotes p ≡ o
          → RemoteFds w' ps rest
          → RemoteFds w' (p ∷ ps) (entry_of r ∷ rest)
      go none e more' = absurd (ground (arith, e, live, s.remotes_same p))
      go (some r') e more' =
          let same : timeless (some r') ≡ timeless (some r) =
            ap timeless (sym e) ∙ (s.remotes_same p ∙ ap timeless live) in
          subst (λ x. RemoteFds w' (p ∷ ps) (x ∷ rest)) (same_entry r r' same)
            (next_remote p ps r' rest e more')

  RemoteFds-locked :
      (w : World Plist) (ps : List Ptr) (fds : List (FdOwner × PollFd))
      → RemoteFds w ps fds
      → RemoteFds (record w { remote_list_mutex = true }) ps fds
  RemoteFds-locked w [] fds no_remote = no_remote
  RemoteFds-locked w (p ∷ ps) fds (next_remote _ _ r rest live more) =
      next_remote p ps r rest live (RemoteFds-locked w ps rest more)

  SameButTimes_trans :
      (w1 w2 w3 : World Plist) → SameButTimes w1 w2 → SameButTimes w2 w3 → SameButTimes w1 w3
  SameButTimes_trans w1 w2 w3 a b = record {
    remotes_same = λ p. b.remotes_same p ∙ a.remotes_same p;
    rest_same =
        b.rest_same ∙ ap (λ (w : World Plist). record w { remotes = w3.remotes }) a.rest_same;
  }

  touched-same :
      (w : World Plist) (p : Ptr) (r : RemoteMux) (now : ℕ)
      → w.remotes p ≡ some r
      → SameButTimes w
          (record w { remotes = update w.remotes p (some (record r { last_active = now })) })
  touched-same w p r now live = record {
    remotes_same = λ q. ground (arith, live);
    rest_same = refl;
  }

module _ {Plist : Type 0} ⦃env : Env⦄ where
  -- What a loop over remotes gives.
  pub record Polls (w : World Plist) (list : FdList) (fds : List (FdOwner × PollFd))
      (res : Option ((List Check × FdList) × World Plist)) : Type 0 where
    pub checks : List Check
    pub list' : FdList
    pub after : World Plist
    pub result : res ≡ some ((checks, list'), after)
    pub valid : Polled.IsValid list'
    pub added : polled list' ≡ polled list ++ fds
    pub same : SameButTimes w after

  add_remote-polled :
      (p : Ptr) (checks : List Check) (list : FdList) (w : World Plist) (r : RemoteMux)
      → w.remotes p ≡ some r
      → Polled.IsValid list
      → Polls w list (entry_of r ∷ []) (add_remote p checks list w)
  unfolding add_remote primitives
  add_remote-polled p checks list w r live v =
      let (list', e, valid, added) = fdlist_add-polled FdOwner.fd_remote r.fd r.events v in
      elim (Bool-cases (is_stale env.now r)) [
        | inl stale ↦ record {
          checks = check_of r ++ checks;
          list' = list';
          after = record w {
            remotes = update w.remotes p (some (record r { last_active = env.now }));
          };
          result =
              rw (add_remote, ◌>>=◌, ◌>>◌, read_remote, live, stale, write_remote, live, e, stale)
                refl;
          valid = valid;
          added = added;
          same = touched-same w p r env.now live;
        }
        | inr fresh ↦ record {
          checks = checks;
          list' = list';
          after = w;
          result = rw (add_remote, ◌>>=◌, ◌>>◌, read_remote, live, fresh, e, fresh) refl;
          valid = valid;
          added = added;
          same = record { remotes_same = λ q. refl; rest_same = refl };
        }
      ]

  add_remotes-polled :
      (ps : List Ptr) (fds : List (FdOwner × PollFd)) (checks : List Check) (list : FdList)
      (w : World Plist)
      → RemoteFds w ps fds
      → Polled.IsValid list
      → Polls w list fds (add_remotes ps checks list w)
  unfolding add_remotes
  add_remotes-polled [] fds checks list w no_remote v = record {
    checks = checks;
    list' = list;
    after = w;
    result = refl;
    valid = v;
    added = sym (append-nil (polled list));
    same = record { remotes_same = λ q. refl; rest_same = refl };
  }
  add_remotes-polled (p ∷ ps) fds checks list w (next_remote _ _ r rest live more) v =
      let a = add_remote-polled p checks list w r live v in
      let b =
        add_remotes-polled ps rest a.checks a.list' a.after
          (RemoteFds-same w a.after ps rest a.same more) a.valid in
      record {
        checks = b.checks;
        list' = b.list';
        after = b.after;
        result = rw (add_remotes, ◌>>=◌, a.result) b.result;
        valid = b.valid;
        added = b.added ∙ ap (λ xs. xs ++ rest) a.added ∙ append_assoc (polled list) _ rest;
        same = SameButTimes_trans w a.after b.after a.same b.same;
      }

  -- `usbmux_remote_get_fds` on a valid list, where all remotes of the list are live and no thread holds
  -- the mutex: it does not fault, adds the descriptor and the events of each remote in the order of the
  -- list, keeps the entries that are there, and changes nothing but the times of the remotes.
  pub usbmux_remote_get_fds-polled :
      (w : World Plist) (fds : List (FdOwner × PollFd)) (list : FdList)
      → RemoteFds w (Collection.elements w.remote_list) fds
      → Polled.IsValid list
      → w.remote_list_mutex ≡ false
      → Polls w list fds (usbmux_remote_get_fds list w)
  unfolding usbmux_remote_get_fds primitives
  usbmux_remote_get_fds-polled w fds list live v free =
      let w1 : World Plist = record w { remote_list_mutex = true } in
      let a =
        add_remotes-polled (Collection.elements w.remote_list) fds [] list w1
          (RemoteFds-locked w _ fds live) v in
      record {
        checks = a.checks;
        list' = a.list';
        after = record a.after { remote_list_mutex = false };
        result = rw (usbmux_remote_get_fds, ◌>>=◌, ◌>>◌, lock_remotes, free, a.result) refl;
        valid = a.valid;
        added = a.added;
        same = record {
          remotes_same = a.same.remotes_same;
          rest_same =
              ap (λ (u : World Plist). record u { remote_list_mutex = false }) a.same.rest_same
              ∙ ap (λ (b : Bool). record w { remotes = a.after.remotes; remote_list_mutex = b })
                  (sym free);
        };
      }
