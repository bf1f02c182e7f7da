-- ===== src/Main/Start/Restore.antt =====
-- `main`: the socket file of a running usbmuxd is in its place at the end.
use usbfluxd.Prelude.{
  ℕ, ◌≡◌, refl, sym, ◌⊎◌, inl, inr, true, false, Option, none, some, arith, Bool-cases,
}
use mathlib.Core.Path.{subst}
use usbfluxd.Main.Options.{Options}
use usbfluxd.Main.Start.{
  SocketFile, Files, Outcomes, Run, Checked, is_there, connects, check_sockets, check_both,
  check_original, rename_original, create_socket, serve, detach, restore, after_rename, after_check,
  start, begin, main,
}

-- A usbmuxd answers on one of the two socket files, and nothing answers on the other.
pub data IsRunning (f : SocketFile) (files : Files) : Type 0 where
  in_place :
      (other : Option SocketFile)
      → connects other ≡ false
      → files ≡ record { renamed = other; socket = some f }
      → IsRunning f files
  moved :
      (other : Option SocketFile)
      → connects other ≡ false
      → files ≡ record { renamed = some f; socket = other }
      → IsRunning f files

-- Its socket file is where `terminate` will put it from, or in its place.
data IsKept (f : SocketFile) (r : Run) : Type 0 where
  renamed_away : r.renamed ≡ true → r.files.renamed ≡ some f → IsKept f r
  untouched : r.renamed ≡ false → r.files.socket ≡ some f → r.files.renamed ≡ none → IsKept f r

-- The same after a step; going on without having renamed it, the daemon will.
data StepKept (f : SocketFile) : Checked → Type 0 where
  ended : (res : ℕ) (r : Run) → IsKept f r → StepKept f (Checked.terminates res r)
  went_on :
      (r : Run)
      → IsKept f r
      → (r.renamed ≡ true) ⊎ (r.opt_no_usbmuxd ≡ false)
      → StepKept f (Checked.continues r)

check_in_place :
    (f : SocketFile) (other : Option SocketFile) (opts : Options)
    → f.live ≡ true
    → connects other ≡ false
    → StepKept f (check_sockets (begin opts (record { renamed = other; socket = some f })))
unfolding check_sockets check_both check_original is_there connects begin
check_in_place f none opts live stale = rw live (went_on _ (untouched refl refl refl) (inr refl))
check_in_place f (some g) opts live stale = rw (stale, live) (ended 0 _ (untouched refl refl refl))

check_moved :
    (f : SocketFile) (other : Option SocketFile) (opts : Options)
    → f.live ≡ true
    → connects other ≡ false
    → StepKept f (check_sockets (begin opts (record { renamed = some f; socket = other })))
unfolding check_sockets check_both check_original is_there connects begin
check_moved f none opts live stale = rw live (went_on _ (renamed_away refl refl) (inl refl))
check_moved f (some g) opts live stale =
    rw (live, stale) (went_on _ (renamed_away refl refl) (inl refl))

check_sockets-IsKept :
    (f : SocketFile) (files : Files) (opts : Options)
    → f.live ≡ true
    → IsRunning f files
    → StepKept f (check_sockets (begin opts files))
check_sockets-IsKept f files opts live (in_place other stale e) =
    rw e (check_in_place f other opts live stale)
check_sockets-IsKept f files opts live (moved other stale e) =
    rw e (check_moved f other opts live stale)

-- After the renaming, the daemon ends or has the file at the other place.
data RenameKept (f : SocketFile) : Checked → Type 0 where
  gave_up : (res : ℕ) (r : Run) → IsKept f r → RenameKept f (Checked.terminates res r)
  away :
      (r : Run) → r.renamed ≡ true → r.files.renamed ≡ some f → RenameKept f (Checked.continues r)

rename-IsKept :
    (f : SocketFile) (o : Outcomes) (r : Run)
    → IsKept f r
    → (r.renamed ≡ true) ⊎ (r.opt_no_usbmuxd ≡ false)
    → RenameKept f (rename_original o r)
unfolding rename_original is_there
rename-IsKept f o r (renamed_away moved_ there) _ =
    let same : rename_original o r ≡ Checked.continues r = ground (arith, moved_) in
    subst (RenameKept f) (sym same) (away r moved_ there)
rename-IsKept f o r (untouched not_moved there gone) (inl moved_) = cc
rename-IsKept f o r (untouched not_moved there gone) (inr wanted) = elim (Bool-cases o.can_rename) [
  | inl can ↦
      let r' : Run = record r {
        files = record { renamed = r.files.socket; socket = none };
        renamed = true;
      } in
      let e : rename_original o r ≡ Checked.continues r' =
        ground (arith, not_moved, wanted, can, there) in
      subst (RenameKept f) (sym e) (away r' refl there)
  | inr cannot ↦
      let e : rename_original o r ≡ Checked.terminates 0 r =
        ground (arith, not_moved, wanted, cannot) in
      subst (RenameKept f) (sym e) (gave_up 0 r (untouched not_moved there gone))
]

serve-IsKept :
    (f : SocketFile) (opts : Options) (o : Outcomes) (r : Run)
    → r.renamed ≡ true
    → r.files.renamed ≡ some f
    → IsKept f (detach opts o r).1
unfolding detach serve create_socket
serve-IsKept f opts o r moved_ there =
    let still : (detach opts o r).1.renamed ≡ true = ground (arith, moved_) in
    let still_there : (detach opts o r).1.files.renamed ≡ some f = ground (arith, there) in
    renamed_away still still_there

restore-IsKept :
    (f : SocketFile) (o : Outcomes) (r : Run)
    → o.can_restore ≡ true
    → IsKept f r
    → restore o r ≡ record { renamed = none; socket = some f }
unfolding restore is_there
restore-IsKept f o r can (renamed_away moved_ there) = ground (arith, can, moved_, there)
restore-IsKept f o r can (untouched not_moved there gone) = ground (arith, not_moved, there, gone)

after_rename-IsKept :
    (f : SocketFile) (opts : Options) (o : Outcomes) (c : Checked)
    → RenameKept f c
    → IsKept f (after_rename opts o c).1
unfolding after_rename
after_rename-IsKept f opts o _ (gave_up res r k) = k
after_rename-IsKept f opts o _ (away r moved_ there) = serve-IsKept f opts o r moved_ there

after_check-IsKept :
    (f : SocketFile) (opts : Options) (o : Outcomes) (c : Checked)
    → StepKept f c
    → IsKept f (after_check opts o c).1
unfolding after_check
after_check-IsKept f opts o _ (ended res r k) = k
after_check-IsKept f opts o _ (went_on r k wants) =
    after_rename-IsKept f opts o (rename_original o r) (rename-IsKept f o r k wants)

start-IsKept :
    (f : SocketFile) (opts : Options) (o : Outcomes) (files : Files)
    → f.live ≡ true
    → IsRunning f files
    → o.is_root ≡ true
    → IsKept f (start opts o (begin opts files)).1
unfolding start
start-IsKept f opts o files live running root =
    let e : start opts o (begin opts files)
        ≡ after_check opts o (check_sockets (begin opts files)) =
      rw (start, root) refl in
    subst (λ (p : ℕ × Run). IsKept f p.1) (sym e)
      (after_check-IsKept f opts o (check_sockets (begin opts files))
        (check_sockets-IsKept f files opts live running))

-- Where one usbmuxd answers, at the place of its socket file or where an earlier run left the file, and
-- nothing answers at the other place: whatever the options are and however the run of a daemon that is
-- root ends, the file is back in its place, unless the last `rename` fails, and nothing is left at the
-- other place.
pub main-restores :
    (f : SocketFile) (opts : Options) (o : Outcomes) (files : Files)
    → f.live ≡ true
    → IsRunning f files
    → o.is_root ≡ true
    → o.can_restore ≡ true
    → (main opts o files).1 ≡ record { renamed = none; socket = some f }
unfolding main
main-restores f opts o files live running root can =
    restore-IsKept f o (start opts o (begin opts files)).1 can
      (start-IsKept f opts o files live running root)
