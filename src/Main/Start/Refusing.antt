-- ===== src/Main/Start/Refusing.antt =====
-- `main`: the runs that end before the daemon is started.
use usbfluxd.Prelude.{◌≡◌, true, false, Option, none, some, arith}
use usbfluxd.Main.Options.{Options}
use usbfluxd.Main.Start.{
  SocketFile, Files, Outcomes, connects, check_sockets, after_check, restore, start, begin, main,
}

-- Why `main` gives up: it is not root, another daemon serves the socket file while usbmuxd's is moved, or
-- there is no usbmuxd and the option -n is not given.
pub data MustRefuse (opts : Options) (o : Outcomes) (files : Files) : Type 0 where
  not_root : o.is_root ≡ false → MustRefuse opts o files
  taken : connects files.renamed ≡ true → connects files.socket ≡ true → MustRefuse opts o files
  no_usbmuxd :
      files.renamed ≡ none
      → connects files.socket ≡ false
      → opts.opt_no_usbmuxd ≡ false
      → MustRefuse opts o files

refuses :
    (opts : Options) (o : Outcomes) (ren sock : Option SocketFile)
    → connects ren ≡ true
    → connects sock ≡ true
    → main opts o (record { renamed = ren; socket = sock })
      ≡ (0, record { renamed = ren; socket = sock })
unfolding main connects restore start begin after_check check_sockets
refuses opts o none sock a b = cc
refuses opts o (some f) none a b = cc
refuses opts o (some f) (some g) a b = ground (arith, a, b)

refuses_absent :
    (opts : Options) (o : Outcomes) (sock : Option SocketFile)
    → connects sock ≡ false
    → opts.opt_no_usbmuxd ≡ false
    → main opts o (record { renamed = none; socket = sock })
      ≡ (0, record { renamed = none; socket = sock })
unfolding main connects restore start begin after_check check_sockets
refuses_absent opts o none a b = ground (arith, a, b)
refuses_absent opts o (some g) a b = ground (arith, a, b)

-- Where the daemon is not root, another daemon serves the socket file while usbmuxd's is moved, or no
-- usbmuxd answers, none was moved and -n is not given: `main` changes no file, and its exit status is
-- 0, that of a success, although the log says that it is fatal.
pub main-refuses :
    (opts : Options) (o : Outcomes) (files : Files)
    → MustRefuse opts o files
    → main opts o files ≡ (0, files)
unfolding main start restore begin
main-refuses opts o files (not_root e) = ground (arith, e)
main-refuses opts o files (taken a b) = refuses opts o files.renamed files.socket a b
main-refuses opts o files (no_usbmuxd e a b) =
    let same : files ≡ record { renamed = none; socket = files.socket } = ground (arith, e) in
    rw same (refuses_absent opts o files.socket a b)
