-- ===== src/Main/Options.antt =====
-- `parse_opts` of usbfluxd/main.c.
use usbfluxd.Prelude.{ℕ, ◌+◌, ◌%◌, ◌^◌, Bool, true, false, Option, none, some, List, [], ◌∷◌}
use usbfluxd.Text.{CString}
use usbfluxd.Address.{host_and_port}

-- What `getopt_long` returns, one after another; `bad_option` is any other character.
pub data Opt : Type 0 where
  help foreground verbose version no_usbmuxd no_mdns bad_option : Opt
  remote : CString → Opt

-- The static variables that the options set.
pub record Options : Type 0 where
  pub foreground : Bool
  pub opt_no_usbmuxd : Bool
  pub opt_no_mdns : Bool
  pub verbose : ℕ
  pub remote : Option (CString × ℕ)

abbrev pub no_options : Options
no_options = record {
  foreground = false;
  opt_no_usbmuxd = false;
  opt_no_mdns = false;
  verbose = 1;
  remote = none;
}

-- The program exits with a status, or goes on.
pub data Parsed : Type 0 where
  exits : ℕ → Parsed
  goes_on : Options → Parsed

-- The port is a `uint16_t`; a second -r replaces the first.
pub set_remote : CString → Options → Options
set_remote arg o =
    let (host, port) = host_and_port arg in record o { remote = some (host, port % 2 ^ 16) }

pub parse_opts : List Opt → Options → Parsed
unfolding set_remote
parse_opts [] o = goes_on o
parse_opts (Opt.help ∷ opts) o = exits 0
parse_opts (Opt.foreground ∷ opts) o = parse_opts opts (record o { foreground = true })
parse_opts (Opt.verbose ∷ opts) o = parse_opts opts (record o { verbose = o.verbose + 1 })
parse_opts (Opt.version ∷ opts) o = exits 0
parse_opts (Opt.no_usbmuxd ∷ opts) o = parse_opts opts (record o { opt_no_usbmuxd = true })
parse_opts (Opt.no_mdns ∷ opts) o = parse_opts opts (record o { opt_no_mdns = true })
parse_opts (Opt.remote arg ∷ opts) o = parse_opts opts (set_remote arg o)
parse_opts (Opt.bad_option ∷ opts) o = exits 2
