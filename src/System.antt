-- ===== src/System.antt =====
-- What the daemon calls and does not implement: libplist, and the system calls that it makes while
-- it handles one event.
use Prim.Native.Nat.{min}
use usbfluxd.Text.{CString}
use usbfluxd.Prelude.{ℕ, Bool, true, false, ◌||◌, Option, List, take}
use mathlib.Core.Option

-- libplist. A node is a value: a lookup that hands out a pointer into a node and a later change
-- through that pointer are a lookup and a change of the whole node here.
pub data NodeType : Type 0 where
  dict_node array_node string_node uint_node bool_node other_node : NodeType

pub record LibPlist (Plist : Type 0) : Type 0 where
  pub from_xml : List ℕ → Option Plist
  pub to_xml : Plist → Option (List ℕ)
  pub node_type : Plist → NodeType
  pub new_dict : Plist
  pub new_array : Plist
  pub new_string : CString → Plist
  pub new_uint : ℕ → Plist
  pub new_bool : Bool → Plist
  pub dict_get_item : Plist → CString → Option Plist
  pub dict_set_item : Plist → CString → Plist → Plist
  pub dict_remove_item : Plist → CString → Plist
  -- What an iterator of the dictionary yields, in order.
  pub dict_items : Plist → List (CString × Plist)
  pub array_append_item : Plist → Plist → Plist
  pub array_items : Plist → List Plist
  -- `none` where the node is of another type, so that the out parameter is left alone.
  pub get_string_val : Plist → Option CString
  pub get_uint_val : Plist → Option ℕ

-- A set of poll flags: `events`, `devents` and `revents`.
pub record Events : Type 0 where
  pub pollin : Bool
  pub pollout : Bool
  pub pollerr : Bool
  pub pollhup : Bool
  pub pollnval : Bool

abbrev pub no_events : Events
no_events = record {
  pollin = false;
  pollout = false;
  pollerr = false;
  pollhup = false;
  pollnval = false;
}

abbrev pub pollin_only : Events
pollin_only = record no_events { pollin = true }

abbrev pub pollout_only : Events
pollout_only = record no_events { pollout = true }

-- `a | b`.
unfoldable pub or_events : Events → Events → Events
or_events a b = record {
  pollin = a.pollin || b.pollin;
  pollout = a.pollout || b.pollout;
  pollerr = a.pollerr || b.pollerr;
  pollhup = a.pollhup || b.pollhup;
  pollnval = a.pollnval || b.pollnval;
}

-- `events |= POLLIN`, `events |= POLLOUT`, and the two with `&= ~`.
abbrev pub set_pollin : Events → Events
set_pollin e = record e { pollin = true }

abbrev pub set_pollout : Events → Events
set_pollout e = record e { pollout = true }

abbrev pub clear_pollin : Events → Events
clear_pollin e = record e { pollin = false }

abbrev pub clear_pollout : Events → Events
clear_pollout e = record e { pollout = false }

-- The outcomes of the system calls of one event. No handler makes two calls of `recv`, two calls of
-- `send` or two connections for one event.
pub record Env : Type 0 where
  -- What is there to be read: `none` if `recv` fails, no bytes if the peer has closed.
  pub incoming : Option (List ℕ)
  -- How many bytes `send` is ready to take, or `none` if it fails.
  pub writable : Option ℕ
  -- Whether `realloc` of this many bytes succeeds.
  pub can_alloc : ℕ → Bool
  -- The descriptor of a connection to the renamed socket of the local usbmuxd, if one is made.
  pub unix_fd : Option ℕ
  -- The same for a host and a port.
  pub host_fd : CString → ℕ → Option ℕ
  -- The descriptor that `accept` returns.
  pub accepted_fd : Option ℕ
  -- The clock, in milliseconds.
  pub now : ℕ

-- `recv` delivers at most as many bytes as it was asked for.
unfoldable pub recv : Env → ℕ → Option (List ℕ)
recv env len = Option.map (take len) env.incoming

-- `send` takes at most as many bytes as it was given.
unfoldable pub send : Env → ℕ → Option ℕ
send env len = Option.map (λ n. min n len) env.writable
