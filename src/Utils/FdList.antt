-- ===== src/Utils/FdList.antt =====
-- The list of descriptors for `poll` of usbfluxd/utils.c: `struct fdlist` and its operations.
pub mod Polled
use usbfluxd.Prelude.{
  ℕ, ◌+◌, ◌*◌, ◌==◌, ltb, ◌&&◌, if◌then◌else◌, Option, none, some, List, [], ◌++◌, length, set,
  replicate,
}
use usbfluxd.System.{Events, no_events}

-- `enum fdowner`.
pub data FdOwner : Type 0 where
  fd_listen fd_client fd_usb fd_usbmux fd_remote : FdOwner

-- `struct pollfd`.
pub record PollFd : Type 0 where
  pub fd : ℕ
  pub events : Events
  pub revents : Events

-- `struct fdlist`. `realloc` of these arrays does not fail.
pub record FdList : Type 0 where
  pub count : ℕ
  pub capacity : ℕ
  pub owners : List FdOwner
  pub fds : List PollFd

-- What a new element of the arrays is read as before it is written.
abbrev pub blank : PollFd
blank = record { fd = 0; events = no_events; revents = no_events }

unfoldable pub fdlist_create : FdList
fdlist_create = record {
  count = 0;
  capacity = 4;
  owners = replicate 4 fd_listen;
  fds = replicate 4 blank;
}

-- Full arrays become twice as long.
pub enlarged : FdList → FdList
enlarged list =
    if list.count == list.capacity
    then record list {
      capacity = list.capacity * 2;
      owners = list.owners ++ replicate list.capacity fd_listen;
      fds = list.fds ++ replicate list.capacity blank;
    }
    else list

-- The writes behind the elements that are there; `none` is a write outside the arrays.
pub write_last : FdOwner → ℕ → Events → FdList → Option FdList
write_last owner fd events list =
    if ltb list.count (length list.owners) && ltb list.count (length list.fds)
    then some (record list {
      owners = set list.owners list.count owner;
      fds = set list.fds list.count (record { fd = fd; events = events; revents = no_events });
      count = list.count + 1;
    })
    else none

pub fdlist_add : FdOwner → ℕ → Events → FdList → Option FdList
unfolding enlarged write_last
fdlist_add owner fd events list = write_last owner fd events (enlarged list)

pub fdlist_free : FdList → FdList
fdlist_free list = record { count = 0; capacity = 0; owners = []; fds = [] }

unfoldable pub fdlist_reset : FdList → FdList
fdlist_reset list = record list { count = 0 }
