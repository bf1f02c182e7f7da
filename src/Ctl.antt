-- ===== src/Ctl.antt =====
-- tools/usbfluxctl.c, the command line tool: the requests that it makes of the daemon, and what it tells
-- of the answers. An `int` is a number below 2 ^ 32, so that -1 is 2 ^ 32 - 1. The fixed buffer of
-- `usbfluxd_query` is used for answers of at most 4096 bytes.
pub mod Receiving
pub mod Request
pub mod Tool
use usbfluxd.Prelude.{
  ℕ, ◌+◌, ◌-◌, ◌%◌, ◌^◌, ◌==◌, ltb, not, ◌&&◌, Bool, true, false, if◌then◌else◌, Option, none, some,
  List, [], ◌∷◌, ◌++◌, length, take,
}
use usbfluxd.Text.{CString, cstr, decimal_from}
use usbfluxd.Proto.{Header, header_size, u32_mod, bytes_of_header, header_at}

-- What the calls of `recv` for the payload came to: a failure, all of it, or less than that.
pub data Payload : Type 0 where
  broken : Payload
  whole waiting : List ℕ → Payload

-- The loop that receives the payload, with the bytes that are there; `none` is a call that fails, and
-- no bytes are what a call returns once the peer has closed.
unfoldable pub receive : ℕ → List ℕ → List (Option (List ℕ)) → Payload
receive total got [] = if ltb (length got) total then waiting got else whole got
receive total got (none ∷ chunks) = if ltb (length got) total then broken else whole got
receive total got (some bytes ∷ chunks) =
    let rest = receive total (got ++ take (total - length got) bytes) chunks in
    if ltb (length got) total then rest else whole got

-- The outcomes of the calls of `usbfluxd_query`.
pub record Exchange : Type 0 where
  pub connected : Bool
  pub header_sent : Bool
  pub request_sent : Bool
  -- The `recv` for the header, and those for the payload.
  pub header : Option (List ℕ)
  pub chunks : List (Option (List ℕ))
  -- Whether `malloc` of this many bytes succeeds; `recv` to NULL fails.
  pub can_malloc : ℕ → Bool

-- The header of a request of so many bytes.
pub request_header : ℕ → Header
request_header req_len = record {
  length = (header_size + req_len) % u32_mod;
  version = 1;
  message = 8;
  tag = 0;
}

-- What the tool sends.
pub sent_bytes : CString → List ℕ
unfolding request_header
sent_bytes req_xml = bytes_of_header (request_header (length req_xml)) ++ req_xml

pub is_answer : Header → Bool
is_answer hdr = hdr.version == 1 && hdr.message == 8 && hdr.tag == 0

-- The payload, whose length is a `uint32_t`.
pub read_payload : Exchange → Header → Payload
read_payload x hdr =
    let total = (hdr.length + u32_mod - header_size) % u32_mod in
    if ltb 4096 total && not (x.can_malloc total) then broken else receive total [] x.chunks

-- What `usbfluxd_query` returns, or that it has not returned yet.
pub data Queried (Plist : Type 0) : Type 0 where
  answered : Option Plist → Queried Plist
  unanswered : Queried Plist

-- What is printed, and the result.
pub data Handled (Output : Type 0) : Type 0 where
  returns : Output → ℕ → Handled Output
  hangs : Handled Output

-- What `handle_add` and `handle_del` tell.
pub data Message : Type 0 where
  success not_running already_present wrong_address : Message
  error_code : ℕ → Message

-- A line of the list of instances.
pub data Line : Type 0 where
  local_instance : CString → ℕ → Line
  -- With the host that `printf` is given, and the port.
  remote_instance : CString → Option CString → ℕ → ℕ → Line
  device : Option CString → Line

abbrev pub minus_one : ℕ
minus_one = u32_mod - 1

pub add_message : ℕ → Message
add_message result =
    if result == 0
    then success
    else if result == 1
    then not_running
    else if result == 2
    then already_present
    else if result == 3
    then wrong_address
    else error_code result

pub del_message : ℕ → Message
del_message result =
    if result == 0
    then success
    else if result == 1
    then not_running
    else if result == 2
    then wrong_address
    else error_code result

-- `snprintf` into `req_xml`, which has room for 255 characters and the zero.
pub instance_request : CString → CString × ℕ → CString
instance_request message (host, port) = take 255 (
    cstr "<plist version=\"1.0\"><dict><key>MessageType</key><string>"
    ++ message
    ++ cstr "</string><key>HostAddress</key><string>"
    ++ host
    ++ cstr "</string><key>PortNumber</key><integer>"
    ++ decimal_from 20 port
    ++ cstr "</integer></dict></plist>")

pub list_request : CString
list_request =
    cstr
      "<plist version=\"1.0\"><dict><key>MessageType</key><string>Instances</string></dict></plist>"

pub listeners_request : CString
listeners_request =
    cstr
      "<plist version=\"1.0\"><dict><key>MessageType</key><string>ListListeners</string></dict></plist>"
