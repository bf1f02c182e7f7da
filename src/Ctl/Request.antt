-- ===== src/Ctl/Request.antt =====
-- The requests of tools/usbfluxctl.c, as the daemon reads them.
use usbfluxd.Prelude.{◌+◌, ◌∙◌, ap, ◌≡◌, ◌<◌, ◌++◌, length, drop, arith, length-append}
use usbfluxd.Text.{CString}
use usbfluxd.Proto.{header_size, u32_mod, bytes_of_header, header_at}
use usbfluxd.Proto.RoundTrip.{header_at-bytes_of_header, length-bytes_of_header}
use usbfluxd.Buffer.Memory.{drop-append}
use usbfluxd.Ctl.{request_header, sent_bytes}

-- A request that is shorter than 2 ^ 32 - 16 bytes: the header at its front says the version 1, a
-- property list, the tag 0, and the length of all bytes that are sent, and what follows the header is
-- the request.
pub header_at-sent_bytes :
    (req_xml : CString)
    → header_size + length req_xml < u32_mod
    → (header_at (sent_bytes req_xml)
        ≡ record { length = length (sent_bytes req_xml); version = 1; message = 8; tag = 0 })
      × (drop header_size (sent_bytes req_xml) ≡ req_xml)
unfolding sent_bytes request_header
header_at-sent_bytes req_xml small =
    let hdr = request_header (length req_xml) in
    let len : length (bytes_of_header hdr ++ req_xml) ≡ header_size + length req_xml =
      length-append (bytes_of_header hdr) req_xml
      ∙ ap (λ n. n + length req_xml) (length-bytes_of_header hdr) in
    let same : hdr.length ≡ length (sent_bytes req_xml) = omega (arith, len) in
    (
      header_at-bytes_of_header hdr req_xml (record {
        length_in = omega arith;
        version_in = omega arith;
        message_in = omega arith;
        tag_in = omega arith;
      })
          ∙ ap (λ n. record { length = n; version = 1; message = 8; tag = 0 }) same,
      drop-append header_size (bytes_of_header hdr) req_xml (length-bytes_of_header hdr),
    )
