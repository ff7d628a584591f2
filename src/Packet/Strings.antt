-- ===== src/Packet/Strings.antt =====
-- mc_packet.c: `mc_write_string` where the string fits, and where it does not.
use starrysky_mc_server.Prelude.{
  ℕ, ◌+◌, ◌≤◌, ◌<◌, ◌≡◌, ◌∙◌, List, ◌++◌, true, false, length, lt→leb, le→leb,
}
use starrysky_mc_server.Config.{max_string_bytes}
use starrysky_mc_server.Varint.RoundTrip.{bytes_of}
use starrysky_mc_server.Packet.Writer.{Writer, write_string}
use starrysky_mc_server.Packet.Writes.{IsValid, written, write_string_lem}

-- A string of at most 32767 bytes, for which and for the VarInt of whose length a valid writer
-- has room, is written: the call succeeds and has appended these.
pub write_string_fits :
    (str : List ℕ) (w : Writer)
    → IsValid w
    → length str ≤ max_string_bytes
    → w.len + length (bytes_of (length str) ++ str) ≤ w.cap
    → ((write_string str w).0 ≡ true)
      × (written (write_string str w).1 ≡ written w ++ (bytes_of (length str) ++ str))
write_string_fits str w v h room =
    let (a, rewound) = (write_string_lem str w v).0 h in
    (a.result ∙ le→leb _ _ room, (a.appended room).0)

-- Where a valid writer lacks the room for a string of at most 32767 bytes and for the VarInt of
-- its length, the call fails and the length of the writer is what it was.
pub write_string_rewinds :
    (str : List ℕ) (w : Writer)
    → IsValid w
    → length str ≤ max_string_bytes
    → w.cap < w.len + length (bytes_of (length str) ++ str)
    → ((write_string str w).0 ≡ false) × ((write_string str w).1.len ≡ w.len)
write_string_rewinds str w v h short =
    let (a, rewound) = (write_string_lem str w v).0 h in
    let failed = a.result ∙ lt→leb _ _ short in (failed, rewound failed)
