-- ===== src/Runtime/Dump.antt =====
-- packages/engine/src/runtime.ts: the table that `wg show <interface> dump` writes.
use kintunnel.Base.{
  ℕ, ◌+◌, ◌*◌, true, false, not, Option, none, some, List, [], ◌∷◌, keep, or_default, if◌then◌else◌,
  leb, ltb, Text, lit, text_eq, split, trim, parse_int, ℤ, pos, negsuc,
}
use kintunnel.Platform.{Platform}
use kintunnel.Ip.{is_empty}
use kintunnel.Host.Lines.{filled_lines, column}
use kintunnel.Apply.{RuntimeState, RuntimePeer}

abbrev on_value : {A B : Type 0} → (A → B) → Option A → Option B
on_value f none = none
on_value f (some a) = some (f a)

abbrev pub natural : Option ℤ → Option ℕ
natural none = none
natural (some (pos n)) = some n
natural (some (negsuc n)) = none

abbrev filled : Option Text → Option Text
filled none = none
filled (some []) = none
filled (some (c ∷ s)) = some (c ∷ s)

-- A number in a column; `lit "0"` where the column is missing.
counter : Option Text → Option ℕ
counter text = natural (parse_int (or_default text (lit "0")))

abbrev read_number : Option Text → Option ℕ
read_number none = none
read_number (some text) = natural (parse_int text)

-- The keepalive interval in seconds, or "off".
keepalive : Option Text → Option ℕ
keepalive none = none
keepalive (some raw) =
    if text_eq (trim raw) (lit "off") then none else natural (parse_int (trim raw))

-- The time of the epoch, and the latest time of a date, in milliseconds from the earliest one.
abbrev pub epoch_ms : ℕ
epoch_ms = 8_640_000_000_000_000

-- `new Date(handshake * 1000).toISOString()`, which throws on a time that is no date.
handshake_time : Platform → Option ℕ → Option (Option Text)
handshake_time p none = some none
handshake_time p (some seconds) =
    if ltb 0 seconds
    then if leb (seconds * 1000) epoch_ms
      then some (some (p.iso (epoch_ms + seconds * 1000)))
      else none
    else some none

unfoldable pub peer_row : Platform → Text → Option RuntimePeer
unfolding counter keepalive handshake_time
peer_row p row =
    let columns = split 9 row in
    on_value
      (λ time. record {
        public_key = or_default (column 0 columns) [];
        endpoint = filled (column 2 columns);
        allowed_ips = keep (λ s. not (is_empty s)) (split 44 (or_default (column 3 columns) []));
        latest_handshake_at = time;
        transfer_rx_bytes = counter (column 5 columns);
        transfer_tx_bytes = counter (column 6 columns);
        persistent_keepalive = keepalive (column 7 columns);
      })
      (handshake_time p (counter (column 4 columns)))

peer_rows : Platform → List Text → Option (List RuntimePeer)
peer_rows p [] = some []
peer_rows p (row ∷ rows) = both (peer_row p row) (peer_rows p rows)
  where
    both : Option RuntimePeer → Option (List RuntimePeer) → Option (List RuntimePeer)
    both none rest = none
    both (some peer) none = none
    both (some peer) (some peers) = some (peer ∷ peers)

unfoldable pub read_rows : Platform → Text → List Text → Option RuntimeState
unfolding peer_rows
read_rows p name [] = some (record {
  interface_name = name;
  exists = false;
  listen_port = none;
  peers = [];
  raw_available = true;
})
read_rows p name (interface_row ∷ rows) =
    on_value
      (λ peers. record {
        interface_name = name;
        exists = true;
        listen_port = read_number (filled (column 2 (split 9 interface_row)));
        peers = peers;
        raw_available = true;
      })
      (peer_rows p rows)

-- The first row is of the interface, the others are of its peers.
unfoldable pub read_dump : Platform → Text → Text → Option RuntimeState
unfolding read_rows
read_dump p name out = read_rows p name (filled_lines out)
