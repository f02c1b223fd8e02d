-- ===== src/Render.antt =====
-- packages/engine/src/config-render.ts: the configuration file of a peer's client.
use kintunnel.Base.{
  ℕ, Bool, true, false, Option, none, some, List, [], ◌∷◌, ◌++◌, ltb, if◌then◌else◌, Text, lit,
  decimal, join,
}
use kintunnel.Base.Failure.{Failure, error, Result, ok, err}
use kintunnel.Ip.{is_empty}
use kintunnel.Types.{PeerRecord, ServerSettings}

-- `\n`
unfoldable pub newline : Text
newline = 10 ∷ []

abbrev pub line_if : Bool → Text → List Text
line_if true line = line ∷ []
line_if false line = []

abbrev has_items : List Text → Bool
has_items [] = false
has_items (item ∷ items) = true

-- `if (server.mtu)`: 0 counts as no MTU
abbrev mtu_line : Option ℕ → List Text
mtu_line none = []
mtu_line (some mtu) = line_if (ltb 0 mtu) (lit "MTU = " ++ decimal mtu)

unfoldable pub config_lines : Text → PeerRecord → ServerSettings → List Text
config_lines private_key peer server =
    lit "[Interface]"
    ∷ (lit "PrivateKey = " ++ private_key)
    ∷ (lit "Address = " ++ peer.address_v4)
    ∷ (line_if (has_items peer.dns_servers) (lit "DNS = " ++ join (lit ", ") peer.dns_servers)
        ++ (mtu_line server.mtu
            ++ ([]
                ∷ lit "[Peer]"
                ∷ (lit "PublicKey = " ++ server.server_public_key)
                ∷ (lit "AllowedIPs = " ++ join (lit ", ") peer.allowed_ips)
                ∷ (lit "Endpoint = "
                    ++ (server.endpoint_host ++ (lit ":" ++ decimal server.endpoint_port)))
                ∷ line_if (ltb 0 peer.persistent_keepalive)
                    (lit "PersistentKeepalive = " ++ decimal peer.persistent_keepalive))))

no_private_key : Failure
no_private_key = error (lit "Peer private key is not available; cannot render client config")

with_key : Option Text → PeerRecord → ServerSettings → Result Text
unfolding no_private_key
with_key none peer server = err no_private_key
with_key (some key) peer server =
    if is_empty key
    then err no_private_key
    else ok (join newline (config_lines key peer server) ++ newline)

unfoldable pub render_client_config : PeerRecord → ServerSettings → Result Text
unfolding with_key
render_client_config peer server = with_key peer.private_key peer server
