-- ===== src/Api/Views.antt =====
-- What the answers of the API keep back.
use kintunnel.Base.{
  ℕ, ◌≡◌, refl, ap, ap, ◌∙◌, Bool, Option, none, some, List, [], ◌∷◌, map, keep, arith, Text,
  text_eq, Bool-cases, inl, inr,
}
use kintunnel.Types.{EngineState, PeerRecord, stored}
use kintunnel.Platform.{Platform}
use kintunnel.Ip.{is_empty}
use kintunnel.Peers.{peer_api_status}
use kintunnel.Store.Calls.{status_text}
use kintunnel.Api.{sanitize_peer, with_status, list_peers}

-- The state without private keys.
abbrev pub without_key : PeerRecord → PeerRecord
without_key q = record q { private_key = none }

abbrev pub without_keys : EngineState → EngineState
without_keys s = record s {
  peers = map without_key s.peers;
  server = record s.server { server_private_key = [] };
}

module _ (p : Platform) (now : ℕ) where
  views :
      (qs : List PeerRecord)
      → map (sanitize_peer p now) (map without_key qs) ≡ map (sanitize_peer p now) qs
  unfolding sanitize_peer peer_api_status
  views [] = refl
  views (q ∷ qs) = ap (λ l. sanitize_peer p now q ∷ l) (views qs)

keep-without_key :
    (test : PeerRecord → Bool) (qs : List PeerRecord)
    → ((q : PeerRecord) → test (without_key q) ≡ test q)
    → keep test (map without_key qs) ≡ map without_key (keep test qs)
keep-without_key test [] h = refl
keep-without_key test (q ∷ qs) h = ground (arith, h q, keep-without_key test qs h)

with_status-without_key :
    (o : Option Text) (qs : List PeerRecord)
    → with_status o (map without_key qs) ≡ map without_key (with_status o qs)
unfolding with_status
with_status-without_key none qs = refl
with_status-without_key (some t) qs = elim (Bool-cases (is_empty t)) [
  | inl blank ↦ rw blank refl
  | inr given ↦
      rw given (keep-without_key (λ q. text_eq (status_text (stored q.status)) t) qs (λ q. refl))
]

-- The list of peers that the API answers with, for any filter on the status, is the same when the
-- peers' private keys and the server's are taken out of the state.
pub list_peers-without_keys :
    (p : Platform) (now : ℕ) (status : Option Text) (s : EngineState)
    → list_peers p now status (without_keys s) ≡ list_peers p now status s
unfolding list_peers
list_peers-without_keys p now status s =
    ap (map (sanitize_peer p now)) (with_status-without_key status s.peers)
    ∙ views p now (with_status status s.peers)
