-- ===== src/Live/Drifts.antt =====
-- packages/engine/src/apply.ts: `detectDrift`, which compares the interface with the settings.
-- `wg` writes the port as a whole number that is not negative.
use kintunnel.Base.{
  ℕ, Bool, true, false, not, ◌&&◌, Option, none, some, List, [], ◌∷◌, ◌++◌, ltb, ◌==◌, length, map,
  or_default, Text, lit, text_eq, decimal, split, trim, parse_int,
}
use kintunnel.Types.{EngineState}
use kintunnel.Platform.{Platform}
use kintunnel.Ip.{is_empty}
use kintunnel.Runtime.Dump.{natural}
use kintunnel.Host.{Host}
use kintunnel.Host.Lines.{filled_lines, column}
use kintunnel.Host.Acts.{Act, pure, try, thrown_message, ◌>>=◌, exec_host}
use kintunnel.Live.Texts.{port_key_json}

pub record Drift : Type 0 where
  pub detected : Bool
  pub fields : List Text
  pub messages : List Text
  pub actual : Text

failed_drift : Text → Text → Text → Drift
failed_drift field message actual = record {
  detected = true;
  fields = field ∷ [];
  messages = (lit "Drift detection failed: " ++ message) ∷ [];
  actual = actual;
}

-- A field that differs, and its message.
differing : Bool → Text → Text → Text → List (Text × Text)
differing false field found wanted = []
differing true field found wanted =
    (field, lit "Drift detected: " ++ (field ++ (lit " " ++ (found ++ (lit " != " ++ wanted)))))
    ∷ []

port_drift : EngineState → Option ℕ → List (Text × Text)
unfolding differing
port_drift s none = []
port_drift s (some port) =
    differing (not (port == s.server.listen_port)) (lit "listenPort") (decimal port)
      (decimal s.server.listen_port)

key_drift : EngineState → Text → List (Text × Text)
unfolding differing
key_drift s key =
    differing (not (is_empty key) && not (text_eq key s.server.server_public_key))
      (lit "serverPublicKey") key s.server.server_public_key

row_drift : Platform → EngineState → List Text → Drift
unfolding port_drift key_drift failed_drift
row_drift p s [] =
    failed_drift (lit "interface_row_missing") (lit "wg show dump returned no interface row")
      (lit "<empty>")
row_drift p s (row ∷ rows) =
    let key = or_default (column 1 (split 9 row)) [] in
    let port = natural (parse_int (or_default (column 2 (split 9 row)) [])) in
    let found = port_drift s port ++ key_drift s key in
    record {
      detected = ltb 0 (length found);
      fields = map (λ e. e.0) found;
      messages = map (λ e. e.1) found;
      actual = port_key_json p (lit "publicKey") port key;
    }

unfoldable pub detect_drift : {H : Type 0} → Host H → Platform → EngineState → Act H Drift
unfolding row_drift failed_drift
detect_drift h p s =
    try
      (exec_host h (lit "wg") (lit "show" ∷ s.server.interface_name ∷ lit "dump" ∷ []) >>= λ out.
        pure (row_drift p s (filled_lines (trim out))))
      λ e. pure (failed_drift (lit "dump_unavailable") (thrown_message e) (lit "<unavailable>"))
