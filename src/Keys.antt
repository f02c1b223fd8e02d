-- ===== src/Keys.antt =====
-- packages/engine/src/keys.ts: key pairs for the server and for peers.
use kintunnel.Base.{ℕ, ◌+◌, Bool, if◌then◌else◌, Text, lit, ◌++◌}
use kintunnel.Base.Failure.{Result, ok}
use kintunnel.Types.{KeyPair}
use kintunnel.Platform.{Platform}

placeholder_key : Platform → Text → Text
placeholder_key p seed = p.sha256_base64 seed

unfoldable pub dry_run_key_pair : Platform → Text → KeyPair
unfolding placeholder_key
dry_run_key_pair p seed = record {
  private_key = placeholder_key p (lit "kintunnel:dry-run:private:" ++ seed);
  public_key = placeholder_key p (lit "kintunnel:dry-run:public:" ++ seed);
}

-- In a dry run no command is started; else the next pair of the `wg` commands is taken.
unfoldable pub generate_key_pair : Platform → Bool → Text → ℕ → Result KeyPair × ℕ
generate_key_pair p dry_run seed drawn =
    if dry_run then (ok (dry_run_key_pair p seed), drawn) else (p.wg_key_pair drawn, drawn + 1)
