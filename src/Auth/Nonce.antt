-- ===== src/Auth/Nonce.antt =====
-- `check_and_consume_nonce`: the statements that it makes on `used_nonces`.
use panel_agent.Common.{ℕ, ◌+◌, Bool, List, ◌∷◌, Text, text_eq, leb, any, keep}
use panel_agent.Runtime.{NonceRow, Db}

abbrev pub nonce_retention_secs : ℕ
nonce_retention_secs = 300

-- Whether a row stays: not `created_at < NOW() - INTERVAL '5 minutes'`.
abbrev pub is_retained : ℕ → NonceRow → Bool
is_retained now row = leb now (row.created_at + nonce_retention_secs)

unfoldable pub purge : ℕ → List NonceRow → List NonceRow
purge now rows = keep (is_retained now) rows

unfoldable pub seen : Text → List NonceRow → Bool
seen nonce rows = any (λ row. text_eq row.nonce nonce) rows

-- The DELETE, as a change of the database.
unfoldable pub purge_db : ℕ → Db → Db
unfolding purge
purge_db now db = record db { used_nonces = purge now db.used_nonces }

-- The row that the INSERT adds.
unfoldable pub add_nonce : Text → ℕ → Db → Db
add_nonce nonce now db = record db {
  used_nonces = record { nonce = nonce; created_at = now } ∷ db.used_nonces;
}
