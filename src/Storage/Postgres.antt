-- ===== src/Storage/Postgres.antt =====
-- internal/mpc/storage/postgresql.go, under the tables and the foreign key of
-- migrations/20251127140052-create-mpc-tables.sql. Each statement's text is in the source, and is
-- read as the operation on rows that it states; a table is a map under its primary key. The JSON
-- columns hold the lists and maps themselves, which encoding/json reads back as they were written.
-- The long message of a missing key is cut short, and the three texts that wrap a failed insertion
-- of a session are one. Rows with equal sort keys come in one of the orders that SQL permits.
use go_mpc_wallet.Base.{
  ℕ, String, Bool, true, false, ◌&&◌, ◌||◌, not, Option, none, some, List, Dict, lookup, insert,
  erase, keep, values, ltb, ◌==◌, if◌then◌else◌, str_eq, take, drop, ◌+++◌,
}
use go_mpc_wallet.Base.Sorting.{sort}
use go_mpc_wallet.Storage.Types.{KeyMetadata, NodeInfo, SigningSession, KeyFilter, NodeFilter}
use go_mpc_wallet.Storage.World.{
  Redis, World, M, driver, message, pure, fail, wrapping, write, query, arrive, ◌>>=◌, Outcome,
}

-- `INSERT INTO keys … ON CONFLICT (key_id) DO UPDATE`: the columns `created_at` and `deletion_date`
-- of a row that exists are not among those updated, and a new row has no deletion date.
abbrev pub upserted_key : KeyMetadata → Option KeyMetadata → KeyMetadata
upserted_key k none = record k { deletion_date = none }
upserted_key k (some old) = record k {
  created_at = old.created_at;
  deletion_date = old.deletion_date;
}

unfoldable pub upsert_key : KeyMetadata → Dict KeyMetadata → Dict KeyMetadata
upsert_key k rows = insert k.key_id (upserted_key k (lookup k.key_id rows)) rows

-- `UPDATE keys SET … WHERE key_id = $1`: every column but the key and `created_at`.
abbrev updated_key : KeyMetadata → Dict KeyMetadata → Option KeyMetadata → Dict KeyMetadata
updated_key k rows none = rows
updated_key k rows (some old) = insert k.key_id (record k { created_at = old.created_at }) rows

unfoldable pub update_key : KeyMetadata → Dict KeyMetadata → Dict KeyMetadata
update_key k rows = updated_key k rows (lookup k.key_id rows)

abbrev matches : String → String → Bool
matches wanted s = if str_eq wanted "" then true else str_eq s wanted

abbrev default_limit : ℕ → ℕ
default_limit n = if n == 0 then 50 else n

unfoldable pub select_keys : KeyFilter → Dict KeyMetadata → List KeyMetadata
select_keys f rows = take (default_limit f.limit) (
    drop f.offset (
      sort (λ a b. ltb b.created_at a.created_at)
        (values (keep (λ k. matches f.chain_type k.chain_type && matches f.status k.status) rows))))

abbrev upserted_node : NodeInfo → Option NodeInfo → NodeInfo
upserted_node n none = n
upserted_node n (some old) = record n { registered_at = old.registered_at }

unfoldable pub upsert_node : NodeInfo → Dict NodeInfo → Dict NodeInfo
upsert_node n rows = insert n.node_id (upserted_node n (lookup n.node_id rows)) rows

abbrev updated_node : NodeInfo → Dict NodeInfo → Option NodeInfo → Dict NodeInfo
updated_node n rows none = rows
updated_node n rows (some old) =
    insert n.node_id (record n { registered_at = old.registered_at }) rows

unfoldable pub update_row : NodeInfo → Dict NodeInfo → Dict NodeInfo
update_row n rows = updated_node n rows (lookup n.node_id rows)

abbrev beaten : String → ℕ → Dict NodeInfo → Option NodeInfo → Dict NodeInfo
beaten id now rows none = rows
beaten id now rows (some old) = insert id (record old { last_heartbeat = some now }) rows

unfoldable pub select_nodes : NodeFilter → Dict NodeInfo → List NodeInfo
select_nodes f rows = take (default_limit f.limit) (
    drop f.offset (
      sort (λ a b. ltb b.registered_at a.registered_at)
        (values (keep (λ n. matches f.node_type n.node_type && matches f.status n.status) rows))))

-- The upsert of a session keeps `created_at` of a row that exists.
abbrev pub upserted_session : SigningSession → Option SigningSession → SigningSession
upserted_session s none = s
upserted_session s (some old) = record s { created_at = old.created_at }

unfoldable pub upsert_session : SigningSession → Dict SigningSession → Dict SigningSession
upsert_session s rows = insert s.session_id (upserted_session s (lookup s.session_id rows)) rows

abbrev updated_session :
    SigningSession → Dict SigningSession → Option SigningSession → Dict SigningSession
updated_session s rows none = rows
updated_session s rows (some old) =
    insert s.session_id (record s { created_at = old.created_at }) rows

unfoldable pub update_session_row : SigningSession → Dict SigningSession → Dict SigningSession
update_session_row s rows = updated_session s rows (lookup s.session_id rows)

-- Whether the row of a key is there, which the foreign key of a session asks for.
abbrev pub has_key : {V : Type 0} → String → Dict V → Bool
has_key id rows = elim (lookup id rows) [ none ↦ false | some _ ↦ true ]

-- `sql.ErrNoRows` as the error that the store makes of it.
abbrev pub or_missing : {R : Redis} {A : Type 0} → String → Option A → M R A
or_missing s none = fail (message s)
or_missing s (some a) = pure a

-- A write that a constraint of the table refuses unless the test passes.
abbrev constrained : {R : Redis} → Bool → (World R → World R) → M R (Unit {0})
constrained true f w = write f w
constrained false f w = (Outcome.err driver, arrive w)

module _ {R : Redis} where
  -- The statement always affects one row, so the check of the number affected passes.
  unfoldable pub save_key_metadata : KeyMetadata → M R (Unit {0})
  save_key_metadata k =
      wrapping (◌+++◌ "failed to save key metadata for key_id: " k.key_id)
        (write λ w. record w { keys = upsert_key k w.keys })

  unfoldable pub get_key_metadata : String → M R KeyMetadata
  get_key_metadata id = do
    row ← wrapping "failed to get key metadata" (query λ w. lookup id w.keys)
    or_missing "key not found" row

  unfoldable pub update_key_metadata : KeyMetadata → M R (Unit {0})
  update_key_metadata k =
      wrapping "failed to update key metadata" (write λ w. record w { keys = update_key k w.keys })

  -- The sessions of the key go with it: `ON DELETE CASCADE`.
  unfoldable pub delete_key_metadata : String → M R (Unit {0})
  delete_key_metadata id = wrapping "failed to delete key metadata" (
      write λ w. record w {
        keys = erase id w.keys;
        sessions = keep (λ s. not (str_eq s.key_id id)) w.sessions;
      })

  unfoldable pub list_keys : KeyFilter → M R (List KeyMetadata)
  list_keys f = wrapping "failed to list keys" (query λ w. select_keys f w.keys)

  unfoldable pub save_node : NodeInfo → M R (Unit {0})
  save_node n =
      wrapping "failed to save node" (write λ w. record w { nodes = upsert_node n w.nodes })

  unfoldable pub get_node_info : String → M R NodeInfo
  get_node_info id = do
    row ← wrapping "failed to get node" (query λ w. lookup id w.nodes)
    or_missing "node not found" row

  unfoldable pub update_node : NodeInfo → M R (Unit {0})
  update_node n =
      wrapping "failed to update node" (write λ w. record w { nodes = update_row n w.nodes })

  unfoldable pub list_node_infos : NodeFilter → M R (List NodeInfo)
  list_node_infos f = wrapping "failed to list nodes" (query λ w. select_nodes f w.nodes)

  unfoldable pub update_node_heartbeat : String → M R (Unit {0})
  update_node_heartbeat id =
      wrapping "failed to update node heartbeat"
        (write λ w. record w { nodes = beaten id w.now w.nodes (lookup id w.nodes) })

  -- `INSERT INTO signing_sessions`, which the foreign key refuses where the key's row is gone.
  insert_session : SigningSession → M R (Unit {0})
  insert_session s w =
      constrained (has_key s.key_id w.keys)
        (λ v. record v { sessions = upsert_session s v.sessions }) w

  unfoldable pub save_signing_session : SigningSession → M R (Unit {0})
  unfolding insert_session
  save_signing_session s = do
    exists ←
        wrapping (◌+++◌ "failed to check if key_id " (◌+++◌ s.key_id " exists in keys table"))
          (query λ w. has_key s.key_id w.keys)
    if exists
        then wrapping (◌+++◌ "failed to save signing session: " s.session_id) (insert_session s)
        else fail (message (◌+++◌ "key_id " (◌+++◌ s.key_id " does not exist in keys table")))

  unfoldable pub get_signing_session : String → M R SigningSession
  get_signing_session id = do
    row ← wrapping "failed to get signing session" (query λ w. lookup id w.sessions)
    or_missing "session not found" row

  -- The foreign key is checked only if there is a row to update.
  unfoldable pub update_signing_session : SigningSession → M R (Unit {0})
  update_signing_session s = wrapping "failed to update signing session" λ w.
      constrained (has_key s.key_id w.keys || not (has_key s.session_id w.sessions))
        (λ v. record v { sessions = update_session_row s v.sessions }) w
