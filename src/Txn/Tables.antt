-- ===== src/Txn/Tables.antt =====
-- What the two tables say after each method.
use ryu_db.Base.{ℕ, ◌-◌, ◌^◌, ◌≤◌, ◌≡◌, ◌⊎◌, inl, refl, arith, not, ◌&&◌}
use ryu_db.Base.{Option, none, some, [], ◌∷◌, ltb, if◌then◌else◌}
use ryu_db.Base.Table.{Table, lookup, IsMap, lookup-remove}
use ryu_db.Txn.{TxnStatus, running, commited, TransactionManager, is_running}
use ryu_db.Txn.{get_status, min_active_loop, get_min_active_tx_id}
use ryu_db.Txn.{forget, prune_loop, prune_tables}

-- The loop's result bounds its start and every running transaction, and is one of them.
min_active_loop_lem :
    (entries : Table TxnStatus) (least : ℕ)
    → IsMap entries
    → (min_active_loop entries least ≤ least)
      × ((t : ℕ) → lookup t entries ≡ some running → min_active_loop entries least ≤ t)
      × ((min_active_loop entries least ≡ least)
          ⊎ (lookup (min_active_loop entries least) entries ≡ some running))
unfolding min_active_loop lookup
min_active_loop_lem [] least h = (omega arith, (λ t e. cc), inl refl)
min_active_loop_lem ((txid, status) ∷ rest) least h =
    let next = if is_running status then (if ltb txid least then txid else least) else least in
    let (below, bounds, attained) = min_active_loop_lem rest next h.1 in
    (ground arith, (λ t e. ground (arith, bounds t)), ground arith)

-- On a table without duplicate ids, GetMinActiveTxID is at most the id of every running transaction,
-- and it is MaxUint64 or the id of a running transaction.
pub get_min_active_tx_id_lem :
    (t : TransactionManager)
    → IsMap t.txn_table
    → ((txid : ℕ) → lookup txid t.txn_table ≡ some running → get_min_active_tx_id t ≤ txid)
      × ((get_min_active_tx_id t ≡ 2 ^ 64 - 1)
          ⊎ (lookup (get_min_active_tx_id t) t.txn_table ≡ some running))
unfolding get_min_active_tx_id
get_min_active_tx_id_lem t h =
    let (_, bounds, attained) = min_active_loop_lem t.txn_table (2 ^ 64 - 1) h in (bounds, attained)

-- What pruning leaves of an entry.
abbrev pruned : ℕ → ℕ → Option TxnStatus → Option TxnStatus
pruned min_active txid none = none
pruned min_active txid (some s) = if not (is_running s) && ltb txid min_active then none else some s

lookup-prune_loop :
    (min_active : ℕ) (entries : Table TxnStatus) (t : TransactionManager) (txid : ℕ)
    → IsMap entries
    → lookup txid (prune_loop min_active entries t).txn_table
      ≡ elim (pruned min_active txid (lookup txid entries)) [
        | some s ↦ lookup txid t.txn_table
        | none ↦ elim (lookup txid entries) [ some s ↦ none | none ↦ lookup txid t.txn_table ]
      ]
unfolding prune_loop lookup forget
lookup-prune_loop min_active [] t txid h = refl
lookup-prune_loop min_active ((k, s) ∷ rest) t txid h = ground (
  arith,
  lookup-remove k txid t.txn_table,
  lookup-prune_loop min_active rest t txid h.1,
  lookup-prune_loop min_active rest (forget k t) txid h.1,
)

-- On a table without duplicate ids, PruneTables keeps the status of a transaction that is running or
-- whose id is not below the bound; any other transaction reads as committed afterwards, an aborted
-- one too.
pub get_status-prune_tables :
    (min_active : ℕ) (t : TransactionManager) (txid : ℕ)
    → IsMap t.txn_table
    → get_status (prune_tables min_active t) txid ≡ (
        if is_running (get_status t txid)
        then running
        else if ltb txid min_active
        then commited
        else get_status t txid)
unfolding get_status prune_tables
get_status-prune_tables min_active t txid h =
    ground (arith, lookup-prune_loop min_active t.txn_table t txid h)
