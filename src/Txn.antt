-- ===== src/Txn.antt =====
-- internal/storage/txn.go: the transaction manager. The mutex makes each method one step, so a
-- method is a function from the state to the state.
pub mod Key
pub mod Tables
use ryu_db.Base.{ℕ, ◌-◌, ◌^◌, Bool, true, false, not, ◌&&◌, Option, none, some, List, [], ◌∷◌}
use ryu_db.Base.{ltb, if◌then◌else◌}
use ryu_db.Base.Table.{Table, lookup, insert, remove}

pub data TxnStatus : Type 0 where
  running commited rolling_back rolled_back : TxnStatus

pub record TransactionManager : Type 0 where
  pub txn_table : Table TxnStatus
  pub lsn_table : Table ℕ

abbrev pub new_transaction_manager : TransactionManager
new_transaction_manager = record { txn_table = []; lsn_table = [] }

abbrev pub is_running : TxnStatus → Bool
is_running running = true
is_running _ = false

abbrev pub is_commited : TxnStatus → Bool
is_commited commited = true
is_commited _ = false

unfoldable pub set_status : ℕ → TxnStatus → TransactionManager → TransactionManager
set_status txid status t = record t { txn_table = insert txid status t.txn_table }

unfoldable pub set_last_lsn : ℕ → ℕ → TransactionManager → TransactionManager
set_last_lsn txid lsn t = record t { lsn_table = insert txid lsn t.lsn_table }

-- A missing key reads as the zero value.
unfoldable pub get_last_lsn : TransactionManager → ℕ → ℕ
get_last_lsn t txid = elim (lookup txid t.lsn_table) [ some lsn ↦ lsn | none ↦ 0 ]

unfoldable pub get_status : TransactionManager → ℕ → TxnStatus
get_status t txid = elim (lookup txid t.txn_table) [ some status ↦ status | none ↦ commited ]

-- `now` is what the clock gives `GenerateTxID`.
unfoldable pub begin : ℕ → TransactionManager → ℕ × TransactionManager
begin now t = (now, record t { txn_table = insert now running t.txn_table })

unfoldable pub commit : ℕ → TransactionManager → TransactionManager
commit txid t = record t { txn_table = insert txid commited t.txn_table }

unfoldable pub rollback : ℕ → TransactionManager → TransactionManager
rollback txid t = record t { txn_table = insert txid rolled_back t.txn_table }

min_active_loop : Table TxnStatus → ℕ → ℕ
min_active_loop [] least = least
min_active_loop ((txid, status) ∷ rest) least =
    min_active_loop rest
      (if is_running status then (if ltb txid least then txid else least) else least)

unfoldable pub get_min_active_tx_id : TransactionManager → ℕ
unfolding min_active_loop
get_min_active_tx_id t = min_active_loop t.txn_table (2 ^ 64 - 1)

-- `delete` on both maps.
forget : ℕ → TransactionManager → TransactionManager
forget txid t = record { txn_table = remove txid t.txn_table; lsn_table = remove txid t.lsn_table }

prune_loop : ℕ → Table TxnStatus → TransactionManager → TransactionManager
unfolding forget
prune_loop min_active [] t = t
prune_loop min_active ((txid, status) ∷ rest) t =
    prune_loop min_active rest
      (if not (is_running status) && ltb txid min_active then forget txid t else t)

unfoldable pub prune_tables : ℕ → TransactionManager → TransactionManager
unfolding prune_loop
prune_tables min_active t = prune_loop min_active t.txn_table t
