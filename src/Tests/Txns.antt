-- ===== src/Tests/Txns.antt =====
-- Runs of internal/storage/txn.go.
use Prim.Native.Nat.{compare}
use ryu_db.Base.{
  ℕ, ◌-◌, ◌^◌, ◌≤◌, ◌≡◌, ◌≢◌, ◌⊎◌, refl, arith, true, false, some, [], ◌∷◌, Bytes, ltb,
  if◌then◌else◌, ◌++◌,
}
use ryu_db.Base.Table.{lookup, IsMap}
use ryu_db.Bytes.Order.{compare_bytes}
use ryu_db.Txn.{
  TransactionManager, running, commited, rolled_back, is_running, get_status, prune_tables,
}
use ryu_db.Txn.Key.{
  build_mvcc_key, extract_mvcc_key, extract-build_mvcc_key, compare_bytes-build_mvcc_key,
}
use ryu_db.Txn.Tables.{get_status-prune_tables}

abbrev manager : TransactionManager
manager = record {
  txn_table = (3, rolled_back) ∷ (5, running) ∷ (4, commited) ∷ [];
  lsn_table = (3, 40) ∷ [];
}

manager-IsMap : IsMap manager.txn_table
unfolding lookup
manager-IsMap = (refl, (refl, (refl, tt)))

-- The aborted transaction 3 reads as committed once it is pruned.
aborted_then_commited : get_status (prune_tables 5 manager) 3 ≡ commited
unfolding get_status prune_tables lookup ryu_db.Base.Table.remove
aborted_then_commited = refl

get_status-prune_tables_example : get_status (prune_tables 5 manager) 3 ≡ (
    if is_running (get_status manager 3)
    then running
    else if ltb 3 5
    then commited
    else get_status manager 3)
get_status-prune_tables_example = get_status-prune_tables 5 manager 3 manager-IsMap

abbrev user : Bytes
user = 107 ∷ 49 ∷ []

extract-build_mvcc_key_example : extract_mvcc_key (build_mvcc_key user 258) ≡ (user, 258)
extract-build_mvcc_key_example = extract-build_mvcc_key user 258 (omega arith)

compare_bytes-build_mvcc_key_example :
    compare_bytes (build_mvcc_key user 255) (build_mvcc_key user 256) ≡ compare 255 256
compare_bytes-build_mvcc_key_example =
    compare_bytes-build_mvcc_key user 255 256 (omega arith) (omega arith)

abbrev other : Bytes
other = 107 ∷ []

user-ne-other : user ≢ other
user-ne-other e = cc
