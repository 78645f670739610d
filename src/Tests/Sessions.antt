-- ===== src/Tests/Sessions.antt =====
-- Runs of server.go over the tree, and over an index that keeps the written values in a list.
use ryu_db.Base.{◌≡◌, refl, true, false, List, [], ◌∷◌, Bytes, none, key_not_found}
use ryu_db.Base.Table.{lookup, insert}
use ryu_db.Txn
use ryu_db.Txn.{new_transaction_manager, begin, is_running, get_status}
use ryu_db.Bytes.Order.{compare_bytes}
use ryu_db.Engine.{Db, Index, Read, read_value, unread, get}
use ryu_db.Engine.TreeIndex.{Store, tree_index, tree_index-IsIndex}
use ryu_db.Session.{
  new_client_state, Session, handle_line, handle_lines, handle_connection, execute_command,
  command_of, cmd_other,
}
use ryu_db.Session.Text.{trim_space}
use ryu_db.Session.Steps.{runs, IsOpen, handle_line-IsOpen, handle_connection_rolls_back}
use ryu_db.Session.AutoCommit.{begun, Ended, auto_commit_outcome}
use ryu_db.Tests.Trees.{versions_tree}

abbrev read_first : List Bytes → Read
read_first [] = unread key_not_found
read_first (v ∷ vs) = read_value v

abbrev values : Index (List Bytes)
values = record {
  insert = λ key v db. (record db { index = v ∷ db.index }, none);
  delete = λ key db. (db, none);
  find_latest = λ key db. (db, read_first db.index);
  rollback = λ txid db. (record db { tx_mgr = Txn.rollback txid db.tx_mgr }, none);
  commit = λ txid db. (record db { tx_mgr = Txn.commit txid db.tx_mgr }, none);
}

abbrev empty_db : Db (List Bytes)
empty_db = record { index = []; tx_mgr = new_transaction_manager }

abbrev idle : Session (List Bytes)
idle = record { client = new_client_state; db = empty_db }

abbrev line_get : Bytes
line_get = 103 ∷ 101 ∷ 116 ∷ 32 ∷ 97 ∷ []

-- The tree with the versions on its leaf.
abbrev store : Store
store = record { bm = versions_tree.bm; root_page_id = versions_tree.root_page_id }

abbrev tree : Index Store
tree = tree_index 2 9

abbrev tree_db : Db Store
tree_db = record { index = store; tx_mgr = new_transaction_manager }

abbrev tree_idle : Session Store
tree_idle = record { client = new_client_state; db = tree_db }

abbrev line_begin : Bytes
line_begin = 98 ∷ 101 ∷ 103 ∷ 105 ∷ 110 ∷ []

abbrev in_seven : Session Store
in_seven = record {
  client = record { in_tx = true; tx_id = 7 };
  db = record { index = store; tx_mgr = (begin 7 new_transaction_manager).1 };
}

in_seven-IsOpen : IsOpen in_seven
unfolding begin get_status lookup insert
in_seven-IsOpen e = refl

handle_line-IsOpen_example : IsOpen (handle_line tree 9 line_get in_seven).0
handle_line-IsOpen_example =
    handle_line-IsOpen tree (tree_index-IsIndex 2 9) 9 line_get in_seven in_seven-IsOpen

ends_open : (handle_lines tree ((7, line_begin) ∷ []) tree_idle).0.client.in_tx ≡ true
unfolding handle_lines compare_bytes
ends_open = refl

handle_connection_rolls_back_example :
    let (s, _) = handle_lines tree ((7, line_begin) ∷ []) tree_idle in
    (runs s.db s.client.tx_id ≡ true)
    × (runs (handle_connection tree ((7, line_begin) ∷ []) tree_db).0 s.client.tx_id ≡ false)
handle_connection_rolls_back_example =
    handle_connection_rolls_back tree (tree_index-IsIndex 2 9) ((7, line_begin) ∷ []) tree_db
      ends_open

abbrev line_set : Bytes
line_set = 115 ∷ 101 ∷ 116 ∷ 32 ∷ 97 ∷ 32 ∷ 98 ∷ []

set_trimmed : trim_space line_set ≡ line_set
unfolding trim_space
set_trimmed = refl

set_other : command_of line_set ≡ cmd_other
unfolding command_of compare_bytes
set_other = refl

auto_commit_outcome_example :
    Ended tree
      (tree_index-IsIndex 2 9)
      (begin 7 new_transaction_manager).0
      line_set
      (execute_command tree (begin 7 new_transaction_manager).0 line_set (begun 7 tree_idle))
      (handle_line tree 7 line_set tree_idle).0.db
auto_commit_outcome_example =
    auto_commit_outcome tree (tree_index-IsIndex 2 9) 7 line_set 115
      (101 ∷ 116 ∷ 32 ∷ 97 ∷ 32 ∷ 98 ∷ []) tree_idle refl set_trimmed set_other

-- A GET of a missing key leaves its transaction running.
left_running : is_running (get_status (handle_line values 7 line_get idle).0.db.tx_mgr 7) ≡ true
unfolding handle_line begin get_status lookup compare_bytes get insert
left_running = refl
