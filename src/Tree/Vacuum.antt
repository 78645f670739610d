-- ===== src/Tree/Vacuum.antt =====
-- internal/storage/vacuum.go: the walk over the tree. `fuel` bounds the depth of the tree and the
-- length of an overflow chain.
use ryu_db.Base.{ℕ, zero, suc, Bool, true, false, List, [], ◌∷◌, Option, none, some}
use ryu_db.Base.{Bytes, ltb, ◌==◌, if◌then◌else◌, Result, ok, err, panic, out_of_fuel}
use ryu_db.Base
use ryu_db.Base.State.{Op, and_then, ◌>>=◌, ignore}
use ryu_db.Cell.{KeyCell}
use ryu_db.Page.{Page, page_type_leaf, page_type_internal, get_page_type}
use ryu_db.Page.Rebuild.{page_cells, rebuild}
use ryu_db.Txn.{TransactionManager, get_min_active_tx_id, prune_tables}
use ryu_db.Leaf.Clean.{Vacuumed, vacuum_cells}
use ryu_db.Buffer.{fetch_page_for_read, fetch_page_for_write, unpin_page}
use ryu_db.Tree.Pages.{Pages, raise, store, unpin}
use ryu_db.Tree.Descend.{key_cells}
use ryu_db.Tree.Split.{BTree, on_pages}
use ryu_db.Tree.Ops.{free_all}

-- The page is written anew only if a cell went.
abbrev pub clean_leaf : ℕ → Page → Vacuumed → Pages (Unit {0})
clean_leaf page_id leaf done =
    if ltb 0 done.cleaned_count
    then (do
      q ← raise (rebuild page_type_leaf done.cells_to_keep leaf)
      _ ← store page_id q
      unpin_page page_id true)
    else unpin_page page_id false

unfoldable pub vacuum_leaf_page : ℕ → ℕ → ℕ → Pages (Unit {0})
unfolding fetch_page_for_write vacuum_cells
vacuum_leaf_page fuel page_id min_active = do
  leaf ← fetch_page_for_write page_id page_type_leaf
  done ← raise (Base.◌>>=◌ (page_cells leaf) (vacuum_cells min_active))
  _ ← free_all fuel done.freed
  clean_leaf page_id leaf done

-- The children in turn; the error of one is not looked at.
abbrev pub vacuum_children : (ℕ → Pages (Unit {0})) → List KeyCell → Pages (Unit {0})
vacuum_children visit [] b = (ok tt, b)
vacuum_children visit (k ∷ ks) b =
    and_then (if k.child_page_id == 0 then (ok tt, b) else ignore (visit k.child_page_id b))
      λ done. vacuum_children visit ks

unfoldable pub vacuum_node : ℕ → ℕ → ℕ → Pages (Unit {0})
unfolding fetch_page_for_read vacuum_leaf_page key_cells
vacuum_node zero min_active page_id b = (err out_of_fuel, b)
vacuum_node (suc fuel) min_active page_id b =
    and_then (fetch_page_for_read page_id page_type_internal b) λ p b1.
      let leaf =
        and_then (unpin page_id false b1) λ done. vacuum_leaf_page (suc fuel) page_id min_active in
      let internal = and_then (raise (Base.◌>>=◌ (page_cells p) key_cells) b1) λ ks b2.
        and_then (unpin page_id false b2)
          λ done. vacuum_children (λ child. vacuum_node fuel min_active child) ks in
      if get_page_type p == page_type_leaf then leaf else internal

abbrev pub prune_with : ℕ → Option TransactionManager → Option TransactionManager
prune_with min_active none = none
prune_with min_active (some m) = some (prune_tables min_active m)

-- The transaction manager is pruned whatever the walk ends in.
abbrev pub vacuum_with : ℕ → TransactionManager → Op BTree (Unit {0})
vacuum_with fuel m t =
    let min_active = get_min_active_tx_id m in
    let (r, t') = on_pages (vacuum_node fuel min_active t.root_page_id) t in
    (r, record t' { tx_mgr = prune_with min_active t'.tx_mgr })

abbrev pub vacuum_managed : ℕ → Option TransactionManager → Op BTree (Unit {0})
vacuum_managed fuel none t = (panic, t)
vacuum_managed fuel (some m) t = vacuum_with fuel m t

unfoldable pub vacuum : ℕ → Op BTree (Unit {0})
unfolding vacuum_node
vacuum fuel t = vacuum_managed fuel t.tx_mgr t
