-- ===== src/Tree/Statuses.antt =====
-- Reads and writes of the tree leave the status of every transaction as it was.
use ryu_db.Base.{
  ℕ, ◌≡◌, refl, ◌∙◌, true, false, Option, none, some, List, [], ◌∷◌, ◌++◌, Bytes, Result, ok, err,
  panic, page_full,
}
use ryu_db.Base.State.{Op, and_then}
use ryu_db.Page.{
  Page, insert, init, get_page_id, page_type_leaf, page_type_internal, page_type_meta, meta_page_id,
}
use ryu_db.Page.Rebuild.{page_cells, insert_all}
use ryu_db.Cell.{KvCell, new_kv_cell, serialize_key_cell, new_key_cell}
use ryu_db.Txn.{TransactionManager, set_last_lsn, get_status}
use ryu_db.Wal.{Wal}
use ryu_db.Leaf.Write.{Written, fits, must_split, conflicted, write_leaf}
use ryu_db.Buffer.{BufferManager, fetch_page_for_write, unpin_page}
use ryu_db.Tree.Pages.{raise, store, unpin, log_full_page}
use ryu_db.Tree.FreeList.{allocate_page}
use ryu_db.Tree.Split.{
  BTree, on_pages, Bubble, split_internal, grow_root, after_insert, insert_into_parent,
  split_leaf_cells, sort_key_cells, halve_internal, halve_leaf, id_or_zero, page_or_panic,
  update_meta,
}
use ryu_db.Tree.Ops.{
  remember_lsn, finish_logged, log_write, finish_write, upsert_cell, move_value, free_all,
}
use ryu_db.Tree.Descend.{find_leaf_page}

-- The manager that a tree holds, or another one where it holds none.
abbrev pub manager_or : Option TransactionManager → TransactionManager → TransactionManager
manager_or none other = other
manager_or (some m) other = m

pub record SameStatus {A : Type 0} (t : BTree) (r : Result A × BTree) : Type 0 where
  pub same :
      (other : TransactionManager) (x : ℕ)
      → get_status (manager_or r.1.tx_mgr other) x ≡ get_status (manager_or t.tx_mgr other) x

pub and_then-SameStatus :
    {A B : Type 0} (t : BTree) (r : Result A × BTree) (f : A → Op BTree B)
    → SameStatus t r
    → ((a : A) (t' : BTree) → SameStatus t' (f a t'))
    → SameStatus t (and_then r f)
and_then-SameStatus t (ok a, s) f h k = record {
  same = λ other x. (k a s).same other x ∙ h.same other x;
}
and_then-SameStatus t (err e, s) f h k = record { same = h.same }
and_then-SameStatus t (panic, s) f h k = record { same = h.same }

pages_then :
    {A : Type 0} (m : Op BufferManager A) (t : BTree) (f : A → Op BTree (Unit {0}))
    → ((a : A) (t' : BTree) → SameStatus t' (f a t'))
    → SameStatus t (and_then (on_pages m t) f)
pages_then m t f k = and_then-SameStatus t (on_pages m t) f (record { same = λ other x. refl }) k

pages_end : {A : Type 0} (m : Op BufferManager A) (t : BTree) → SameStatus t (on_pages m t)
pages_end m t = record { same = λ other x. refl }

set_root-SameStatus :
    {A : Type 0} (id : ℕ) (t : BTree) (r : Result A × BTree)
    → SameStatus (record t { root_page_id = id }) r
    → SameStatus t r
set_root-SameStatus id t r h = record { same = h.same }

split_internal-SameStatus :
    (page_id : ℕ) (cells : List Bytes) (node : Page) (bubble : Bubble) (t : BTree)
    → ((id : ℕ) (cell : Bytes) (t' : BTree) → SameStatus t' (bubble id cell t'))
    → SameStatus t (split_internal page_id cells node bubble t)
unfolding split_internal
split_internal-SameStatus page_id cells node bubble t h =
    pages_then (raise (sort_key_cells cells)) t _ λ sorted t1.
      pages_then (store page_id (init page_type_internal node)) t1 _ λ u t2.
        pages_then (λ b. id_or_zero (allocate_page page_type_internal b)) t2 _
          λ new_id t3.
            pages_then (λ b. page_or_panic (fetch_page_for_write new_id page_type_internal b)) t3 _
              λ new_node t4. pages_then (raise (halve_internal sorted)) t4 _ λ halves t5.
                pages_then (raise (insert_all halves.left (init page_type_internal node))) t5 _
                  λ left t6. pages_then (raise (insert_all halves.right new_node)) t6 _ λ right t7.
                    pages_then (log_full_page (get_page_id left) left) t7 _ λ left' t8.
                      pages_then (log_full_page new_id right) t8 _ λ right' t9.
                        pages_then (store page_id left') t9 _ λ u1 t10.
                          pages_then (store new_id right') t10 _ λ u2 t11.
                            pages_then (unpin (get_page_id left') true) t11 _ λ u3 t12.
                              pages_then (unpin new_id true) t12 _ λ u4 t13.
                                h (get_page_id left')
                                  (serialize_key_cell (new_key_cell new_id halves.routing_key)) t13

grow_root-SameStatus : (id : ℕ) (cell : Bytes) (t : BTree) → SameStatus t (grow_root id cell t)
unfolding grow_root
grow_root-SameStatus id cell t =
    pages_then (λ b. id_or_zero (allocate_page page_type_internal b)) t _
      λ new_id t1.
        pages_then (λ b. page_or_panic (fetch_page_for_write new_id page_type_internal b)) t1 _
          λ new_root t2.
            pages_then
              (raise (insert_all (serialize_key_cell (new_key_cell id []) ∷ cell ∷ []) new_root)) t2
              _
              λ filled t3. set_root-SameStatus new_id t3 _ (
                pages_then (log_full_page new_id filled) (record t3 { root_page_id = new_id }) _
                  λ logged t4. pages_then (store new_id logged) t4 _ λ u t5.
                    pages_then
                      (λ b. update_meta new_id (fetch_page_for_write meta_page_id page_type_meta b))
                      t5 _ λ u1 t6. pages_end (unpin_page new_id true) t6)

after_insert-SameStatus :
    (parent_id : ℕ) (parent : Page) (cell : Bytes) (bubble : Bubble) (r : Result (ℕ × Page))
    (t : BTree)
    → ((id : ℕ) (cell : Bytes) (t' : BTree) → SameStatus t' (bubble id cell t'))
    → SameStatus t (after_insert parent_id parent cell bubble r t)
after_insert-SameStatus parent_id parent cell bubble (ok p) t h = record { same = λ other x. refl }
after_insert-SameStatus parent_id parent cell bubble (err page_full) t h =
    pages_then (raise (page_cells parent)) t _
      λ cells t1. split_internal-SameStatus parent_id (cells ++ cell ∷ []) parent bubble t1 h
after_insert-SameStatus parent_id parent cell bubble (err e) t h =
    pages_then (unpin parent_id false) t _ λ u t1. record { same = λ other x. refl }
after_insert-SameStatus parent_id parent cell bubble panic t h = record { same = λ other x. refl }

insert_into_parent-SameStatus :
    (path : List ℕ) (id : ℕ) (cell : Bytes) (t : BTree)
    → SameStatus t (insert_into_parent path id cell t)
unfolding insert_into_parent
insert_into_parent-SameStatus [] id cell t = grow_root-SameStatus id cell t
insert_into_parent-SameStatus (parent_id ∷ path) id cell t =
    pages_then (fetch_page_for_write parent_id page_type_internal) t _ λ parent t1.
      after_insert-SameStatus parent_id parent cell (insert_into_parent path) (insert cell parent)
        t1 (insert_into_parent-SameStatus path)

split_leaf_cells-SameStatus :
    (page_id : ℕ) (leaf : Page) (path : List ℕ) (cells : List Bytes) (t : BTree)
    → SameStatus t (split_leaf_cells page_id leaf path cells t)
unfolding split_leaf_cells
split_leaf_cells-SameStatus page_id leaf path cells t =
    pages_then (store page_id (init page_type_leaf leaf)) t _ λ u t1.
      pages_then (allocate_page page_type_leaf) t1 _ λ new_id t2.
        pages_then (fetch_page_for_write new_id page_type_leaf) t2 _ λ new_leaf t3.
          pages_then (raise (halve_leaf cells)) t3 _ λ halves t4.
            pages_then (raise (insert_all halves.left (init page_type_leaf leaf))) t4 _ λ left t5.
              pages_then (raise (insert_all halves.right new_leaf)) t5 _ λ right t6.
                pages_then (log_full_page (get_page_id left) left) t6 _ λ left' t7.
                  pages_then (log_full_page (get_page_id right) right) t7 _ λ right' t8.
                    pages_then (store page_id left') t8 _ λ u1 t9.
                      pages_then (store new_id right') t9 _ λ u2 t10.
                        pages_then (unpin (get_page_id left') true) t10 _ λ u3 t11.
                          pages_then (unpin new_id true) t11 _ λ u4 t12.
                            insert_into_parent-SameStatus path (get_page_id left')
                              (serialize_key_cell (new_key_cell new_id halves.routing_key)) t12

remembered :
    (m : Option TransactionManager) (writer lsn : ℕ) (other : TransactionManager) (x : ℕ)
    → get_status (manager_or (remember_lsn m writer lsn) other) x
      ≡ get_status (manager_or m other) x
unfolding set_last_lsn get_status
remembered none writer lsn other x = refl
remembered (some m) writer lsn other x = refl

finish_logged-SameStatus :
    (leaf : Page) (writer : ℕ) (r : Option ℕ × BufferManager) (t : BTree)
    → SameStatus t (finish_logged leaf writer r t)
finish_logged-SameStatus leaf writer (none, b) t = record { same = λ other x. refl }
finish_logged-SameStatus leaf writer (some lsn, b) t = record {
  same = remembered t.tx_mgr writer lsn;
}

log_write-SameStatus :
    (leaf : Page) (kv : KvCell) (w : Option Wal) (t : BTree) → SameStatus t (log_write leaf kv w t)
log_write-SameStatus leaf kv none t = record { same = λ other x. refl }
log_write-SameStatus leaf kv (some w) t = finish_logged-SameStatus leaf _ _ t

finish_write-SameStatus :
    (leaf : Page) (path : List ℕ) (kv : KvCell) (o : Written) (t : BTree)
    → SameStatus t (finish_write leaf path kv o t)
finish_write-SameStatus leaf path kv conflicted t = record { same = λ other x. refl }
finish_write-SameStatus leaf path kv (fits q) t =
    pages_then (store (get_page_id leaf) q) t _ λ u t'. log_write-SameStatus q kv t'.bm.wal t'
finish_write-SameStatus leaf path kv (must_split cells) t =
    split_leaf_cells-SameStatus _ leaf path cells t

-- Whatever becomes of a write, it leaves the status of every transaction as it was.
pub upsert_cell-SameStatus :
    (fuel : ℕ) (key value : Bytes) (flag : ℕ) (t : BTree)
    → SameStatus t (upsert_cell fuel key value flag t)
unfolding upsert_cell
upsert_cell-SameStatus fuel key value flag t =
    pages_then (find_leaf_page fuel t.root_page_id key true) t _ λ found t1.
      pages_then (move_value value flag) t1 _ λ moved t2.
        pages_then (raise (write_leaf t2.tx_mgr (new_kv_cell moved.1 key moved.0) found.0)) t2 _
          λ done t3. pages_then (free_all fuel done.1) t3 _ λ freed t4.
            finish_write-SameStatus found.0 found.1 (new_kv_cell moved.1 key moved.0) done.0 t4
