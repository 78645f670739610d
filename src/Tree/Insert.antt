-- ===== src/Tree/Insert.antt =====
-- Insert and Delete on the whole tree, where the leaf has room.
use ryu_db.Base.{
  ℕ, ◌≡◌, refl, sym, ap, ◌∙◌, arith, true, Bool-cases, inl, inr, Option, none, some, [], ◌∷◌,
  length, ◌==◌, ==_iff, if◌then◌else◌,
}
use ryu_db.Base.State.{Op, Ends, Ends-and_then, Ends-imp, ended, and_then}
use ryu_db.Page.{Page, set_lsn, get_page_id}
use ryu_db.Page.Fields.{size_put_field}
use ryu_db.Cell.{KvCell}
use ryu_db.Txn.{TransactionManager, set_last_lsn, get_status}
use ryu_db.Txn.Key.{extract_mvcc_key}
use ryu_db.Wal.{Wal}
use ryu_db.Leaf.Read.{sees_commited}
use ryu_db.Buffer.{BufferManager, append_log, unpin_page}
use ryu_db.Buffer.View.{content, view}
use ryu_db.Buffer.Write.{content-set_lsn}
use ryu_db.Buffer.Pins.{IsUsing}
use ryu_db.Buffer.Hold.{append_log-IsUsing}
use ryu_db.Tree.Pages.{store}
use ryu_db.Tree.Held.{store-Stored, unpin_dirty-LetGo}
use ryu_db.Tree.Split.{BTree, on_pages}
use ryu_db.Tree.Ops.{last_lsn_of, remember_lsn, op_of, log_write}

-- Work on the pages leaves the root and the transaction manager alone.
pub record OnPages {A : Type 0} (P : A → BufferManager → Type 0) (t : BTree) (a : A) (t' : BTree)
    : Type 0 where
  pub pages : P a t'.bm
  pub root : t'.root_page_id ≡ t.root_page_id
  pub manager : t'.tx_mgr ≡ t.tx_mgr

pub Ends-on_pages :
    {A : Type 0} {P : A → BufferManager → Type 0} (m : Op BufferManager A) (t : BTree)
    → Ends P (m t.bm)
    → Ends (OnPages P t) (on_pages m t)
Ends-on_pages m t h = rw h.is_ok (
    ended h.value (record t { bm = h.state })
      (record { pages = h.holds; root = refl; manager = refl }))

-- The leaf `id` has been let go with the page that it was given.
pub record Logged (limit id : ℕ) (t t' : BTree) : Type 0 where
  pub use_none : IsUsing limit [] t'.bm
  pub same : (j : ℕ) → view t'.bm j ≡ view t.bm j
  pub root : t'.root_page_id ≡ t.root_page_id
  pub commited : (tx : ℕ) → sees_commited t'.tx_mgr tx ≡ sees_commited t.tx_mgr tx

sees_commited-remember_lsn :
    (m : Option TransactionManager) (txid lsn tx : ℕ)
    → sees_commited (remember_lsn m txid lsn) tx ≡ sees_commited m tx
unfolding set_last_lsn get_status
sees_commited-remember_lsn none txid lsn tx = refl
sees_commited-remember_lsn (some m) txid lsn tx = refl

store_again :
    (limit id lsn : ℕ) (q : Page) (b : BufferManager)
    → IsUsing limit (id ∷ []) b
    → view b id ≡ some (content q)
    → length q.bytes ≡ 4096
    → Ends
        (λ _ b'. IsUsing limit [] b' × ((j : ℕ) → view b' j ≡ view b j))
        (and_then (store id (set_lsn lsn q) b) λ stored. unpin_page id true)
store_again limit id lsn q b h shown size =
    Ends-and_then (store id (set_lsn lsn q) b) _
      (store-Stored limit (id ∷ []) id (set_lsn lsn q) b h (ground arith)
        (size_put_field 12 8 lsn q ∙ size))
      λ u b1 s.
        Ends-imp (unpin_page id true b1) (unpin_dirty-LetGo limit [] id b1 s.use_same)
          λ v b2 l. (l.use_less, λ j. l.same j ∙ s.shown j ∙ unchanged j)
  where
    unchanged : (j : ℕ) → (if id == j then some (content (set_lsn lsn q)) else view b j) ≡ view b j
    unchanged j = elim (Bool-cases (id == j)) [
      | inl e ↦
          let here : id ≡ j = (==_iff id j).0 e in
          rw e (ap some (content-set_lsn lsn q) ∙ sym shown ∙ ap (view b) here)
      | inr ne ↦ rw ne refl
    ]

pub log_write-Logged :
    (limit id : ℕ) (q : Page) (kv : KvCell) (wal : Option Wal) (t : BTree)
    → IsUsing limit (id ∷ []) t.bm
    → get_page_id q ≡ id
    → view t.bm id ≡ some (content q)
    → length q.bytes ≡ 4096
    → Ends (λ _. Logged limit id t) (log_write q kv wal t)
log_write-Logged limit id q kv none t h own shown size = rw own (
    Ends-imp (on_pages (unpin_page id true) t)
      (Ends-on_pages (unpin_page id true) t (unpin_dirty-LetGo limit [] id t.bm h))
      λ u t' o. record {
        use_none = o.pages.use_less;
        same = o.pages.same;
        root = o.root;
        commited = λ tx. ap (λ m. sees_commited m tx) o.manager;
      })
log_write-Logged limit id q kv (some w) t h own shown size =
    let writer = (extract_mvcc_key kv.key).1 in
    let prev = last_lsn_of t.tx_mgr writer in
    let op = op_of kv.flag in
    let r = append_log writer id prev op kv.key kv.value w t.bm in
    let (lsn, use_same, table, file) =
      append_log-IsUsing limit (id ∷ []) writer id prev op kv.key kv.value w t.bm h in
    let same_view : (j : ℕ) → view r.1 j ≡ view t.bm j = λ j. rw (table, file) refl in
    let t1 : BTree = record t { bm = r.1; tx_mgr = remember_lsn t.tx_mgr writer w.current_lsn } in
    let m = λ (b : BufferManager).
      and_then (store id (set_lsn w.current_lsn q) b) λ stored. unpin_page id true in
    rw (own, lsn, own)
      (Ends-imp (on_pages m t1)
        (Ends-on_pages m t1
          (store_again limit id w.current_lsn q r.1 use_same (same_view id ∙ shown) size))
        λ u t' o. record {
          use_none = o.pages.0;
          same = λ j. o.pages.1 j ∙ same_view j;
          root = o.root;
          commited = λ tx.
              ap (λ k. sees_commited k tx) o.manager
              ∙ sees_commited-remember_lsn t.tx_mgr writer w.current_lsn tx;
        })
