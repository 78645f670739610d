-- ===== src/Tree/LongRead.antt =====
-- FindLatest where the version that it finds holds its value in overflow pages.
use ryu_db.Base.{
  ℕ, zero, suc, ◌+◌, ◌^◌, ◌≤◌, ◌<◌, ◌≡◌, ◌≢◌, refl, sym, ap, ◌∙◌, arith, Bool, true, false, inl,
  inr, Option, none, some, List, [], ◌∷◌, Bytes, length, ◌==◌, ==_iff, if◌then◌else◌, Result, ok,
}
use ryu_db.Base
use ryu_db.Leaf.Read.{find_latest_loop}
use ryu_db.Base.State.{Op, and_then, Ends, Ends-and_then, Ends-imp, ended}
use ryu_db.Page.{Page, get_page_id}
use ryu_db.Page.Rebuild.{Holds, page_cells, page_cells-Holds}
use ryu_db.Cell.{is_overflow}
use ryu_db.Txn.Key.{build_mvcc_key}
use ryu_db.Leaf.Versions.{Version, IsLeaf, raw_leaf, to_cell}
use ryu_db.Leaf.Latest.{newest, find_latest_loop-leaf}
use ryu_db.Buffer.{BufferManager}
use ryu_db.Buffer.View.{view}
use ryu_db.Buffer.Pins.{IsUsing}
use ryu_db.Tree.Pages.{Pages, deferring, raise, unpin}
use ryu_db.Tree.Content.{Holds-content}
use ryu_db.Tree.Descend.{find_leaf_page, next_child_id}
use ryu_db.Tree.Walk.{LeadsTo}
use ryu_db.Tree.WalkWrite.{find_leaf_page-Found}
use ryu_db.Tree.Overflow.{read_overflow_chain}
use ryu_db.Tree.ReadChain.{IsChain, metadata_of}
use ryu_db.Tree.ReadHeld.{IsIdle, read_overflow_chain-Reading}
use ryu_db.Tree.Split.{BTree}
use ryu_db.Tree.Ops.{find_latest, latest_on_leaf, found_latest}

-- The way does not depend on pages that are not on it.
pub LeadsTo-sub :
    (v w : ℕ → Option Page) (key : Bytes) (n id leaf_id : ℕ) (leaf : Page)
    → ((j : ℕ) (p : Page) → v j ≡ some p → w j ≡ some p)
    → LeadsTo v key n id leaf_id leaf
    → LeadsTo w key n id leaf_id leaf
LeadsTo-sub v w key zero id leaf_id leaf sub (e, shown, kind) = (e, sub id leaf shown, kind)
LeadsTo-sub v w key (suc n) id leaf_id leaf sub
      (p, ks, shown, is_page, kind, cells, real, further) =
    (
      p,
      ks,
      sub id p shown,
      is_page,
      kind,
      cells,
      real,
      LeadsTo-sub v w key n (next_child_id key ks) leaf_id leaf sub further,
    )

-- What comes behind does not change the answer.
Ends-deferred :
    {A : Type 0} {P : A → Type 0} (m : Op BufferManager A) (last : Pages (Unit {0}))
    (b : BufferManager)
    → Ends (λ a _. P a) (m b)
    → Ends (λ a _. P a) (deferring m last b)
Ends-deferred {P = P} m last b h = rw (h.is_ok) (ended h.value (last h.state).1 h.holds)

-- On a well-formed pool where no page is in use, no write fails and there is room for two, FindLatest
-- answers by the value of the chain that the newest version that its reader sees names, if that is not
-- a deletion, the routing cells lead to its leaf, which holds sorted versions, the leaf is no page of
-- the chain, the reader's id has 64 bits, the first page's id and the value's length have 32, and the
-- fuel is above the number of the internal pages and not below that of the chain's.
pub find_latest-chain :
    (limit n pages fuel first : ℕ) (user : Bytes) (reader leaf_id : ℕ) (leaf : Page)
    (vs : List Version) (found : Version) (value : Bytes) (v : ℕ → Option Page) (t : BTree)
    → reader < 2 ^ 64
    → IsUsing limit [] t.bm
    → 1 < limit
    → LeadsTo (view t.bm) (build_mvcc_key user reader) n t.root_page_id leaf_id leaf
    → n < fuel
    → Holds leaf (raw_leaf vs)
    → IsLeaf vs
    → newest t.tx_mgr user reader vs ≡ some found
    → (found.flag == 2) ≡ false
    → is_overflow (to_cell found) ≡ true
    → found.value ≡ metadata_of first value
    → IsIdle (leaf_id ∷ []) v t.bm
    → IsChain v pages first value
    → pages ≤ fuel
    → first < 2 ^ 32
    → length value < 2 ^ 32
    → (find_latest fuel (build_mvcc_key user reader) t).0 ≡ ok value
unfolding find_latest
find_latest-chain limit n pages fuel first user reader leaf_id leaf vs found value v t hr h room
      leads enough holds is_leaf newest_is there overflow names sub chain few small_id small =
    let key = build_mvcc_key user reader in
    let r : Ends (λ (a : Bytes) (b : BufferManager). a ≡ value)
        (and_then (find_leaf_page fuel t.root_page_id key false t.bm)
          (latest_on_leaf fuel key t.tx_mgr)) =
      Ends-and_then (find_leaf_page fuel t.root_page_id key false t.bm)
        (latest_on_leaf fuel key t.tx_mgr)
        (find_leaf_page-Found false limit n fuel key t.root_page_id leaf_id leaf t.bm h
          (omega (arith, room)) leads enough)
        λ w b1 f.
          let p = w.0 in
          let cells : page_cells p ≡ ok (raw_leaf vs) =
            page_cells-Holds p (raw_leaf vs)
              (Holds-content p (raw_leaf vs) (rw (f.holding.shown) holds)) in
          let best = find_latest_loop-leaf t.tx_mgr user reader hr vs is_leaf in
          let read_best : Pages Bytes = λ b2.
            and_then
              (raise (Base.◌>>=◌ (page_cells p) λ cs. find_latest_loop key t.tx_mgr cs none) b2)
              (found_latest fuel) in
          Ends-deferred read_best (unpin (get_page_id p) false) b1 (
            rw (cells, best, newest_is, there, overflow, names)
              (Ends-imp (read_overflow_chain fuel (metadata_of first value) b1)
                (read_overflow_chain-Reading limit (leaf_id ∷ []) v pages fuel first value b1
                  f.holding.use_more room
                  (λ j q e. let (shown, idle) = sub j q e in (f.holding.same j ∙ shown, idle)) chain
                  few small_id small)
                λ a b2 g. g.whole)) in
    ap (λ k. k.0) r.is_ok ∙ ap ok r.holds
