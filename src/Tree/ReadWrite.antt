-- ===== src/Tree/ReadWrite.antt =====
-- What FindLatest answers behind a write.
use ryu_db.Base.{
  ℕ, zero, suc, ◌+◌, ◌^◌, ◌≤◌, ◌<◌, ◌≡◌, refl, sym, ap, ◌∙◌, arith, Bool, ltb, true, false,
  Bool-cases, inl, inr, Option, none, some, List, [], ◌∷◌, Bytes, length, ◌==◌, ==_iff,
  if◌then◌else◌, ok,
}
use ryu_db.Base.State.{Ends, Ends-imp}
use ryu_db.Bytes.Order.{bytes_eq}
use ryu_db.Page.{Page, get_page_id, get_page_type, page_type_leaf}
use ryu_db.Page.Rebuild.{Holds, cells_size}
use ryu_db.Txn.{TransactionManager}
use ryu_db.Txn.Key.{build_mvcc_key}
use ryu_db.Leaf.Read.{sees_commited, latest_value}
use ryu_db.Leaf.Versions.{Version, IsVersion, IsLeaf, raw_leaf, to_cell, version_key}
use ryu_db.Leaf.Latest.{sees, newest, map_cell}
use ryu_db.Leaf.Put.{put, All-put, put-IsLeaf, newest-put_own, newest-put_unseen}
use ryu_db.Leaf.Inline.{AllInline, newest-IsInline}
use ryu_db.Leaf.Scan.{has_conflict}
use ryu_db.Cell.{is_overflow}
use ryu_db.Buffer.{BufferManager}
use ryu_db.Buffer.View.{view}
use ryu_db.Buffer.Pins.{IsUsing}
use ryu_db.Buffer.Ready.{IsReady}
use ryu_db.Tree.Split.{BTree}
use ryu_db.Tree.Ops.{find_latest, upsert_cell}
use ryu_db.Tree.Walk.{LeadsTo}
use ryu_db.Tree.Latest.{find_latest-newest}
use ryu_db.Tree.Upsert.{upsert_cell-Puts}
use ryu_db.Tree.Descend.{next_child_id}

pub IsUsing-IsReady : (limit : ℕ) (b : BufferManager) → IsUsing limit [] b → 0 < limit → IsReady b
IsUsing-IsReady limit b h room = record {
  quiet = record { pool = h.pool; unused = h.pins };
  writes = h.writes;
  room = omega (arith, room, h.size);
}

pub LeadsTo-end :
    (v : ℕ → Option Page) (key : Bytes) (n id leaf_id : ℕ) (leaf : Page)
    → LeadsTo v key n id leaf_id leaf
    → (v leaf_id ≡ some leaf) × (get_page_type leaf ≡ page_type_leaf)
LeadsTo-end v key zero id leaf_id leaf (here, shown, kind) = (ap v (sym here) ∙ shown, kind)
LeadsTo-end v key (suc n) id leaf_id leaf (p, ks, shown, is_page, kind, cells, real, further) =
    LeadsTo-end v key n (next_child_id key ks) leaf_id leaf further

-- The way to a leaf stays where the leaf is written to.
pub LeadsTo-leaf :
    (v w : ℕ → Option Page) (key : Bytes) (n id leaf_id : ℕ) (leaf leaf' : Page)
    → ((j : ℕ) → w j ≡ (if leaf_id == j then some leaf' else v j))
    → get_page_type leaf' ≡ page_type_leaf
    → LeadsTo v key n id leaf_id leaf
    → LeadsTo w key n id leaf_id leaf'
LeadsTo-leaf v w key zero id leaf_id leaf leaf' same kind (here, shown, _) =
    let test : (leaf_id == id) ≡ true = (==_iff leaf_id id).1 (sym here) in
    (here, same id ∙ (rw test refl), kind)
LeadsTo-leaf v w key (suc n) id leaf_id leaf leaf' same kind
      (p, ks, shown, is_page, internal, cells, real, further) =
    let (at_end, end_kind) = LeadsTo-end v key n (next_child_id key ks) leaf_id leaf further in
    let apart : (leaf_id == id) ≡ false = elim (Bool-cases (leaf_id == id)) [
      | inr ne ↦ ne
      | inl e ↦
          let here : leaf_id ≡ id = (==_iff leaf_id id).0 e in
          let one : some leaf ≡ some p = sym at_end ∙ ap v here ∙ shown in
          let page : leaf ≡ p = cc one in absurd (internal (ap get_page_type (sym page) ∙ end_kind))
    ] in
    (
      p,
      ks,
      same id ∙ (rw apart shown),
      is_page,
      internal,
      cells,
      real,
      LeadsTo-leaf v w key n (next_child_id key ks) leaf_id leaf leaf' same kind further,
    )

-- Who sees what depends on the commited transactions only.
abbrev sees_by : Version → Bytes → ℕ → Bool → Bool
sees_by v user reader commited =
    if bytes_eq v.user user
    then (if ltb reader v.tx then false else if v.tx == reader then true else commited)
    else false

newest-commited :
    (m m' : Option TransactionManager) (user : Bytes) (reader : ℕ) (vs : List Version)
    → ((tx : ℕ) → sees_commited m' tx ≡ sees_commited m tx)
    → newest m' user reader vs ≡ newest m user reader vs
unfolding newest
newest-commited m m' user reader [] same = refl
newest-commited m m' user reader (v ∷ vs) same =
    let sees_same : sees m' user reader v ≡ sees m user reader v =
      ap (sees_by v user reader) (same v.tx) in
    let rest = newest-commited m m' user reader vs same in
    λ i. elim (rest i) [ some w ↦ some w | none ↦ if sees_same i then some v else none ]

-- On a well-formed pool where no page is in use, no write fails and there is room for a page, a write
-- of a version by which no version on its leaf conflicts, and whose cells fit that leaf and hold
-- their values, succeeds; FindLatest then answers the writing transaction with the new version, and
-- every reader with an id of 64 bits that the routing cells lead to the leaf, and that may not see
-- the new version, with what it answered before the write. The leaf, to which the routing cells lead,
-- holds its own id and sorted versions, the value has at most 1024 bytes, and the fuel is above the
-- number of the internal pages. No user key of a version has a zero byte.
pub find_latest-upsert_cell :
    (limit n fuel leaf_id : ℕ) (leaf : Page) (new : Version) (vs : List Version) (t : BTree)
    → IsUsing limit [] t.bm
    → 0 < limit
    → LeadsTo (view t.bm) (version_key new) n t.root_page_id leaf_id leaf
    → n < fuel
    → get_page_id leaf ≡ leaf_id
    → Holds leaf (raw_leaf vs)
    → IsLeaf vs
    → AllInline vs
    → IsVersion new
    → is_overflow (to_cell new) ≡ false
    → length new.value ≤ 1024
    → has_conflict t.tx_mgr new vs ≡ false
    → 32 + cells_size (raw_leaf (put new vs)) ≤ 4096
    → Ends
        (λ _ t'.
          ((find_latest fuel (version_key new) t').0 ≡ latest_value ok (some (to_cell new)))
          × ((user : Bytes) (reader m : ℕ)
              → reader < 2 ^ 64
              → LeadsTo (view t.bm) (build_mvcc_key user reader) m t.root_page_id leaf_id leaf
              → m < fuel
              → sees t.tx_mgr user reader new ≡ false
              → (find_latest fuel (build_mvcc_key user reader) t').0
                ≡ (find_latest fuel (build_mvcc_key user reader) t).0))
        (upsert_cell fuel (version_key new) new.value new.flag t)
find_latest-upsert_cell limit n fuel leaf_id leaf new vs t h room leads enough own holds is_leaf
      inline hn plain short apart fit =
    Ends-imp (upsert_cell fuel (version_key new) new.value new.flag t)
      (upsert_cell-Puts limit n fuel leaf_id leaf new vs t h room leads enough own holds is_leaf
        inline hn short apart fit)
      λ u t' p.
        let ready = IsUsing-IsReady limit t'.bm p.use_none room in
        let new_leaf = put-IsLeaf new vs hn is_leaf in
        let new_inline : AllInline (put new vs) =
          All-put (λ v. is_overflow (to_cell v) ≡ false) new vs plain inline in
        let answers =
          λ (user : Bytes) (reader m : ℕ) (hr : reader < 2 ^ 64)
              (way : LeadsTo (view t.bm) (build_mvcc_key user reader) m t.root_page_id leaf_id leaf)
              (few : m < fuel).
            (find_latest-newest m fuel user reader leaf_id p.leaf (put new vs) t' hr ready
              (rw (p.root) (
                LeadsTo-leaf (view t.bm) (view t'.bm) (build_mvcc_key user reader) m t.root_page_id
                  leaf_id leaf p.leaf p.shown p.is_leaf way))
              few p.own_id p.holds new_leaf
              (newest-IsInline t'.tx_mgr user reader (put new vs) new_inline)).0 in
        (
          answers new.user new.tx n hn.id leads enough
              ∙ ap (λ (o : Option Version). latest_value ok (map_cell o))
                  (newest-put_own t'.tx_mgr new hn vs is_leaf),
          λ user reader m hr way few unseen.
              answers user reader m hr way few
              ∙ ap (λ (o : Option Version). latest_value ok (map_cell o))
                  (newest-commited t.tx_mgr t'.tx_mgr user reader (put new vs) p.commited
                    ∙ newest-put_unseen t.tx_mgr user reader new vs hn is_leaf.0 unseen)
              ∙ sym
                  (find_latest-newest m fuel user reader leaf_id leaf vs t hr
                    (IsUsing-IsReady limit t.bm h room) way few own holds is_leaf
                    (newest-IsInline t.tx_mgr user reader vs inline)).0,
        )
