-- ===== src/Leaf/WriteLeaf.antt =====
-- upsertCell on a whole leaf: what it writes, what it refuses, and who sees it.
use ryu_db.Base.{ℕ, ◌+◌, ◌^◌, ◌≤◌, ◌<◌, ◌≡◌, inl, refl, sym, ap, ◌∙◌, arith, List, [], Bytes}
use ryu_db.Base.{true, false, Option, some, Result, ok, leb, le→leb}
use ryu_db.Page.{Page, page_type_leaf, get_page_type, get_page_id}
use ryu_db.Page.Rebuild.{cells_size, Holds, page_cells-Holds, rebuild-Holds}
use ryu_db.Txn.{TransactionManager}
use ryu_db.Txn.Key.{build_mvcc_key}
use ryu_db.Leaf.Read.{find_latest_in, latest_value}
use ryu_db.Leaf.Versions.{Version, version_key, raw, to_cell, raw_leaf, IsVersion, IsLeaf}
use ryu_db.Leaf.Latest.{sees, map_cell}
use ryu_db.Leaf.VacuumPage.{find_latest_in-Holds}
use ryu_db.Leaf.Put.{put, put-IsLeaf, newest-put_own, newest-put_unseen}
use ryu_db.Leaf.Scan.{has_conflict, scan-conflict, scan-put}
use ryu_db.Leaf.Inline.{AllInline, scan-freed, scan-conflict_freed}
use ryu_db.Leaf.Write.{fits, must_split, conflicted, write_leaf}

module _ (tx_mgr : Option TransactionManager) (new : Version) (leaf : Page) (vs : List Version)
    (hn : IsVersion new) (holds : Holds leaf (raw_leaf vs)) (h : IsLeaf vs) where
  -- On a slotted leaf of sorted versions, where a version conflicts with the writer, the scan ends in
  -- a write-write conflict, and hands no chain on where every cell holds its value.
  pub write_leaf_conflict :
      has_conflict tx_mgr new vs ≡ true
      → (freed : List Bytes) × (write_leaf tx_mgr (to_cell new) leaf ≡ ok (conflicted, freed))
        × (AllInline vs → freed ≡ [])
  unfolding write_leaf
  write_leaf_conflict e =
      let (freed, found) = scan-conflict tx_mgr new vs hn h.0 e in
      (
        freed,
        rw (page_cells-Holds leaf (raw_leaf vs) holds, found) refl,
        λ inline. scan-conflict_freed tx_mgr (version_key new) (raw new) vs freed h.0 inline found,
      )

  -- Without a conflict, and where the cells fit, the leaf holds the old versions with the new one
  -- put in its place, in order.
  pub write_leaf_fits :
      has_conflict tx_mgr new vs ≡ false
      → 32 + cells_size (raw_leaf (put new vs)) ≤ 4096
      → (q : Page) × (freed : List Bytes) × (write_leaf tx_mgr (to_cell new) leaf
          ≡ ok (fits q, freed))
        × Holds q (raw_leaf (put new vs))
        × IsLeaf (put new vs)
        × (get_page_type q ≡ page_type_leaf)
        × (get_page_id q ≡ get_page_id leaf)
        × (AllInline vs → freed ≡ [])
  unfolding write_leaf
  write_leaf_fits e room =
      let (s, scans, sorts, total) = scan-put tx_mgr new vs hn h e in
      let (q, rebuilt, q_holds, cells, kind, id) =
        rebuild-Holds page_type_leaf leaf (inl refl) holds.is_page.size (raw_leaf (put new vs))
          room in
      let small : leb s.total_space 4096 ≡ true =
        le→leb s.total_space 4096 (omega (arith, total)) in
      (
        q,
        s.freed,
        rw (page_cells-Holds leaf (raw_leaf vs) holds, scans, sorts, small, rebuilt) refl,
        q_holds,
        put-IsLeaf new vs hn h,
        kind,
        id,
        λ inline. scan-freed tx_mgr (version_key new) (raw new) vs s h.0 inline scans,
      )

  -- On a slotted leaf of sorted versions, without a conflict, and where the cells do not fit a page,
  -- the old versions with the new one put in its place are handed to the split in order.
  pub write_leaf_splits :
      has_conflict tx_mgr new vs ≡ false
      → 4096 < 32 + cells_size (raw_leaf (put new vs))
      → (freed : List Bytes) × (write_leaf tx_mgr (to_cell new) leaf
          ≡ ok (must_split (raw_leaf (put new vs)), freed))
  unfolding write_leaf
  write_leaf_splits e large =
      let (s, scans, sorts, total) = scan-put tx_mgr new vs hn h e in
      let big : leb s.total_space 4096 ≡ false = ground (arith, total) in
      (s.freed, rw (page_cells-Holds leaf (raw_leaf vs) holds, scans, sorts, big) refl)

-- On a slotted leaf of sorted versions, a write without a conflict whose cells fit the page succeeds;
-- FindLatest then answers the writing transaction with the new version, and every reader with an id
-- of 64 bits that may not see the new version with what it answered before the write. No user key of
-- a version has a zero byte.
pub find_latest-write_leaf :
    (tx_mgr : Option TransactionManager) (new : Version) (leaf : Page) (vs : List Version)
    → IsVersion new
    → Holds leaf (raw_leaf vs)
    → IsLeaf vs
    → has_conflict tx_mgr new vs ≡ false
    → 32 + cells_size (raw_leaf (put new vs)) ≤ 4096
    → (q : Page) × (freed : List Bytes) × (write_leaf tx_mgr (to_cell new) leaf
        ≡ ok (fits q, freed))
      × ((read_chain : Bytes → Result Bytes) (mgr : Option TransactionManager)
          → find_latest_in read_chain (build_mvcc_key new.user new.tx) mgr q
            ≡ latest_value read_chain (some (to_cell new)))
      × ((read_chain : Bytes → Result Bytes) (mgr : Option TransactionManager) (user : Bytes)
            (reader : ℕ)
          → reader < 2 ^ 64
          → sees mgr user reader new ≡ false
          → find_latest_in read_chain (build_mvcc_key user reader) mgr q
            ≡ find_latest_in read_chain (build_mvcc_key user reader) mgr leaf)
find_latest-write_leaf tx_mgr new leaf vs hn holds h e room =
    let (q, freed, written, q_holds, q_leaf, kind, id, inline) =
      write_leaf_fits tx_mgr new leaf vs hn holds h e room in
    (
      q,
      freed,
      written,
      λ read_chain mgr.
          find_latest_in-Holds read_chain mgr new.user new.tx q (put new vs) hn.id q_holds q_leaf
          ∙ ap (λ (o : Option Version). latest_value read_chain (map_cell o))
              (newest-put_own mgr new hn vs h),
      λ read_chain mgr user reader hr unseen.
          find_latest_in-Holds read_chain mgr user reader q (put new vs) hr q_holds q_leaf
          ∙ ap (λ (o : Option Version). latest_value read_chain (map_cell o))
              (newest-put_unseen mgr user reader new vs hn h.0 unseen)
          ∙ sym (find_latest_in-Holds read_chain mgr user reader leaf vs hr holds h),
    )
