-- ===== src/Tests/Trees.antt =====
-- Runs of findLeafPage and FindLatest: internal/storage/btree.go.
use ryu_db.Base.{
  ℕ, zero, suc, ◌+◌, ◌*◌, ◌^◌, ◌<◌, ◌≤◌, ◌≡◌, ◌≢◌, inl, inr, refl, sym, ap, ◌∙◌, arith, true, false,
  Option, none, some, List, [], ◌∷◌, ◌++◌, Bytes, length, length-replicate, replicate, ok, ◌==◌,
  if◌then◌else◌, ◌>>=◌, slice, slice?, take, drop, write, length-write, slice-write_same,
}
use ryu_db.Base.Table.{lookup}
use ryu_db.Bytes.Binary.{le_value}
use ryu_db.Bytes.Order.{compare_bytes}
use ryu_db.Cell.{KeyCell, serialize_key_cell}
use ryu_db.Page.Fields.{size_put_field, read_field-put_field}
use ryu_db.Page.{Page, get_page_type, page_type_leaf, page_type_internal}
use ryu_db.Page.Rebuild.{Holds, rebuild, rebuild-Holds, page_cells}
use ryu_db.Buffer.{Frame, BufferManager, new_buffer_manager, put_frame}
use ryu_db.Buffer.View.{content, view, IsFrame, IsPool}
use ryu_db.Buffer.Fetch.{put_frame-IsPool}
use ryu_db.Buffer.Ready.{IsReady}
use ryu_db.Tree.Descend.{key_cells, match_loop, child_of, next_child_id, find_leaf_page}
use ryu_db.Tree.Route.{covering, next_child_id-covering}
use ryu_db.Tree.Walk.{LeadsTo, Finds, find_leaf_page-Finds}
use ryu_db.Tree.Content.{content-IsPage, content-field, page_cells-content}
use ryu_db.Cell.{is_overflow}
use ryu_db.Page.{put_field, get_page_id}
use ryu_db.Page.Fields.{read_field-put_field_ne}
use ryu_db.Txn.{get_status}
use ryu_db.Txn.Key.{build_mvcc_key}
use ryu_db.Leaf.Read.{latest_value}
use ryu_db.Leaf.Versions.{raw_leaf}
use ryu_db.Leaf.Latest.{newest, map_cell}
use ryu_db.Tree.Content.{content-Holds}
use ryu_db.Tree.Split.{BTree}
use ryu_db.Tree.Ops.{find_latest}
use ryu_db.Tree.Latest.{Answers, find_latest-newest}
use ryu_db.Tests.Leaves.{k, young, versions, versions-IsLeaf, sample_room, manager}
use ryu_db.Tests.Pages.{blank, size_blank}
use ryu_db.Tests.Buffers.{disk, size_disk, calm}

-- Keys below "m" lie under the page 1, the others under the page 7.
abbrev pub routing : List KeyCell
routing = record { key = []; child_page_id = 1 } ∷ record { key = 109 ∷ []; child_page_id = 7 } ∷ []

next_child_id-covering_example :
    next_child_id (107 ∷ []) routing ≡ child_of (covering (107 ∷ []) none routing) routing
unfolding compare_bytes
next_child_id-covering_example = next_child_id-covering (107 ∷ []) routing ((refl, tt), (tt, tt))

abbrev pub frame_of : Page → Frame
frame_of p = record { page = p; is_dirty = true; pin_count = 0; rec_lsn = 4 }

abbrev pub pool : BufferManager
pool = new_buffer_manager disk 4 none calm

pool-IsPool : IsPool pool
unfolding lookup
pool-IsPool = record { map = tt; ranges = λ t m. (m, λ id. refl); frames = λ id f e. absurd (cc e) }

frame_of-IsFrame :
    (id : ℕ) (p : Page) → id < 2 → length p.bytes ≡ 4096 → IsFrame disk id (frame_of p)
frame_of-IsFrame id p below size = record {
  size = size;
  on_disk = omega (arith, below, size_disk);
  clean = λ clean free. absurd (cc clean);
}

-- A pool with the pages 1 and 0.
abbrev pub pool_with : Page → Page → BufferManager
pool_with p q = put_frame 0 (frame_of q) (put_frame 1 (frame_of p) pool)

pub pool_with-IsReady :
    (p q : Page) → length p.bytes ≡ 4096 → length q.bytes ≡ 4096 → IsReady (pool_with p q)
unfolding lookup ryu_db.Base.Table.insert
pool_with-IsReady p q size_p size_q = record {
  quiet = record {
    pool =
        put_frame-IsPool 0 (frame_of q) (put_frame 1 (frame_of p) pool)
          (put_frame-IsPool 1 (frame_of p) pool pool-IsPool
            (frame_of-IsFrame 1 p (omega arith) size_p))
          (frame_of-IsFrame 0 q (omega arith) size_q);
    unused = λ id f e. ground (arith, e);
  };
  writes = refl;
  room = omega arith;
}

-- A leaf, and a root with two routing cells.
leaf_page :
    (q : Page) × (rebuild page_type_leaf [] blank ≡ ok q)
    × Holds q []
    × (page_cells q ≡ ok [])
    × (get_page_type q ≡ page_type_leaf)
leaf_page =
    let (q, stored, holds, cells, kind, same) =
      rebuild-Holds page_type_leaf blank (inl refl) size_blank [] (omega arith) in
    (q, stored, holds, cells, kind)

abbrev root_cells : List Bytes
root_cells = (1 ∷ 0 ∷ 0 ∷ 0 ∷ 0 ∷ 0 ∷ []) ∷ (7 ∷ 0 ∷ 0 ∷ 0 ∷ 1 ∷ 0 ∷ 109 ∷ []) ∷ []

pub root_page :
    (q : Page) × (rebuild page_type_internal root_cells blank ≡ ok q)
    × Holds q root_cells
    × (page_cells q ≡ ok root_cells)
    × (get_page_type q ≡ page_type_internal)
root_page =
    let (q, stored, holds, cells, kind, same) =
      rebuild-Holds page_type_internal blank (inr refl) size_blank root_cells (omega arith) in
    (q, stored, holds, cells, kind)

abbrev leaf : Page
leaf = leaf_page.0

abbrev pub root : Page
root = root_page.0

abbrev tree : BufferManager
tree = pool_with leaf root

pub root_cells_read : (page_cells (content root) >>= key_cells) ≡ ok routing
unfolding key_cells ryu_db.Cell.deserialize_key_cell slice? le_value take drop
root_cells_read =
    let (q, stored, holds, cells, kind) = root_page in
    let read : page_cells (content root) ≡ ok root_cells =
      sym (page_cells-content root (content-IsPage root holds.is_page)) ∙ cells in
    rw read refl

tree-LeadsTo : LeadsTo (view tree) (107 ∷ []) 1 0 1 (content leaf)
unfolding lookup ryu_db.Base.Table.insert next_child_id match_loop compare_bytes
tree-LeadsTo =
    let (q, stored, holds, cells, kind) = root_page in
    let (l, stored', holds', cells', kind') = leaf_page in
    (
      content root,
      routing,
      refl,
      content-IsPage root holds.is_page,
      (λ e. omega (arith, e, content-field root 20 1 (omega arith), kind)),
      root_cells_read,
      omega arith,
      (refl, refl, content-field leaf 20 1 (omega arith) ∙ kind'),
    )

find_leaf_page-Finds_example :
    Finds 1 (content leaf) 1 tree (find_leaf_page 2 0 (107 ∷ []) false tree)
find_leaf_page-Finds_example =
    find_leaf_page-Finds 1 2 (107 ∷ []) 0 1 (content leaf) tree
      (pool_with-IsReady leaf root leaf_page.2.is_page.size root_page.2.is_page.size) tree-LeadsTo
      (omega arith)

-- The root over a leaf with three versions, of the page id 1.
pub versions_page :
    (q : Page) × Holds q (raw_leaf versions)
    × (get_page_type q ≡ page_type_leaf)
    × (get_page_id q ≡ 1)
versions_page =
    let start = put_field 8 4 1 blank in
    let size : length start.bytes ≡ 4096 = size_put_field 8 4 1 blank ∙ size_blank in
    let (q, stored, holds, cells, kind, same) =
      rebuild-Holds page_type_leaf start (inl refl) size (raw_leaf versions) sample_room in
    (
      q,
      holds,
      kind,
      same ∙ read_field-put_field 8 4 1 blank (omega (arith, size_blank)) (omega arith),
    )

abbrev pub versions_leaf : Page
versions_leaf = versions_page.0

abbrev pub versions_tree : BTree
versions_tree = record {
  bm = pool_with versions_leaf root;
  root_page_id = 0;
  tx_mgr = some manager;
}

versions_tree-LeadsTo :
    LeadsTo (view versions_tree.bm) (build_mvcc_key k 8) 1 0 1 (content versions_leaf)
unfolding lookup ryu_db.Base.Table.insert next_child_id match_loop compare_bytes build_mvcc_key
versions_tree-LeadsTo =
    let (q, stored, holds, cells, kind) = root_page in
    let (l, holds', kind', id) = versions_page in
    (
      content root,
      routing,
      refl,
      content-IsPage root holds.is_page,
      (λ e. omega (arith, e, content-field root 20 1 (omega arith), kind)),
      root_cells_read,
      omega arith,
      (refl, refl, content-field versions_leaf 20 1 (omega arith) ∙ kind'),
    )

-- The version of transaction 5 is read.
read_young : newest (some manager) k 8 versions ≡ some young
unfolding newest compare_bytes get_status lookup
read_young = refl

find_latest-newest_example :
    let (answer, t) = find_latest 2 (build_mvcc_key k 8) versions_tree in
    Answers
      (latest_value ok (map_cell (newest (some manager) k 8 versions)))
      versions_tree.bm
      (answer, t.bm)
find_latest-newest_example =
    find_latest-newest 1 2 k 8 1 (content versions_leaf) versions versions_tree (omega arith)
      (pool_with-IsReady versions_leaf root versions_page.1.is_page.size root_page.2.is_page.size)
      versions_tree-LeadsTo (omega arith)
      (read_field-put_field_ne 12 8 0 versions_leaf 8 4 (inl (omega arith)) ∙ versions_page.3)
      (content-Holds versions_leaf (raw_leaf versions) versions_page.1) versions-IsLeaf
      (rw read_young (unfold is_overflow in refl))
