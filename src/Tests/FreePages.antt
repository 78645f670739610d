-- ===== src/Tests/FreePages.antt =====
-- Runs of the stack of free pages, and of values in overflow pages: internal/storage/btree.go.
use ryu_db.Base.{
  ℕ, ◌+◌, ◌*◌, ◌^◌, ◌<◌, ◌≤◌, ◌≡◌, ◌≢◌, inl, inr, refl, sym, ap, ◌∙◌, arith, true, false, Option,
  none, some, List, [], ◌∷◌, Bytes, length, ok, ◌==◌, if◌then◌else◌,
}
use ryu_db.Base.State.{Ends}
use ryu_db.Base.Table.{lookup}
use ryu_db.Bytes.Order.{compare_bytes}
use ryu_db.Page.{
  Page, get_page_id, put_field, set_first_free_page_id, get_first_free_page_id, get_root_page_id,
  set_next_free_page_id, get_next_free_page_id,
}
use ryu_db.Page.Fields.{read_field-put_field, read_field-put_field_ne, size_put_field}
use ryu_db.Txn.Key.{build_mvcc_key}
use ryu_db.Leaf.Put.{put}
use ryu_db.Leaf.Scan.{has_conflict}
use ryu_db.Tree.Split.{BTree}
use ryu_db.Txn.{get_status}
use ryu_db.Bytes.Binary.{be_bytes, le_bytes}
use ryu_db.Base.{replicate, length-replicate}
use ryu_db.Page.Rebuild.{cells_size}
use ryu_db.Cell.{serialize_kv_cell}
use ryu_db.Leaf.Versions.{Version, IsVersion, raw_leaf, version_key}
use ryu_db.Buffer.{BufferManager}
use ryu_db.Buffer.View.{content, view}
use ryu_db.Tree.Content.{content-field, content-Holds}
use ryu_db.Tree.Walk.{LeadsTo}
use ryu_db.Tree.Upsert.{content-page_id}
use ryu_db.Tree.Ops.{insert}
use ryu_db.Tests.Leaves.{k, versions, versions-IsLeaf, manager}
use ryu_db.Tree.FreeList.{allocate_page, deallocate_page}
use ryu_db.Tree.FreeStack.{FreeStack, Frees, deallocate_page-Frees}
use ryu_db.Tree.Allocate.{allocate_page-Allocates}
use ryu_db.Tree.Pop.{Allocates}
use ryu_db.Tree.CreateChain.{EndsAt}
use ryu_db.Tree.KeepValue.{Keeps, create_overflow_chain-Keeps}
use ryu_db.Tree.LongWrite.{Moves, find_latest-insert_long}
use ryu_db.Tree.Moved.{kept_view}
use ryu_db.Tree.Moved.{moved}
use ryu_db.Tree.Overflow.{create_overflow_chain}
use ryu_db.Tests.Buffers.{size_disk}
use ryu_db.Tests.Pages.{blank, size_blank}
use ryu_db.Tests.Trees.{pool_with, versions_page, versions_leaf}
use ryu_db.Tests.Writes.{pool_with-IsUsing, versions-AllInline}

-- A meta page with the root 5 and a stack of free pages from `first` on, and a free page.
abbrev meta_page : ℕ → Page
meta_page first = set_first_free_page_id first (put_field 32 4 5 blank)

abbrev own_page : Page
own_page = put_field 8 4 1 blank

abbrev free_page : Page
free_page = set_next_free_page_id 0 own_page

size_meta_page : (first : ℕ) → length (meta_page first).bytes ≡ 4096
size_meta_page first = size_put_field 36 4 first _ ∙ size_put_field 32 4 5 blank ∙ size_blank

size_own_page : length own_page.bytes ≡ 4096
size_own_page = size_put_field 8 4 1 blank ∙ size_blank

size_free_page : length free_page.bytes ≡ 4096
size_free_page = size_put_field 32 4 0 own_page ∙ size_own_page

own_page_id : get_page_id own_page ≡ 1
own_page_id = read_field-put_field 8 4 1 blank (omega (arith, size_blank)) (omega arith)

meta_page_first :
    (first : ℕ) → first < 2 ^ 32 → get_first_free_page_id (content (meta_page first)) ≡ first
meta_page_first first small =
    content-field (meta_page first) 36 4 (omega arith)
    ∙ read_field-put_field 36 4 first _ (omega (arith, size_put_field, size_blank))
        (omega (arith, small))

meta_page_root : (first : ℕ) → get_root_page_id (content (meta_page first)) ≡ 5
meta_page_root first =
    content-field (meta_page first) 32 4 (omega arith)
    ∙ read_field-put_field_ne 36 4 first _ 32 4 (inl (omega arith))
    ∙ read_field-put_field 32 4 5 blank (omega (arith, size_blank)) (omega arith)

free_page_id : get_page_id (content free_page) ≡ 1
free_page_id =
    content-page_id free_page
    ∙ read_field-put_field_ne 32 4 0 own_page 8 4 (inl (omega arith))
    ∙ own_page_id

free_page_next : get_next_free_page_id (content free_page) ≡ 0
free_page_next =
    content-field free_page 32 4 (omega arith)
    ∙ read_field-put_field 32 4 0 own_page (omega (arith, size_own_page)) (omega arith)

-- The page 1 is in the file and not on the stack.
abbrev used_pool : BufferManager
used_pool = pool_with own_page (meta_page 0)

used_pool-FreeStack : FreeStack (view used_pool) 5 []
unfolding lookup ryu_db.Base.Table.insert
used_pool-FreeStack = record {
  meta = content (meta_page 0);
  shown = refl;
  root_id = meta_page_root 0;
  free = meta_page_first 0 (omega arith);
}

used_pool_shown : view used_pool 1 ≡ some (content own_page)
unfolding lookup ryu_db.Base.Table.insert
used_pool_shown = refl

deallocate_page-Frees_example :
    Ends (λ _. Frees 4 [] 5 [] 1 used_pool) (deallocate_page 1 used_pool)
deallocate_page-Frees_example =
    deallocate_page-Frees 4 [] 5 [] 1 used_pool (content own_page)
      (pool_with-IsUsing own_page (meta_page 0) size_own_page (size_meta_page 0)) (omega arith) refl
      refl used_pool-FreeStack refl (omega arith) (omega arith) used_pool_shown
      (content-page_id own_page ∙ own_page_id)

-- The page 1 is the only one on the stack.
abbrev free_pool : BufferManager
free_pool = pool_with free_page (meta_page 1)

free_pool-FreeStack : FreeStack (view free_pool) 5 (1 ∷ [])
unfolding lookup ryu_db.Base.Table.insert
free_pool-FreeStack = record {
  meta = content (meta_page 1);
  shown = refl;
  root_id = meta_page_root 1;
  free = (
    meta_page_first 1 (omega arith),
    (omega arith),
    (omega arith),
    refl,
    (content free_page, refl, free_page_id, free_page_next),
  );
}

-- The file ends behind the page 1.
free_pool_end : view free_pool 2 ≡ none
unfolding lookup ryu_db.Base.Table.insert
free_pool_end = ground (arith, size_disk)

allocate_page-Allocates_example :
    Ends (Allocates 4 [] 5 (1 ∷ []) 4 free_pool) (allocate_page 4 free_pool)
allocate_page-Allocates_example =
    allocate_page-Allocates 4 [] 5 4 2 (1 ∷ []) free_pool
      (pool_with-IsUsing free_page (meta_page 1) size_free_page (size_meta_page 1)) (omega arith)
      refl free_pool-FreeStack (λ j on. refl) (omega arith) free_pool_end (omega arith)

free_pool-EndsAt : EndsAt 2 (view free_pool)
unfolding lookup ryu_db.Base.Table.insert
free_pool-EndsAt = λ j far. ground (arith, size_disk, far)

-- The chain takes the free page.
create_overflow_chain-Keeps_example :
    Ends
      (Keeps 4 5 [] (118 ∷ 119 ∷ []) (1 ∷ []) free_pool)
      (create_overflow_chain (118 ∷ 119 ∷ []) free_pool)
create_overflow_chain-Keeps_example =
    create_overflow_chain-Keeps 4 5 2 [] (118 ∷ 119 ∷ []) (1 ∷ []) free_pool
      (pool_with-IsUsing free_page (meta_page 1) size_free_page (size_meta_page 1)) (omega arith)
      refl (λ j on. refl) free_pool-FreeStack free_pool-EndsAt (omega arith)

-- The leaf with three versions is the root, and the value has 1025 bytes.
abbrev long_tree : BTree
long_tree = record {
  bm = pool_with versions_leaf (meta_page 0);
  root_page_id = 1;
  tx_mgr = some manager;
}

abbrev long : Version
long = record { user = k; tx = 9; value = replicate 1025 0; flag = 0 }

size_long : length long.value ≡ 1025
size_long = length-replicate {A = ℕ} 1025 0

long-IsVersion : IsVersion (moved 0 long)
unfolding build_mvcc_key be_bytes le_bytes
long-IsVersion = record {
  no_nul = omega arith;
  id = omega arith;
  size = omega arith;
  flags = inr (inr refl);
}

long_no_conflict : has_conflict (some manager) long versions ≡ false
unfolding compare_bytes get_status lookup
long_no_conflict = refl

long_room : 32 + cells_size (raw_leaf (put (moved 0 long) versions)) ≤ 4096
unfolding put compare_bytes serialize_kv_cell build_mvcc_key be_bytes le_bytes
long_room = omega arith

long_tree-FreeStack : FreeStack (view long_tree.bm) 5 []
unfolding lookup ryu_db.Base.Table.insert
long_tree-FreeStack = record {
  meta = content (meta_page 0);
  shown = refl;
  root_id = meta_page_root 0;
  free = meta_page_first 0 (omega arith);
}

long_tree-LeadsTo :
    LeadsTo (kept_view [] long_tree.bm) (version_key long) 0 1 1 (content versions_leaf)
unfolding lookup ryu_db.Base.Table.insert
long_tree-LeadsTo = (refl, refl, content-field versions_leaf 20 1 (omega arith) ∙ versions_page.2)

long_tree-EndsAt : EndsAt 2 (view long_tree.bm)
unfolding lookup ryu_db.Base.Table.insert
long_tree-EndsAt = λ j far. ground (arith, size_disk, far)

find_latest-insert_long_example :
    Ends (λ _. Moves 4 5 0 long) (insert 1 (version_key long) long.value long_tree)
find_latest-insert_long_example =
    find_latest-insert_long 4 5 2 0 1 1 (content versions_leaf) long versions [] long_tree
      (pool_with-IsUsing versions_leaf (meta_page 0) versions_page.1.is_page.size
        (size_meta_page 0))
      (omega arith) long_tree-FreeStack long_tree-EndsAt (omega (arith, size_long))
      long_tree-LeadsTo (omega arith) (content-page_id versions_leaf ∙ versions_page.3)
      (content-Holds versions_leaf (raw_leaf versions) versions_page.1) versions-IsLeaf
      versions-AllInline long-IsVersion (omega (arith, size_long)) long_no_conflict long_room
