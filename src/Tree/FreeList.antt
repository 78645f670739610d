-- ===== src/Tree/FreeList.antt =====
-- internal/storage/btree.go: allocatePage and deallocatePage, the stack of free pages.
use ryu_db.Base.{ℕ, true, false, ◌==◌, if◌then◌else◌}
use ryu_db.Base.State.{◌>>=◌}
use ryu_db.Page.{
  Page, meta_page_id, page_type_meta, page_type_free, init, get_first_free_page_id,
  set_first_free_page_id, get_next_free_page_id, set_next_free_page_id,
}
use ryu_db.Buffer.{fetch_page_for_read, fetch_page_for_write, allocate_at_end}
use ryu_db.Tree.Pages.{Pages, return, store, unpin, deferring}

-- Pop the free page and initialise it again.
abbrev pub pop_free : ℕ → Page → Pages ℕ
pop_free page_type meta = do
  let first_free = get_first_free_page_id meta
  free_page ← fetch_page_for_read first_free page_type_free
  _ ← unpin first_free false
  _ ← store meta_page_id (set_first_free_page_id (get_next_free_page_id free_page) meta)
  reused ← fetch_page_for_write first_free page_type
  _ ← store first_free (init page_type reused)
  _ ← unpin first_free true
  return first_free

abbrev pub allocate_with : ℕ → Page → Pages ℕ
allocate_with page_type meta =
    if get_first_free_page_id meta == 0 then allocate_at_end page_type else pop_free page_type meta

unfoldable pub allocate_page : ℕ → Pages ℕ
unfolding fetch_page_for_read fetch_page_for_write allocate_at_end
allocate_page page_type = do
  meta ← fetch_page_for_write meta_page_id page_type_meta
  deferring (allocate_with page_type meta) (unpin meta_page_id true)

abbrev pub push_free : ℕ → Page → Pages (Unit {0})
push_free page_id meta = do
  dead ← fetch_page_for_write page_id page_type_free
  _ ← store page_id (set_next_free_page_id (get_first_free_page_id meta) (init page_type_free dead))
  _ ← unpin page_id true
  store meta_page_id (set_first_free_page_id page_id meta)

unfoldable pub deallocate_page : ℕ → Pages (Unit {0})
unfolding fetch_page_for_write
deallocate_page page_id = do
  meta ← fetch_page_for_write meta_page_id page_type_meta
  deferring (push_free page_id meta) (unpin meta_page_id true)
