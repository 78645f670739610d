-- ===== src/Buffer/Unpin.antt =====
-- Writes through a fetched page, and UnpinPage.
use ryu_db.Base.{ℕ, ◌≡◌, ◌≢◌, ◌⊎◌, refl, arith, Bool, true, false, some}
use ryu_db.Base.{length, ◌==◌, ==_iff, if◌then◌else◌, ok}
use ryu_db.Base.Table.{lookup, lookup-insert}
use ryu_db.Page.{Page}
use ryu_db.Pager.Disk.{disk_page}
use ryu_db.Buffer.{Frame, BufferManager, store_page, unpin_frame, unpin_page}
use ryu_db.Buffer.View.{content, view, IsFrame, IsPool}
use ryu_db.Buffer.Evict.{Keeps}
use ryu_db.Buffer.Fetch.{put_frame-IsPool, view-put_frame, put_frame-Keeps}

-- A write to the page of a frame in use changes that page, and no other.
pub store_page_lem :
    (id : ℕ) (p : Page) (f : Frame) (b : BufferManager)
    → IsPool b
    → lookup id b.page_table ≡ some f
    → f.pin_count ≢ 0
    → length p.bytes ≡ 4096
    → IsPool (store_page id p b)
      × ((j : ℕ) → view (store_page id p b) j ≡ (if id == j then some (content p) else view b j))
      × (lookup id (store_page id p b).page_table ≡ some (record f { page = p }))
      × ((j : ℕ) → j ≢ id → lookup j (store_page id p b).page_table ≡ lookup j b.page_table)
unfolding store_page
store_page_lem id p f b h found held size =
    let g : Frame = record f { page = p } in
    let old = h.frames id f found in
    let new : IsFrame b.file id g = record {
      size = size;
      on_disk = old.on_disk;
      clean = λ clean free. absurd (held free);
    } in
    rw found (
      put_frame-IsPool id g b h new,
      view-put_frame id g b,
      rw (lookup-insert id id g b.page_table, (==_iff id id).1 refl) refl,
      λ j ne.
          let r : (id == j) ≡ false = ground (arith, ne) in
          rw (lookup-insert id j g b.page_table, r) refl,
    )

-- On a well-formed pool UnpinPage of a page in use succeeds, keeps the pool well formed, changes no
-- page and lets go of the frame once, and of no other, if a page that it leaves clean is the page of
-- the file.
pub unpin_page-Keeps :
    (id : ℕ) (is_dirty : Bool) (f : Frame) (b : BufferManager)
    → IsPool b
    → lookup id b.page_table ≡ some f
    → f.pin_count ≢ 0
    → (is_dirty ≡ true) ⊎ (f.is_dirty ≡ true) ⊎ (content f.page ≡ content (disk_page b.file id))
    → ((unpin_page id is_dirty b).0 ≡ ok tt)
      × Keeps b (unpin_page id is_dirty b).1
      × (lookup id (unpin_page id is_dirty b).1.page_table ≡ some (unpin_frame is_dirty f))
      × ((j : ℕ)
          → j ≢ id
          → lookup j (unpin_page id is_dirty b).1.page_table ≡ lookup j b.page_table)
unfolding unpin_page
unpin_page-Keeps id is_dirty f b h found held agrees =
    let g = unpin_frame is_dirty f in
    let old = h.frames id f found in
    let in_use : (f.pin_count == 0) ≡ false = ground (arith, held) in
    let new : IsFrame b.file id g = record {
      size = old.size;
      on_disk = old.on_disk;
      clean = λ clean free. ground (arith, agrees, clean);
    } in
    rw (found, in_use)
      (
        refl,
        put_frame-Keeps id g b h new (rw found refl),
        rw (lookup-insert id id g b.page_table, (==_iff id id).1 refl) refl,
        λ j ne.
            let r : (id == j) ≡ false = ground (arith, ne) in
            rw (lookup-insert id j g b.page_table, r) refl,
      )
