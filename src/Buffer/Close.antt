-- ===== src/Buffer/Close.antt =====
-- Close of internal/storage/buffer_manager.go, and the pool that is opened on the file behind it.
use ryu_db.Base.{
  inl, inr, length, ltb, ◌+◌, ◌*◌, sym, arith, false, Bool-cases, ℕ, ◌≡◌, ◌∙◌, ap, refl, Option,
  none, some, Bytes, Result, ok, err, panic,
}
use ryu_db.Base.Table.{lookup}
use ryu_db.Wal.{Wal}
use ryu_db.Buffer.{Frame, BufferManager, World, new_buffer_manager, flush_all, close}
use ryu_db.Pager.Disk.{disk_page}
use ryu_db.Buffer.View.{content, view, page_of, IsPool}
use ryu_db.Buffer.Flush.{Flushed, flush_loop-Flushed}

-- Without the frames, where none is in use and no write has failed, the file has the same pages.
flush_all-page_of :
    (b : BufferManager)
    → IsPool b
    → ((j : ℕ) (f : Frame) → lookup j b.page_table ≡ some f → f.pin_count ≡ 0)
    → (flush_all b).0 ≡ ok tt
    → (j : ℕ) → page_of (flush_all b).1.file j none ≡ view b j
unfolding flush_all
flush_all-page_of b h unused e j =
    from (lookup j b.page_table) refl (lookup j (flush_all b).1.page_table) refl
  where
    same : (i : ℕ) → lookup i (b.world.range_order b.page_table) ≡ lookup i b.page_table
    same = (h.ranges b.page_table h.map).1

    done : Flushed (b.world.range_order b.page_table) b (flush_all b)
    done =
        flush_loop-Flushed (b.world.range_order b.page_table) b h (h.ranges b.page_table h.map).0
          (λ i g found. sym (same i) ∙ found)

    on_file :
        (f : Frame)
        → lookup j b.page_table ≡ some f
        → content (disk_page (flush_all b).1.file j) ≡ content f.page
    on_file f found = elim (Bool-cases f.is_dirty) [
      | inl dirty ↦ ap content (done.flushed e j f (same j ∙ found) dirty)
      | inr clean ↦
          ap content (done.clean e j f (same j ∙ found) clean)
          ∙ sym ((h.frames j f found).clean clean (unused j f found))
    ]

    from :
        (o : Option Frame)
        → lookup j b.page_table ≡ o
        → (o' : Option Frame) → lookup j (flush_all b).1.page_table ≡ o'
        → page_of (flush_all b).1.file j none ≡ view b j
    from o before none after = ap (page_of (flush_all b).1.file j) (sym after) ∙ done.keeps.same j
    from none before (some g) after =
        absurd (cc ((done.others j (same j ∙ before)).0, before, after))
    from (some f) before (some g) after =
        let there = (done.keeps.pool.frames j g after).on_disk in
        let within : ltb (length (flush_all b).1.file) (j * 4096 + 4096) ≡ false =
          ground (arith, there) in
        rw within (ap some (on_file f before) ∙ ap (page_of b.file j) (sym before))

view-new_buffer_manager :
    (file : Bytes) (limit : ℕ) (wal : Option Wal) (world : World) (j : ℕ)
    → view (new_buffer_manager file limit wal world) j ≡ page_of file j none
unfolding lookup
view-new_buffer_manager file limit wal world j = refl

close-flushed :
    (closed : Result (Unit {0})) (b : BufferManager) (r : Result (Unit {0}) × BufferManager)
    → flush_all b ≡ r
    → (close closed b).0 ≡ ok tt
    → (r.0 ≡ ok tt) × ((close closed b).1.file ≡ r.1.file)
unfolding close
close-flushed closed b (ok tt, b') e closed_well = (refl, rw e refl)
close-flushed closed b (err x, b') e closed_well = absurd (cc (rw e at closed_well))
close-flushed closed b (panic, b') e closed_well = absurd (cc (rw e at closed_well))

-- Where Close of a well-formed pool, of which no page is in use, ends without an error, a pool that is
-- opened on the file behind it has the same pages, whatever its size, its log and its surroundings.
pub view-close :
    (closed : Result (Unit {0})) (limit : ℕ) (wal : Option Wal) (world : World) (b : BufferManager)
    → IsPool b
    → ((j : ℕ) (f : Frame) → lookup j b.page_table ≡ some f → f.pin_count ≡ 0)
    → (close closed b).0 ≡ ok tt
    → (j : ℕ) → view (new_buffer_manager (close closed b).1.file limit wal world) j ≡ view b j
view-close closed limit wal world b h unused e j =
    let (flushed, file) = close-flushed closed b (flush_all b) refl e in
    view-new_buffer_manager (close closed b).1.file limit wal world j
    ∙ ap (λ t. page_of t j none) file
    ∙ flush_all-page_of b h unused flushed j
