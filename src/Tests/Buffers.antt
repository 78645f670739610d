-- ===== src/Tests/Buffers.antt =====
-- Runs of internal/storage/buffer_manager.go, with room for one page.
use ryu_db.Base.{
  ℕ, ◌+◌, ◌*◌, ◌≤◌, ◌≡◌, ◌≢◌, inl, inr, refl, sym, arith, true, false, Option, none, some, List, [],
  ◌∷◌, Bytes, length, length-replicate, replicate, length-slice, ◌==◌, ==_iff, if◌then◌else◌, ok,
}
use ryu_db.Base.Table.{lookup}
use ryu_db.Wal.{Wal, Io, write_error}
use ryu_db.Buffer.{
  Frame, BufferManager, World, new_buffer_manager, put_frame, evict, fetch_page_for_write,
  flush_all,
}
use ryu_db.Buffer.{close}
use ryu_db.Buffer.{fetch_page_for_read}
use ryu_db.Buffer.Bounds.{Within, fetch_page_for_read-Within}
use ryu_db.Buffer.Close.{view-close}
use ryu_db.Buffer.View.{view, IsFrame, IsPool}
use ryu_db.Buffer.Evict.{Keeps, Evicts, evict-Evicts}
use ryu_db.Buffer.Fetch.{put_frame-IsPool}
use ryu_db.Buffer.Write.{FetchedPage, fetch_page_for_write-FetchedPage}
use ryu_db.Buffer.Flush.{IsFlushed, flush_all-Flushed}

-- Two pages of zeros.
abbrev pub disk : Bytes
disk = replicate 8192 0

pub size_disk : length disk ≡ 8192
size_disk = length-replicate 8192 0

abbrev pub log : Wal
log = record { file = 87 ∷ 65 ∷ 76 ∷ 10 ∷ []; current_lsn = 4 }

-- The writes to come: the first one stops after ten bytes.
abbrev torn : World
torn = record { range_order = λ t. t; io = write_error 10 ∷ [] }

abbrev pub calm : World
calm = record { range_order = λ t. t; io = [] }

abbrev pub empty_pool : World → BufferManager
empty_pool = new_buffer_manager disk 1 (some log)

pub empty_pool-IsPool :
    (io : List Io) → IsPool (empty_pool (record { range_order = λ t. t; io = io }))
unfolding lookup
empty_pool-IsPool io = record {
  map = tt;
  ranges = λ t m. (m, λ id. refl);
  frames = λ id f e. absurd (cc e);
}

-- The page 1 is dirty, with other bytes than the file has.
abbrev pub changed : ℕ → Frame
changed pins = record {
  page = record { bytes = replicate 4096 7 };
  is_dirty = true;
  pin_count = pins;
  rec_lsn = 4;
}

changed-IsFrame : (pins : ℕ) → IsFrame disk 1 (changed pins)
changed-IsFrame pins = record {
  size = length-replicate 4096 7;
  on_disk = omega (arith, size_disk);
  clean = λ clean free. absurd (cc clean);
}

abbrev pub holding : ℕ → World → BufferManager
holding pins w = put_frame 1 (changed pins) (empty_pool w)

pub holding-IsPool :
    (pins : ℕ) (io : List Io) → IsPool (holding pins (record { range_order = λ t. t; io = io }))
holding-IsPool pins io =
    put_frame-IsPool 1 (changed pins) _ (empty_pool-IsPool io) (changed-IsFrame pins)

evict-Evicts_example : Evicts (holding 0 torn) (evict (holding 0 torn))
evict-Evicts_example = evict-Evicts (holding 0 torn) (holding-IsPool 0 (write_error 10 ∷ []))

-- The page 0 takes the place of the page 1.
fetch_page_for_write-FetchedPage_example :
    FetchedPage 0 (holding 0 calm) (fetch_page_for_write 0 2 (holding 0 calm))
unfolding lookup ryu_db.Base.Table.insert
fetch_page_for_write-FetchedPage_example =
    fetch_page_for_write-FetchedPage 0 2 (holding 0 calm) (holding-IsPool 0 []) λ f e. absurd (cc e)

flush_all-Flushed_example :
    Keeps (holding 2 calm) (flush_all (holding 2 calm)).1
    × ((flush_all (holding 2 calm)).0 ≡ ok tt
        → IsFlushed (holding 2 calm).page_table (flush_all (holding 2 calm)).1)
flush_all-Flushed_example = flush_all-Flushed (holding 2 calm) (holding-IsPool 2 [])

closed_well : (close (ok tt) (holding 0 calm)).0 ≡ ok tt
unfolding close flush_all ryu_db.Buffer.flush_loop ryu_db.Base.Table.insert ryu_db.Pager.write_page
    replicate
closed_well = refl

holding_unused :
    (j : ℕ) (f : Frame) → lookup j (holding 0 calm).page_table ≡ some f → f.pin_count ≡ 0
unfolding lookup ryu_db.Base.Table.insert
holding_unused j f e = ground (arith, e)

view-close_example :
    view (new_buffer_manager (close (ok tt) (holding 0 calm)).1.file 3 none calm) 1
    ≡ view (holding 0 calm) 1
view-close_example =
    view-close (ok tt) 3 none calm (holding 0 calm) (holding-IsPool 0 []) holding_unused closed_well
      1

fetch_page_for_read-Within_example : Within 1 (fetch_page_for_read 0 2 (holding 0 calm)).1
unfolding ryu_db.Base.Table.insert
fetch_page_for_read-Within_example =
    fetch_page_for_read-Within 1 0 2 (holding 0 calm) (holding-IsPool 0 []) (refl, omega arith)
