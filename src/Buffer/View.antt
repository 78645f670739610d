-- ===== src/Buffer/View.antt =====
-- The pages that the buffer manager stands for: those of its frames, and of the file otherwise.
use ryu_db.Base.{ℕ, ◌+◌, ◌*◌, ◌≡◌, ◌≢◌, refl, sym, ap, ◌∙◌, arith, false, Option, none, some}
use ryu_db.Base.{Bytes, length, ltb, ◌==◌, if◌then◌else◌, ok, panic, Bool-cases, inl, inr, [], ◌∷◌}
use ryu_db.Base.Table.{Table, lookup, IsMap}
use ryu_db.Page.{Page, set_lsn}
use ryu_db.Wal.{Io, io_ok, write_error, sync_error}
use ryu_db.Pager.{write_page, written, write_at}
use ryu_db.Pager.Disk.{
  InFile, disk_page, length-write_at, disk_page-write_at_ne, disk_page-write_at,
}
use ryu_db.Buffer.{Frame, BufferManager, head_io, write_back, first_find}

-- A page but for its LSN, which a fetch for writing changes before the page is dirty.
abbrev pub content : Page → Page
content p = set_lsn 0 p

abbrev pub page_of : Bytes → ℕ → Option Frame → Option Page
page_of file id (some f) = some (content f.page)
page_of file id none =
    if ltb (length file) (id * 4096 + 4096) then none else some (content (disk_page file id))

abbrev pub view : BufferManager → ℕ → Option Page
view b id = page_of b.file id (lookup id b.page_table)

-- A frame holds a page of the file, which the file has too if the frame is clean and not in use.
pub record IsFrame (file : Bytes) (id : ℕ) (f : Frame) : Type 0 where
  pub size : length f.page.bytes ≡ 4096
  pub on_disk : InFile file id
  pub clean : f.is_dirty ≡ false → f.pin_count ≡ 0 → content f.page ≡ content (disk_page file id)

-- Ranging over a map visits its entries, in some order.
abbrev pub IsRange : (Table Frame → Table Frame) → Type 0
IsRange order =
    (t : Table Frame) → IsMap t → IsMap (order t) × ((id : ℕ) → lookup id (order t) ≡ lookup id t)

pub record IsPool (b : BufferManager) : Type 0 where
  pub map : IsMap b.page_table
  pub ranges : IsRange b.world.range_order
  pub frames : (id : ℕ) (f : Frame) → lookup id b.page_table ≡ some f → IsFrame b.file id f

pub first_find_lem :
    (t : Table Frame) (id : ℕ) (f : Frame)
    → IsMap t
    → first_find t ≡ some (id, f)
    → (lookup id t ≡ some f) × (f.pin_count ≡ 0)
unfolding first_find lookup
first_find_lem [] id f m e = cc
first_find_lem ((j, g) ∷ rest) id f m e = elim (Bool-cases (g.pin_count == 0)) [
  | inl free ↦ let e' : some (j, g) ≡ some (id, f) = rw free at e in ground (arith, free, e')
  | inr held ↦
      let e' : first_find rest ≡ some (id, f) = rw held at e in
      let (found, unpinned) = first_find_lem rest id f m.1 e' in
      (ground (arith, m.0, found), unpinned)
]

pub page_of-InFile :
    (file : Bytes) (id : ℕ)
    → InFile file id
    → page_of file id none ≡ some (content (disk_page file id))
page_of-InFile file id h =
    let whole : ltb (length file) (id * 4096 + 4096) ≡ false = ground arith in rw whole refl

-- A file that agrees with another on a page and in its length serves its frame, and reads, as well.
pub IsFrame-file :
    {file file' : Bytes} {id : ℕ} {f : Frame}
    → IsFrame file id f
    → length file' ≡ length file
    → disk_page file' id ≡ disk_page file id
    → IsFrame file' id f
IsFrame-file h n e = record {
  size = h.size;
  on_disk = omega (arith, h.on_disk);
  clean = λ clean unpinned. h.clean clean unpinned ∙ ap content (sym e);
}

pub page_of-file :
    (file file' : Bytes) (id : ℕ) (o : Option Frame)
    → length file' ≡ length file
    → disk_page file' id ≡ disk_page file id
    → page_of file' id o ≡ page_of file id o
page_of-file file file' id (some f) n e = refl
page_of-file file file' id none n e = rw (n, e) refl

-- What writing a frame's page back does to the file.
pub record WroteBack (id : ℕ) (p : Page) (b : BufferManager) : Type 0 where
  pub size : length (write_back id p b).1.file ≡ length b.file
  pub others : (j : ℕ) → j ≢ id → disk_page (write_back id p b).1.file j ≡ disk_page b.file j
  pub whole : (write_back id p b).0 ≡ ok tt → disk_page (write_back id p b).1.file id ≡ p
  pub sound : (write_back id p b).0 ≢ panic

write_page_cases :
    (io : Io) (id : ℕ) (p : Page) (file : Bytes)
    → length p.bytes ≡ 4096
    → InFile file id
    → ((write_page io id p file).1 ≡ write_at file (id * 4096) (written io p.bytes))
      × ((write_page io id p file).0 ≡ ok tt → disk_page (write_page io id p file).1 id ≡ p)
      × ((write_page io id p file).0 ≢ panic)
unfolding write_page
write_page_cases io_ok id p file n h =
    rw (n) (refl, (λ e. disk_page-write_at file id p n h), λ e. cc)
write_page_cases sync_error id p file n h =
    rw (n) (refl, (λ e. disk_page-write_at file id p n h), λ e. cc)
write_page_cases (write_error m) id p file n h = rw (n) (refl, (λ e. cc), λ e. cc)

pub write_back_lem :
    (id : ℕ) (p : Page) (b : BufferManager)
    → length p.bytes ≡ 4096
    → InFile b.file id
    → WroteBack id p b
unfolding write_back
write_back_lem id p b n h =
    let (file, whole, sound) = write_page_cases (head_io b.world.io) id p b.file n h in
    record {
      size = ap length file ∙ length-write_at (head_io b.world.io) b.file id p.bytes n h;
      others = λ j ne.
          ap (λ t. disk_page t j) file
          ∙ disk_page-write_at_ne (head_io b.world.io) b.file id j p.bytes n h ne;
      whole = whole;
      sound = sound;
    }
