-- ===== src/Buffer/Evict.antt =====
-- evict and getFrame leave every page that the buffer manager stands for as it was.
use mathlib.Core.Path.{subst}
use ryu_db.Base.{
  both_branches, ℕ, ◌≡◌, ◌≢◌, refl, sym, ap, ◌∙◌, arith, true, false, Option, none, some,
}
use ryu_db.Base.{◌==◌, ==_iff, Result, ok, err, panic, Bool-cases, inl, inr}
use ryu_db.Base.Table.{lookup, remove, lookup-remove, remove-IsMap}
use ryu_db.Base.State.{and_then}
use ryu_db.Pager.Disk.{disk_page}
use ryu_db.Buffer.{Frame, BufferManager, write_back, first_find, evict, drop_frame, evict_victim}
use ryu_db.Buffer.View.{
  content, page_of, view, IsFrame, IsPool, first_find_lem, page_of-InFile, IsFrame-file,
  page_of-file, write_back_lem,
}

-- One page by itself, and the others.
pub by_id {ℓ} : (P : ℕ → Type ℓ) (id : ℕ) → P id → ((j : ℕ) → j ≢ id → P j) → (j : ℕ) → P j
by_id P id here there j = elim (Bool-cases (id == j)) [
  | inl same ↦ subst P ((==_iff id j).0 same) here
  | inr apart ↦ there j (λ e. ground (arith, apart, e))
]

-- The pages are as they were, and the invariant holds.
pub record Keeps (b b' : BufferManager) : Type 0 where
  pub pool : IsPool b'
  pub same : (id : ℕ) → view b' id ≡ view b id

-- A frame that is not in use and agrees with the file can go.
drop_frame-Keeps :
    (id : ℕ) (f : Frame) (b : BufferManager)
    → IsPool b
    → lookup id b.page_table ≡ some f
    → content f.page ≡ content (disk_page b.file id)
    → Keeps b (drop_frame id b).1
drop_frame-Keeps id f b h e same =
    let gone = λ (j : ℕ). lookup-remove id j b.page_table in
    let frame = h.frames id f e in
    let here : (id == id) ≡ true = (==_iff id id).1 refl in
    let apart = λ (j : ℕ) (ne : j ≢ id). let r : (id == j) ≡ false = ground (arith, ne) in r in
    record {
      pool = record {
        map = remove-IsMap id b.page_table h.map;
        ranges = h.ranges;
        frames =
            by_id
              (λ j. (g : Frame) → lookup j (remove id b.page_table) ≡ some g → IsFrame b.file j g)
              id (λ g found. cc (gone id, here, found))
              (λ j ne g found. h.frames j g (cc (gone j, apart j ne, found)));
      };
      same =
          by_id
            (λ j.
              page_of b.file j (lookup j (remove id b.page_table))
              ≡ page_of b.file j (lookup j b.page_table))
            id (rw (gone id, here, e) (page_of-InFile b.file id frame.on_disk ∙ ap some (sym same)))
            (λ j ne. rw (gone j, apart j ne) refl);
    }

-- Writing a dirty frame back changes no page, whatever becomes of the write.
pub write_back-Keeps :
    (id : ℕ) (f : Frame) (b : BufferManager)
    → IsPool b
    → lookup id b.page_table ≡ some f
    → f.is_dirty ≡ true
    → Keeps b (write_back id f.page b).1
unfolding write_back
write_back-Keeps id f b h e dirty =
    let frame = h.frames id f e in
    let w = write_back_lem id f.page b frame.size frame.on_disk in
    let file = (write_back id f.page b).1.file in
    let still : IsFrame file id f = record {
      size = frame.size;
      on_disk = omega (arith, frame.on_disk, w.size);
      clean = λ clean unpinned. cc (dirty, clean);
    } in
    record {
      pool = record {
        map = h.map;
        ranges = h.ranges;
        frames =
            by_id (λ j. (g : Frame) → lookup j b.page_table ≡ some g → IsFrame file j g) id
              (λ g found. subst (IsFrame file id) (cc (e, found)) still)
              (λ j ne g found. IsFrame-file (h.frames j g found) w.size (w.others j ne));
      };
      same =
          by_id
            (λ j. page_of file j (lookup j b.page_table) ≡ page_of b.file j (lookup j b.page_table))
            id (rw e refl)
            (λ j ne. page_of-file b.file file j (lookup j b.page_table) w.size (w.others j ne));
    }

pub Keeps-refl : (b : BufferManager) → IsPool b → Keeps b b
Keeps-refl b h = record { pool = h; same = λ id. refl }

pub Keeps-trans : {b c d : BufferManager} → Keeps b c → Keeps c d → Keeps b d
Keeps-trans p q = record { pool = q.pool; same = λ id. q.same id ∙ p.same id }

-- The frames in use stay where they are.
abbrev pub HoldsPinned : BufferManager → BufferManager → Type 0
HoldsPinned b b' =
    (j : ℕ) (g : Frame)
    → lookup j b.page_table ≡ some g
    → g.pin_count ≢ 0
    → lookup j b'.page_table ≡ some g

drop_frame-HoldsPinned :
    (id : ℕ) (f : Frame) (b : BufferManager)
    → lookup id b.page_table ≡ some f
    → f.pin_count ≡ 0
    → HoldsPinned b (drop_frame id b).1
drop_frame-HoldsPinned id f b e free j g found held =
    ground (arith, lookup-remove id j b.page_table, e, free, found, held)

-- After evict the pages are as they were, and the frames in use are there.
pub record Evicts (b : BufferManager) (r : Result (Unit {0}) × BufferManager) : Type 0 where
  pub keeps : Keeps b r.1
  pub pinned : HoldsPinned b r.1
  pub fewer : (j : ℕ) → lookup j b.page_table ≡ none → lookup j r.1.page_table ≡ none
  pub old : (j : ℕ) (g : Frame) → lookup j r.1.page_table ≡ some g → lookup j b.page_table ≡ some g
  pub sound : r.0 ≢ panic

evict_clean :
    (id : ℕ) (f : Frame) (b : BufferManager)
    → IsPool b
    → lookup id b.page_table ≡ some f
    → f.pin_count ≡ 0
    → f.is_dirty ≡ false
    → Evicts b (drop_frame id b)
evict_clean id f b h e free clean = record {
  keeps = drop_frame-Keeps id f b h e ((h.frames id f e).clean clean free);
  pinned = drop_frame-HoldsPinned id f b e free;
  fewer = λ j absent. ground (arith, lookup-remove id j b.page_table, absent);
  old = λ j g found. ground (arith, lookup-remove id j b.page_table, found);
  sound = λ e. cc;
}

evict_dirty :
    (id : ℕ) (f : Frame) (b : BufferManager)
    → IsPool b
    → lookup id b.page_table ≡ some f
    → f.pin_count ≡ 0
    → f.is_dirty ≡ true
    → (r : Result (Unit {0})) → (write_back id f.page b).0 ≡ r
    → Evicts b (and_then (r, (write_back id f.page b).1) λ done. drop_frame id)
unfolding write_back
evict_dirty id f b h e free dirty (ok done) answer =
    let frame = h.frames id f e in
    let w = write_back_lem id f.page b frame.size frame.on_disk in
    let kept = write_back-Keeps id f b h e dirty in
    record {
      keeps = Keeps-trans kept (
          drop_frame-Keeps id f (write_back id f.page b).1 kept.pool e
            (ap content (sym (w.whole answer))));
      pinned = drop_frame-HoldsPinned id f (write_back id f.page b).1 e free;
      fewer = λ j absent. ground (arith, lookup-remove id j b.page_table, absent);
      old = λ j g found. ground (arith, lookup-remove id j b.page_table, found);
      sound = λ e. cc;
    }
evict_dirty id f b h e free dirty (err x) answer = record {
  keeps = write_back-Keeps id f b h e dirty;
  pinned = λ j g found held. found;
  fewer = λ j absent. absent;
  old = λ j g found. found;
  sound = λ e. cc;
}
evict_dirty id f b h e free dirty panic answer =
    let frame = h.frames id f e in
    absurd ((write_back_lem id f.page b frame.size frame.on_disk).sound answer)

evict_victim-Evicts :
    (b : BufferManager) (found : Option (ℕ × Frame))
    → IsPool b
    → ((id : ℕ) (f : Frame)
        → found ≡ some (id, f)
        → (lookup id b.page_table ≡ some f) × (f.pin_count ≡ 0))
    → Evicts b (evict_victim found b)
evict_victim-Evicts b none h free = record {
  keeps = Keeps-refl b h;
  pinned = λ j g found held. found;
  fewer = λ j absent. absent;
  old = λ j g found. found;
  sound = λ e. cc;
}
evict_victim-Evicts b (some (id, f)) h free =
    let (e, unpinned) = free id f refl in
    both_branches (λ r. Evicts b (and_then r λ done. drop_frame id)) f.is_dirty
      (write_back id f.page b) (ok tt, b) (λ d. evict_dirty id f b h e unpinned d _ refl)
      (λ c. evict_clean id f b h e unpinned c)

-- On a well-formed pool evict keeps it well formed, changes no page, takes no frame that is in use,
-- adds none, and does not panic, in whatever order the page table is ranged over and whatever becomes
-- of the write.
pub evict-Evicts : (b : BufferManager) → IsPool b → Evicts b (evict b)
unfolding evict
evict-Evicts b h =
    let (map, same) = h.ranges b.page_table h.map in
    evict_victim-Evicts b (first_find (b.world.range_order b.page_table)) h λ id f found.
      let (entry, free) = first_find_lem (b.world.range_order b.page_table) id f map found in
      (sym (same id) ∙ entry, free)
