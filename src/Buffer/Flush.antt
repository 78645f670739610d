-- ===== src/Buffer/Flush.antt =====
-- FlushAll writes every dirty page to the file.
use mathlib.Core.Path.{subst}
use ryu_db.Base.{none, if◌then◌else◌}
use ryu_db.Base.{both_branches, ℕ, ◌≡◌, ◌≢◌, refl, sym, ap, ◌∙◌, arith, true, false, none, some}
use ryu_db.Base.{◌==◌, ==_iff, if◌then◌else◌, Result, ok, err, panic, [], ◌∷◌}
use ryu_db.Base.Table.{Table, lookup, IsMap, lookup-insert}
use ryu_db.Base.State.{and_then}
use ryu_db.Pager.Disk.{disk_page}
use ryu_db.Buffer.{
  Frame, BufferManager, put_frame, write_back, clean_frame, flush_frame, flush_loop, flush_all,
}
use ryu_db.Buffer.View.{content, IsFrame, IsPool, write_back_lem}
use ryu_db.Buffer.Evict.{Keeps, Keeps-refl, Keeps-trans, write_back-Keeps, by_id}
use ryu_db.Buffer.Fetch.{put_frame-Keeps}

-- Every frame that was dirty is the page of the file.
abbrev pub IsFlushed : Table Frame → BufferManager → Type 0
IsFlushed t b =
    (j : ℕ) (g : Frame) → lookup j t ≡ some g → g.is_dirty ≡ true → disk_page b.file j ≡ g.page

-- One frame: what it leaves to the others, and what it does for its own page.
pub record Flushes (id : ℕ) (f : Frame) (b : BufferManager) (r : Result (Unit {0}) × BufferManager)
    : Type 0 where
  pub keeps : Keeps b r.1
  pub others :
      (j : ℕ)
      → j ≢ id
      → (lookup j r.1.page_table ≡ lookup j b.page_table)
        × (disk_page r.1.file j ≡ disk_page b.file j)
  pub whole : r.0 ≡ ok tt → f.is_dirty ≡ true → disk_page r.1.file id ≡ f.page
  pub kept : f.is_dirty ≡ false → disk_page r.1.file id ≡ disk_page b.file id
  pub sound : r.0 ≢ panic

flush_dirty :
    (id : ℕ) (f : Frame) (b : BufferManager)
    → IsPool b
    → lookup id b.page_table ≡ some f
    → f.is_dirty ≡ true
    → (r : Result (Unit {0})) → (write_back id f.page b).0 ≡ r
    → Flushes id f b (
        and_then
          (r, (write_back id f.page b).1)
          (λ done b'. (ok tt, put_frame id (clean_frame f) b')))
unfolding write_back
flush_dirty id f b h found dirty (ok done) answer =
    let frame = h.frames id f found in
    let w = write_back_lem id f.page b frame.size frame.on_disk in
    let kept = write_back-Keeps id f b h found dirty in
    let b' = (write_back id f.page b).1 in
    let on_file = w.whole answer in
    let old = kept.pool.frames id f found in
    let new : IsFrame b'.file id (clean_frame f) = record {
      size = old.size;
      on_disk = old.on_disk;
      clean = λ c u. ap content (sym on_file);
    } in
    record {
      keeps =
          Keeps-trans kept (put_frame-Keeps id (clean_frame f) b' kept.pool new (rw found refl));
      others = λ j ne.
          let r : (id == j) ≡ false = ground (arith, ne) in
          (rw (lookup-insert id j (clean_frame f) b.page_table, r) refl, w.others j ne);
      whole = λ e d. on_file;
      kept = λ clean. absurd (cc (dirty, clean));
      sound = λ e. cc;
    }
flush_dirty id f b h found dirty (err x) answer =
    let frame = h.frames id f found in
    let w = write_back_lem id f.page b frame.size frame.on_disk in
    record {
      keeps = write_back-Keeps id f b h found dirty;
      others = λ j ne. (refl, w.others j ne);
      whole = λ e. absurd (cc e);
      kept = λ clean. absurd (cc (dirty, clean));
      sound = λ e. cc;
    }
flush_dirty id f b h found dirty panic answer =
    let frame = h.frames id f found in
    absurd ((write_back_lem id f.page b frame.size frame.on_disk).sound answer)

flush_frame-Flushes :
    (id : ℕ) (f : Frame) (b : BufferManager)
    → IsPool b
    → lookup id b.page_table ≡ some f
    → Flushes id f b (flush_frame id f b)
flush_frame-Flushes id f b h found =
    both_branches (Flushes id f b) f.is_dirty _ _ (λ dirty. flush_dirty id f b h found dirty _ refl)
      (λ clean. record {
        keeps = Keeps-refl b h;
        others = λ j ne. (refl, refl);
        whole = λ e dirty. absurd (cc (clean, dirty));
        kept = λ c. refl;
        sound = λ e. cc;
      })

-- The entries to come are frames of the buffer manager.
abbrev Pending : Table Frame → BufferManager → Type 0
Pending t b = (j : ℕ) (g : Frame) → lookup j t ≡ some g → lookup j b.page_table ≡ some g

pub record Flushed (t : Table Frame) (b : BufferManager) (r : Result (Unit {0}) × BufferManager)
    : Type 0 where
  pub keeps : Keeps b r.1
  pub others :
      (j : ℕ)
      → lookup j t ≡ none
      → (lookup j r.1.page_table ≡ lookup j b.page_table)
        × (disk_page r.1.file j ≡ disk_page b.file j)
  pub flushed : r.0 ≡ ok tt → IsFlushed t r.1
  pub clean :
      r.0 ≡ ok tt
      → (j : ℕ) (g : Frame) → lookup j t ≡ some g
      → g.is_dirty ≡ false
      → disk_page r.1.file j ≡ disk_page b.file j
  pub sound : r.0 ≢ panic

lookup_cons :
    (id : ℕ) (f : Frame) (rest : Table Frame) (j : ℕ)
    → lookup j ((id, f) ∷ rest) ≡ (if id == j then some f else lookup j rest)
unfolding lookup
lookup_cons id f rest j = refl

flush_rest :
    (id : ℕ) (f : Frame) (rest : Table Frame) (b : BufferManager)
    → lookup id rest ≡ none
    → Pending ((id, f) ∷ rest) b
    → (r : Result (Unit {0}) × BufferManager) → Flushes id f b r
    → (Pending rest r.1 → Flushed rest r.1 (flush_loop rest r.1))
    → Flushed ((id, f) ∷ rest) b (and_then r λ done. flush_loop rest)
unfolding lookup
flush_rest id f rest b fresh pending (ok done, b') h ih =
    let ne_of = λ (j : ℕ) (g : Frame) (e : lookup j rest ≡ some g).
      let r : j ≢ id = (λ same. cc (fresh, e, same)) in r in
    let rest_pending : Pending rest b' = λ j g e.
      let r : (id == j) ≡ false = ground (arith, ne_of j g e) in
      (h.others j (ne_of j g e)).0 ∙ pending j g (rw r e) in
    let next = ih rest_pending in
    record {
      keeps = Keeps-trans h.keeps next.keeps;
      others = λ j absent.
          let here : (id == id) ≡ true = (==_iff id id).1 refl in
          let ne : j ≢ id = (λ same. ground (arith, absent, same)) in
          let r : (id == j) ≡ false = ground (arith, ne) in
          let (table, file) = next.others j (rw r at absent) in
          (table ∙ (h.others j ne).0, file ∙ (h.others j ne).1);
      flushed = λ e.
          by_id
            (λ j.
              (g : Frame)
              → lookup j ((id, f) ∷ rest) ≡ some g
              → g.is_dirty ≡ true
              → disk_page (flush_loop rest b').1.file j ≡ g.page)
            id
            (λ g found dirty.
              let here : (id == id) ≡ true = (==_iff id id).1 refl in
              let same : f ≡ g = cc (lookup_cons id f rest id, here, found) in
              (next.others id fresh).1
              ∙ subst (λ (k : Frame). k.is_dirty ≡ true → disk_page b'.file id ≡ k.page) same
                  (h.whole refl) dirty)
            (λ j ne g found dirty.
              let r : (id == j) ≡ false = ground (arith, ne) in
              next.flushed e j g (cc (lookup_cons id f rest j, r, found)) dirty);
      clean = λ e.
          by_id
            (λ j.
              (g : Frame)
              → lookup j ((id, f) ∷ rest) ≡ some g
              → g.is_dirty ≡ false
              → disk_page (flush_loop rest b').1.file j ≡ disk_page b.file j)
            id
            (λ g found clean.
              let here : (id == id) ≡ true = (==_iff id id).1 refl in
              let same : f ≡ g = cc (lookup_cons id f rest id, here, found) in
              (next.others id fresh).1 ∙ h.kept (ap (λ (k : Frame). k.is_dirty) same ∙ clean))
            (λ j ne g found clean.
              let r : (id == j) ≡ false = ground (arith, ne) in
              next.clean e j g (cc (lookup_cons id f rest j, r, found)) clean ∙ (h.others j ne).1);
      sound = next.sound;
    }
flush_rest id f rest b fresh pending (err x, b') h ih = record {
  keeps = h.keeps;
  others = λ j absent. let ne : j ≢ id = (λ same. ground (arith, absent, same)) in h.others j ne;
  flushed = λ e. absurd (cc e);
  clean = λ e. absurd (cc e);
  sound = λ e. cc;
}
flush_rest id f rest b fresh pending (panic, b') h ih = absurd (h.sound refl)

pub flush_loop-Flushed :
    (t : Table Frame) (b : BufferManager)
    → IsPool b
    → IsMap t
    → Pending t b
    → Flushed t b (flush_loop t b)
unfolding flush_loop
flush_loop-Flushed [] b h map pending = record {
  keeps = Keeps-refl b h;
  others = λ j absent. (refl, refl);
  flushed = λ e j g found. absurd (unfold lookup in cc found);
  clean = λ e j g found. absurd (unfold lookup in cc found);
  sound = λ e. cc;
}
flush_loop-Flushed ((id, f) ∷ rest) b h map pending =
    let here : (id == id) ≡ true = (==_iff id id).1 refl in
    let step = flush_frame-Flushes id f b h (pending id f (cc (lookup_cons id f rest id, here))) in
    flush_rest id f rest b map.0 pending (flush_frame id f b) step
      λ next. flush_loop-Flushed rest (flush_frame id f b).1 step.keeps.pool map.1 next

-- On a well-formed pool FlushAll keeps it well formed and changes no page, whatever becomes of its
-- writes and in whatever order it ranges over the frames, and where it ends without an error every
-- page that was dirty is the page of the file.
pub flush_all-Flushed :
    (b : BufferManager)
    → IsPool b
    → Keeps b (flush_all b).1 × ((flush_all b).0 ≡ ok tt → IsFlushed b.page_table (flush_all b).1)
unfolding flush_all
flush_all-Flushed b h =
    let (map, same) = h.ranges b.page_table h.map in
    let done =
      flush_loop-Flushed (b.world.range_order b.page_table) b h map
        (λ j g found. sym (same j) ∙ found) in
    (done.keeps, λ e j g found. done.flushed e j g (same j ∙ found))
