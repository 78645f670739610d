-- ===== src/Buffer/Write.antt =====
-- The fetches, the writes through a fetched page, and UnpinPage.
use ryu_db.Base.{
  both_branches, ℕ, ◌≡◌, ◌≢◌, refl, sym, ap, ◌∙◌, arith, true, false, Option, none, some,
}
use ryu_db.Base.{◌==◌, ==_iff, Result, ok, err, panic}
use ryu_db.Base.Table.{lookup, lookup-insert}
use ryu_db.Base.State.{and_then}
use ryu_db.Page.{Page, set_lsn}
use ryu_db.Page.Fields.{size_put_field}
use ryu_db.Page.Checksum.{put_field-put_field}
use ryu_db.Wal.{Wal}
use ryu_db.Buffer.{
  Frame, BufferManager, get_frame, fetch_page_for_read, append_log, logged, back_up,
  fetch_page_for_write,
}
use ryu_db.Buffer.View.{content, view, IsFrame, IsPool}
use ryu_db.Buffer.Evict.{Keeps, Keeps-refl, Keeps-trans}
use ryu_db.Buffer.Fetch.{Fetched, CanPin, get_frame-Fetched, put_frame-Keeps}

-- The page is fetched: it is the page of a frame that is in use, and has the content of the view.
pub record FetchedPage (id : ℕ) (b : BufferManager) (r : Result Page × BufferManager) : Type 0 where
  pub keeps : Keeps b r.1
  pub frame :
      (p : Page)
      → r.0 ≡ ok p
      → (f : Frame) × (lookup id r.1.page_table ≡ some f) × (f.page ≡ p) × (f.pin_count ≢ 0)
  pub page : (p : Page) → r.0 ≡ ok p → view b id ≡ some (content p)
  pub pinned :
      (j : ℕ) (g : Frame)
      → j ≢ id
      → lookup j b.page_table ≡ some g
      → g.pin_count ≢ 0
      → lookup j r.1.page_table ≡ some g
  pub sound : r.0 ≢ panic

read_frame :
    (id : ℕ) (b : BufferManager) (r : Result Frame × BufferManager)
    → Fetched id b r
    → FetchedPage id b (and_then r λ f b'. (ok f.page, b'))
read_frame id b (ok f, b') h = record {
  keeps = h.keeps;
  frame = λ p e. (f, h.frame f refl, (cc e), h.held f refl);
  page = λ p e.
      let same : f.page ≡ p = cc e in h.page f refl ∙ ap (λ (k : Page). some (content k)) same;
  pinned = h.pinned;
  sound = λ e. cc;
}
read_frame id b (err x, b') h = record {
  keeps = h.keeps;
  frame = λ p e. absurd (cc e);
  page = λ p e. cc;
  pinned = h.pinned;
  sound = λ e. cc;
}
read_frame id b (panic, b') h = absurd (h.sound refl)

-- FetchPageForRead changes no page, and returns the page with the content of the view.
pub fetch_page_for_read-FetchedPage :
    (id mode : ℕ) (b : BufferManager)
    → IsPool b
    → CanPin id b
    → FetchedPage id b (fetch_page_for_read id mode b)
unfolding fetch_page_for_read
fetch_page_for_read-FetchedPage id mode b h can =
    read_frame id b (get_frame id mode b) (get_frame-Fetched id mode b h can)

pub content-set_lsn : (lsn : ℕ) (p : Page) → content (set_lsn lsn p) ≡ content p
content-set_lsn lsn p = put_field-put_field 12 8 lsn 0 p

-- The frame `f` of the page `id` has been fetched for writing.
record BackedUp (id : ℕ) (f : Frame) (b : BufferManager) (r : Result Page × BufferManager)
    : Type 0 where
  keeps : Keeps b r.1
  frame :
      (p : Page)
      → r.0 ≡ ok p
      → (g : Frame) × (lookup id r.1.page_table ≡ some g) × (g.page ≡ p) × (g.pin_count ≢ 0)
  page : (p : Page) → r.0 ≡ ok p → content p ≡ content f.page
  others : (j : ℕ) → j ≢ id → lookup j r.1.page_table ≡ lookup j b.page_table
  sound : r.0 ≢ panic

back_up_none :
    (id : ℕ) (f : Frame) (b : BufferManager)
    → IsPool b
    → lookup id b.page_table ≡ some f
    → f.pin_count ≢ 0
    → BackedUp id f b (ok f.page, b)
back_up_none id f b h found held = record {
  keeps = Keeps-refl b h;
  frame = λ p e. (f, found, (cc e), held);
  page = λ p e. let same : f.page ≡ p = cc e in ap content (sym same);
  others = λ j ne. refl;
  sound = λ e. cc;
}

-- A state with the same file, frames and order of ranging stands for the same pages.
abbrev pub SamePages : BufferManager → BufferManager → Type 0
SamePages b b' =
    (b'.file ≡ b.file)
    × (b'.page_table ≡ b.page_table)
    × (b'.world.range_order ≡ b.world.range_order)

pub SamePages-Keeps : (b b' : BufferManager) → IsPool b → SamePages b b' → Keeps b b'
SamePages-Keeps b b' h (file, table, order) = record {
  pool = record {
    map = rw table h.map;
    ranges = rw order h.ranges;
    frames = λ id f found. rw file (h.frames id f (rw table at found));
  };
  same = λ id. rw (file, table) refl;
}

logged-BackedUp :
    (id : ℕ) (f : Frame) (b : BufferManager) (r : Option ℕ × BufferManager)
    → IsPool b
    → lookup id b.page_table ≡ some f
    → f.pin_count ≢ 0
    → SamePages b r.1
    → BackedUp id f b (logged id f r)
logged-BackedUp id f b (none, b') h found held same = record {
  keeps = SamePages-Keeps b b' h same;
  frame = λ p e. absurd (cc e);
  page = λ p e. absurd (cc e);
  others = λ j ne. ap (lookup j) same.1;
  sound = λ e. cc;
}
logged-BackedUp id f b (some lsn, b') h found held same =
    let kept = SamePages-Keeps b b' h same in
    let found' : lookup id b'.page_table ≡ some f = ap (lookup id) same.1 ∙ found in
    let old = kept.pool.frames id f found' in
    let page = set_lsn lsn f.page in
    let g : Frame = record f { page = page; rec_lsn = lsn } in
    let here : (id == id) ≡ true = (==_iff id id).1 refl in
    let new : IsFrame b'.file id g = record {
      size = size_put_field 12 8 lsn f.page ∙ old.size;
      on_disk = old.on_disk;
      clean = λ clean free. absurd (held free);
    } in
    let shown : view b' id ≡ some (content page) =
      rw found' (ap some (sym (content-set_lsn lsn f.page))) in
    record {
      keeps = Keeps-trans kept (put_frame-Keeps id g b' kept.pool new shown);
      frame = λ p e. (g, cc (lookup-insert id id g b'.page_table, here), (cc e), held);
      page =
          λ p e. let same' : page ≡ p = cc e in ap content (sym same') ∙ content-set_lsn lsn f.page;
      others = λ j ne.
          let r : (id == j) ≡ false = ground (arith, ne) in
          cc (lookup-insert id j g b'.page_table, r, ap (lookup j) same.1);
      sound = λ e. cc;
    }

back_up-BackedUp :
    (id : ℕ) (f : Frame) (w : Option Wal) (b : BufferManager)
    → IsPool b
    → lookup id b.page_table ≡ some f
    → f.pin_count ≢ 0
    → BackedUp id f b (back_up id f w b)
unfolding append_log
back_up-BackedUp id f none b h found held = back_up_none id f b h found held
back_up-BackedUp id f (some w) b h found held =
    both_branches (BackedUp id f b) f.is_dirty _ _ (λ dirty. back_up_none id f b h found held)
      (λ clean. logged-BackedUp id f b _ h found held (refl, refl, refl))

write_frame :
    (id : ℕ) (b : BufferManager) (r : Result Frame × BufferManager)
    → Fetched id b r
    → FetchedPage id b (and_then r λ f b'. back_up id f b'.wal b')
write_frame id b (ok f, b') h =
    let up = back_up-BackedUp id f b'.wal b' h.keeps.pool (h.frame f refl) (h.held f refl) in
    record {
      keeps = Keeps-trans h.keeps up.keeps;
      frame = up.frame;
      page = λ p e. h.page f refl ∙ ap some (sym (up.page p e));
      pinned = λ j g ne found held. up.others j ne ∙ h.pinned j g ne found held;
      sound = up.sound;
    }
write_frame id b (err x, b') h = record {
  keeps = h.keeps;
  frame = λ p e. absurd (cc e);
  page = λ p e. cc;
  pinned = h.pinned;
  sound = λ e. cc;
}
write_frame id b (panic, b') h = absurd (h.sound refl)

-- On a well-formed pool, where one more pin of the page fits 32 bits, FetchPageForWrite keeps the pool
-- well formed and changes no page but for its LSN, whatever becomes of the writes to the file and to
-- the log; it leaves the other frames in use where they are, does not panic, and the page that it
-- returns is that of a frame in use, and has the content of the view.
pub fetch_page_for_write-FetchedPage :
    (id mode : ℕ) (b : BufferManager)
    → IsPool b
    → CanPin id b
    → FetchedPage id b (fetch_page_for_write id mode b)
unfolding fetch_page_for_write
fetch_page_for_write-FetchedPage id mode b h can =
    write_frame id b (get_frame id mode b) (get_frame-Fetched id mode b h can)
