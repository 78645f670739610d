-- ===== src/Buffer/Fetch.antt =====
-- getFrame and the fetches: the page that is returned is the page of the view, and no page changes.
use mathlib.Core.Path.{subst}
use ryu_db.Base.{
  both_branches, ℕ, ◌+◌, ◌*◌, ◌^◌, ◌<◌, ◌≡◌, ◌≢◌, refl, sym, ap, ◌∙◌, arith, true, false, Option,
  none, some,
}
use ryu_db.Base.{
  Bytes, length, length-replicate, length-slice, ltb, leb, ◌==◌, ==_iff, if◌then◌else◌, Error,
  Result, ok, err, panic, Bool-cases, inl, inr, u32, end_of_file,
}
use ryu_db.Base.Table.{lookup, insert, lookup-insert, insert-IsMap}
use ryu_db.Base.State.{and_then}
use ryu_db.Page.{new_page, init}
use ryu_db.Page.Fields.{size_put_field}
use ryu_db.Pager.{read_page}
use ryu_db.Pager.Disk.{InFile, disk_page}
use ryu_db.Buffer.{
  Frame, BufferManager, make_room, add_frame, pin_frame, get_found, get_frame, put_frame,
}
use ryu_db.Buffer.View.{content, view, IsFrame, IsPool, page_of-InFile}
use ryu_db.Buffer.Evict.{Keeps, Keeps-refl, Keeps-trans, Evicts, evict-Evicts, by_id}

-- A frame takes the place of another, or a place of its own.
pub put_frame-IsPool :
    (id : ℕ) (f : Frame) (b : BufferManager)
    → IsPool b
    → IsFrame b.file id f
    → IsPool (put_frame id f b)
put_frame-IsPool id f b h new = record {
  map = insert-IsMap id f b.page_table h.map;
  ranges = h.ranges;
  frames =
      by_id (λ j. (g : Frame) → lookup j (insert id f b.page_table) ≡ some g → IsFrame b.file j g)
        id
        (λ g found.
          subst (IsFrame b.file id)
            (cc (lookup-insert id id f b.page_table, (==_iff id id).1 refl, found)) new)
        (λ j ne g found. h.frames j g (
          let r : (id == j) ≡ false = ground (arith, ne) in
          cc (lookup-insert id j f b.page_table, r, found)));
}

pub view-put_frame :
    (id : ℕ) (f : Frame) (b : BufferManager) (j : ℕ)
    → view (put_frame id f b) j ≡ (if id == j then some (content f.page) else view b j)
view-put_frame id f b j = elim (Bool-cases (id == j)) [
  | inl here ↦ rw (lookup-insert id j f b.page_table, here) refl
  | inr there ↦ rw (lookup-insert id j f b.page_table, there) refl
]

-- A frame that stands for the page that was there.
pub put_frame-Keeps :
    (id : ℕ) (f : Frame) (b : BufferManager)
    → IsPool b
    → IsFrame b.file id f
    → view b id ≡ some (content f.page)
    → Keeps b (put_frame id f b)
put_frame-Keeps id f b h new same = record {
  pool = put_frame-IsPool id f b h new;
  same =
      by_id (λ j. view (put_frame id f b) j ≡ view b j) id
        (rw (lookup-insert id id f b.page_table, (==_iff id id).1 refl) (sym same))
        (λ j ne.
          let r : (id == j) ≡ false = ground (arith, ne) in
          rw (lookup-insert id j f b.page_table, r) refl);
}

pub length-new_page : (mode : ℕ) → length (new_page mode).bytes ≡ 4096
unfolding new_page init
length-new_page mode = omega (arith, size_put_field, length-replicate {A = ℕ} 4096 0)

-- The page is fetched: its frame is there with a pin, and the other frames in use are as they were.
pub record Fetched (id : ℕ) (b : BufferManager) (r : Result Frame × BufferManager) : Type 0 where
  pub keeps : Keeps b r.1
  pub frame : (f : Frame) → r.0 ≡ ok f → lookup id r.1.page_table ≡ some f
  pub held : (f : Frame) → r.0 ≡ ok f → f.pin_count ≢ 0
  pub page : (f : Frame) → r.0 ≡ ok f → view b id ≡ some (content f.page)
  pub pinned :
      (j : ℕ) (g : Frame)
      → j ≢ id
      → lookup j b.page_table ≡ some g
      → g.pin_count ≢ 0
      → lookup j r.1.page_table ≡ some g
  pub old :
      (j : ℕ) (g : Frame)
      → j ≢ id
      → lookup j r.1.page_table ≡ some g
      → lookup j b.page_table ≡ some g
  pub first :
      ((g : Frame) → lookup id b.page_table ≡ some g → g.pin_count ≡ 0)
      → (f : Frame) → r.0 ≡ ok f
      → (f.pin_count ≡ 1) × (f.is_dirty ≡ false → content f.page ≡ content (disk_page r.1.file id))
  pub failed :
      (x : Error)
      → r.0 ≡ err x
      → (g : Frame) → lookup id r.1.page_table ≡ some g
      → lookup id b.page_table ≡ some g
  pub sound : r.0 ≢ panic

pub read_new_page :
    (id mode : ℕ) (file : Bytes)
    → read_page id (new_page mode) file
      ≡ (if ltb (length file) (id * 4096 + 4096) then err end_of_file else ok (disk_page file id))
unfolding read_page
read_new_page id mode file = rw (length-new_page mode) refl

add_new-Fetched :
    (id : ℕ) (b : BufferManager)
    → IsPool b
    → lookup id b.page_table ≡ none
    → InFile b.file id
    → Fetched id b (add_frame id (ok (disk_page b.file id)) b)
add_new-Fetched id b h absent inside =
    let f : Frame = record {
      page = disk_page b.file id;
      is_dirty = false;
      pin_count = 1;
      rec_lsn = 0;
    } in
    let here : (id == id) ≡ true = (==_iff id id).1 refl in
    let shown : view b id ≡ some (content f.page) = rw absent (page_of-InFile b.file id inside) in
    let new : IsFrame b.file id f = record {
      size = length-slice b.file (id * 4096) 4096 inside;
      on_disk = inside;
      clean = λ clean unpinned. refl;
    } in
    record {
      keeps = put_frame-Keeps id f b h new shown;
      frame = λ g e. cc (lookup-insert id id f b.page_table, here, e);
      held = λ g e.
          let same : f ≡ g = cc e in
          λ free. omega (arith, ap (λ (k : Frame). k.pin_count) same, free);
      page = λ g e. cc (shown, e);
      pinned = λ j g ne found held.
          let r : (id == j) ≡ false = ground (arith, ne) in
          cc (lookup-insert id j f b.page_table, r, found);
      old = λ j g ne found.
          let r : (id == j) ≡ false = ground (arith, ne) in
          cc (lookup-insert id j f b.page_table, r, found);
      first = λ unused g e.
          let same : f ≡ g = cc e in
          (
            ap (λ (k : Frame). k.pin_count) (sym same),
            λ clean. ap (λ (k : Frame). content k.page) (sym same),
          );
      failed = λ x e. absurd (cc e);
      sound = λ e. cc;
    }

add_frame-Fetched :
    (id mode : ℕ) (b : BufferManager)
    → IsPool b
    → lookup id b.page_table ≡ none
    → Fetched id b (add_frame id (read_page id (new_page mode) b.file) b)
add_frame-Fetched id mode b h absent = rw (read_new_page id mode b.file) (
    both_branches (λ r. Fetched id b (add_frame id r b)) (ltb (length b.file) (id * 4096 + 4096)) _
      _
      (λ short. record {
        keeps = Keeps-refl b h;
        frame = λ g e. cc;
        held = λ g e. cc;
        page = λ g e. cc;
        pinned = λ j g ne found held. found;
        old = λ j g ne found. found;
        first = λ unused g e. absurd (cc e);
        failed = λ x e g found. found;
        sound = λ e. cc;
      })
      (λ long. add_new-Fetched id b h absent (ground (arith, long))))

-- The users of a page are fewer than its pin count has numbers.
abbrev pub CanPin : ℕ → BufferManager → Type 0
CanPin id b = (f : Frame) → lookup id b.page_table ≡ some f → f.pin_count + 1 < 2 ^ 32

add_frame-after :
    (id mode : ℕ) (b : BufferManager) (r : Result (Unit {0}) × BufferManager)
    → Evicts b r
    → lookup id b.page_table ≡ none
    → Fetched id b (and_then r λ done b'. add_frame id (read_page id (new_page mode) b'.file) b')
add_frame-after id mode b (ok done, b') ev absent =
    let got = add_frame-Fetched id mode b' ev.keeps.pool (ev.fewer id absent) in
    record {
      keeps = Keeps-trans ev.keeps got.keeps;
      frame = got.frame;
      held = got.held;
      page = λ f e. sym (ev.keeps.same id) ∙ got.page f e;
      pinned = λ j g ne found held. got.pinned j g ne (ev.pinned j g found held) held;
      old = λ j g ne found. ev.old j g (got.old j g ne found);
      first = λ unused f e. got.first (λ g found. unused g (ev.old id g found)) f e;
      failed = λ x e g found. ev.old id g (got.failed x e g found);
      sound = got.sound;
    }
add_frame-after id mode b (err x, b') ev absent = record {
  keeps = ev.keeps;
  frame = λ g e. cc;
  held = λ g e. cc;
  page = λ g e. cc;
  pinned = λ j g ne found held. ev.pinned j g found held;
  old = λ j g ne found. ev.old j g found;
  first = λ unused g e. absurd (cc e);
  failed = λ x e g found. ev.old id g found;
  sound = λ e. cc;
}
add_frame-after id mode b (panic, b') ev absent = absurd (ev.sound refl)

pub make_room-Evicts : (b : BufferManager) → IsPool b → Evicts b (make_room b)
make_room-Evicts b h =
    both_branches (Evicts b) (leb b.max_size (length b.page_table)) _ _ (λ full. evict-Evicts b h)
      (λ room. record {
        keeps = Keeps-refl b h;
        pinned = λ j g found held. found;
        fewer = λ j absent. absent;
        old = λ j g found. found;
        sound = λ e. cc;
      })

get_found-Fetched :
    (id mode : ℕ) (b : BufferManager) (o : Option Frame)
    → IsPool b
    → CanPin id b
    → lookup id b.page_table ≡ o
    → Fetched id b (get_found id mode o b)
get_found-Fetched id mode b none h can absent =
    add_frame-after id mode b (make_room b) (make_room-Evicts b h) absent
get_found-Fetched id mode b (some f) h can found =
    let old = h.frames id f found in
    let here : (id == id) ≡ true = (==_iff id id).1 refl in
    let shown : view b id ≡ some (content f.page) = rw found refl in
    let small = can f found in
    let new : IsFrame b.file id (pin_frame f) = record {
      size = old.size;
      on_disk = old.on_disk;
      clean = λ clean unpinned. absurd (omega (arith, unpinned, small));
    } in
    record {
      keeps = put_frame-Keeps id (pin_frame f) b h new shown;
      frame = λ g e. cc (lookup-insert id id (pin_frame f) b.page_table, here, e);
      held = λ g e.
          let same : pin_frame f ≡ g = cc e in
          λ free. omega (arith, ap (λ (k : Frame). k.pin_count) same, free, small);
      page = λ g e.
          let same : pin_frame f ≡ g = cc e in
          shown ∙ ap (λ (k : Frame). some (content k.page)) same;
      pinned = λ j g ne other held.
          let r : (id == j) ≡ false = ground (arith, ne) in
          cc (lookup-insert id j (pin_frame f) b.page_table, r, other);
      old = λ j g ne other.
          let r : (id == j) ≡ false = ground (arith, ne) in
          cc (lookup-insert id j (pin_frame f) b.page_table, r, other);
      first = λ unused g e.
          let same : pin_frame f ≡ g = cc e in
          let free = unused f found in
          (
            ap (λ (k : Frame). k.pin_count) (sym same)
                ∙ (let one : u32 (f.pin_count + 1) ≡ 1 = omega (arith, free) in one),
            λ clean.
                ap (λ (k : Frame). content k.page) (sym same)
                ∙ old.clean (ap (λ (k : Frame). k.is_dirty) same ∙ clean) free,
          );
      failed = λ x e. absurd (cc e);
      sound = λ e. cc;
    }

-- getFrame changes no page, whatever becomes of its write, takes no frame that is in use, and
-- returns the frame of the page with the page's content, as long as its pin count does not wrap.
pub get_frame-Fetched :
    (id mode : ℕ) (b : BufferManager) → IsPool b → CanPin id b → Fetched id b (get_frame id mode b)
unfolding get_frame
get_frame-Fetched id mode b h can = get_found-Fetched id mode b (lookup id b.page_table) h can refl
