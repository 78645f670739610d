-- ===== src/Buffer/Use.antt =====
-- What the operations of the buffer manager do while some pages are in use.
use ryu_db.Base.{
  ℕ, ◌<◌, ◌≡◌, ◌≢◌, refl, sym, ap, ◌∙◌, arith, true, false, Option, none, some, List, ◌∷◌, length,
  ◌==◌, ==_iff,
}
use ryu_db.Base.State.{Ends, Ends-and_then, Ends-ok, ended}
use ryu_db.Base.Table.{lookup, insert, lookup-insert}
use ryu_db.Page.{Page}
use ryu_db.Pager.Disk.{disk_page}
use ryu_db.Buffer.{
  Frame, BufferManager, put_frame, get_frame, get_found, make_room, fetch_page_for_read,
}
use ryu_db.Buffer.View.{content, view, IsFrame}
use ryu_db.Buffer.Evict.{by_id}
use ryu_db.Buffer.Fetch.{get_frame-Fetched, make_room-Evicts, put_frame-IsPool}
use ryu_db.Buffer.Ready.{Gets, add_after_room}
use ryu_db.Buffer.Pins.{count, IsUsing, make_room-Fine}

get_found-Gets :
    (limit : ℕ) (held : List ℕ) (id mode : ℕ) (b : BufferManager) (o : Option Frame) (c : Page)
    → IsUsing limit held b
    → length held < limit
    → lookup id b.page_table ≡ o
    → view b id ≡ some c
    → Gets b (get_found id mode o b)
get_found-Gets limit held id mode b (some f) c h room e shown = ((_, refl), (h.writes, refl))
get_found-Gets limit held id mode b none c h room e shown =
    let ev = make_room-Evicts b h.pool in
    let after = ev.keeps.same id ∙ shown in
    add_after_room id mode b c (make_room b) (make_room-Fine limit held b h room)
      (rw (ev.fewer id e) at after)

-- The frame `f` of the page `id` is in use beside the others.
pub record Gives (limit : ℕ) (held : List ℕ) (id : ℕ) (b : BufferManager) (c : Page) (f : Frame)
    (b' : BufferManager) : Type 0 where
  pub found : lookup id b'.page_table ≡ some f
  pub shown : content f.page ≡ c
  pub agrees : f.is_dirty ≡ false → content f.page ≡ content (disk_page b'.file id)
  pub use_more : IsUsing limit (id ∷ held) b'
  pub same : (j : ℕ) → view b' j ≡ view b j

pub get_frame-Gives :
    (limit : ℕ) (held : List ℕ) (id mode : ℕ) (b : BufferManager) (c : Page)
    → IsUsing limit held b
    → count id held ≡ 0
    → length held < limit
    → view b id ≡ some c
    → Ends (Gives limit held id b c) (get_frame id mode b)
unfolding get_frame
get_frame-Gives limit held id mode b c h free room shown =
    let unused = λ (g : Frame) (e : lookup id b.page_table ≡ some g). h.pins id g e ∙ free in
    let got = get_frame-Fetched id mode b h.pool λ g e. omega (arith, unused g e) in
    let ((f, is_ok), (quiet, size)) =
      get_found-Gets limit held id mode b (lookup id b.page_table) c h room refl shown in
    let after = (get_frame id mode b).1 in
    let (one, agrees) = got.first unused f is_ok in
    let found = got.frame f is_ok in
    Ends-ok (get_frame id mode b) f is_ok (record {
      found = found;
      shown = let e : some (content f.page) ≡ some c = sym (got.page f is_ok) ∙ shown in cc e;
      agrees = agrees;
      use_more = record {
        pool = got.keeps.pool;
        pins =
            by_id
              (λ j.
                (g : Frame)
                → lookup j after.page_table ≡ some g
                → g.pin_count ≡ count j (id ∷ held))
              id
              (λ g e.
                let same : f ≡ g = cc (found, e) in
                ground (arith, ap (λ (k : Frame). k.pin_count) same, one, free))
              (λ j ne g e. ground (arith, h.pins j g (got.old j g ne e), ne));
        there =
            by_id
              (λ j. count j (id ∷ held) ≢ 0 → (g : Frame) × (lookup j after.page_table ≡ some g)) id
              (λ used. (f, found))
              (λ j ne used.
                let mine : count j held ≢ 0 = ground (arith, used, ne) in
                let (g, e) = h.there j mine in
                (g, got.pinned j g ne e λ unpinned. mine (sym (h.pins j g e) ∙ unpinned)));
        writes = quiet;
        size = size ∙ h.size;
      };
      same = got.keeps.same;
    })

-- The page `p` is that of a frame in use.
pub record Holding (limit : ℕ) (held : List ℕ) (id : ℕ) (b : BufferManager) (c p : Page)
    (b' : BufferManager) : Type 0 where
  pub frame : Frame
  pub found : lookup id b'.page_table ≡ some frame
  pub is_page : frame.page ≡ p
  pub shown : content p ≡ c
  pub agrees : frame.is_dirty ≡ false → content frame.page ≡ content (disk_page b'.file id)
  pub use_more : IsUsing limit (id ∷ held) b'
  pub same : (j : ℕ) → view b' j ≡ view b j

pub fetch_page_for_read-Holding :
    (limit : ℕ) (held : List ℕ) (id mode : ℕ) (b : BufferManager) (c : Page)
    → IsUsing limit held b
    → count id held ≡ 0
    → length held < limit
    → view b id ≡ some c
    → Ends (Holding limit held id b c) (fetch_page_for_read id mode b)
unfolding fetch_page_for_read
fetch_page_for_read-Holding limit held id mode b c h free room shown =
    Ends-and_then (get_frame id mode b) _ (get_frame-Gives limit held id mode b c h free room shown)
      λ f b' g. ended f.page b' (record {
        frame = f;
        found = g.found;
        is_page = refl;
        shown = g.shown;
        agrees = g.agrees;
        use_more = g.use_more;
        same = g.same;
      })

-- A frame is changed: the pages in use are those of another list.
pub put_frame-IsUsing :
    (limit : ℕ) (held held' : List ℕ) (id : ℕ) (g : Frame) (b : BufferManager)
    → IsUsing limit held b
    → IsFrame b.file id g
    → g.pin_count ≡ count id held'
    → ((j : ℕ) → j ≢ id → count j held ≡ count j held')
    → IsUsing limit held' (put_frame id g b)
put_frame-IsUsing limit held held' id g b h new mine others =
    let here : (id == id) ≡ true = (==_iff id id).1 refl in
    let apart : (j : ℕ) → j ≢ id → lookup j (insert id g b.page_table) ≡ lookup j b.page_table =
      λ j ne.
        let r : (id == j) ≡ false = ground (arith, ne) in
        lookup-insert id j g b.page_table ∙ (rw r refl) in
    record {
      pool = put_frame-IsPool id g b h.pool new;
      pins =
          by_id
            (λ j.
              (f : Frame)
              → lookup j (insert id g b.page_table) ≡ some f
              → f.pin_count ≡ count j held')
            id
            (λ f e.
              let same : g ≡ f = cc (lookup-insert id id g b.page_table, here, e) in
              ap (λ (k : Frame). k.pin_count) (sym same) ∙ mine)
            (λ j ne f e. h.pins j f (sym (apart j ne) ∙ e) ∙ others j ne);
      there =
          by_id
            (λ j. count j held' ≢ 0 → (f : Frame) × (lookup j (insert id g b.page_table) ≡ some f))
            id (λ used. (g, cc (lookup-insert id id g b.page_table, here)))
            (λ j ne used.
              let (f, e) = h.there j (λ none_left. used (sym (others j ne) ∙ none_left)) in
              (f, apart j ne ∙ e));
      writes = h.writes;
      size = h.size;
    }
