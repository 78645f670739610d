-- ===== src/Tree/Held.antt =====
-- Changes through a fetched page, and letting it go, while other pages may be in use.
use ryu_db.Base.{
  ℕ, ◌≡◌, ◌≢◌, ◌⊎◌, refl, sym, ap, ◌∙◌, arith, Bool, true, false, some, List, ◌∷◌, length, ◌==◌,
  ==_iff, if◌then◌else◌, Result, inl, inr, Bool-cases,
}
use ryu_db.Base.State.{Ends, ended, ignore}
use ryu_db.Base.Table.{lookup, lookup-insert}
use ryu_db.Page.{Page}
use ryu_db.Pager.Disk.{disk_page}
use ryu_db.Buffer.{Frame, BufferManager, put_frame, store_page, unpin_page, unpin_frame}
use ryu_db.Buffer.View.{content, view, IsFrame}
use ryu_db.Buffer.Fetch.{view-put_frame}
use ryu_db.Buffer.Pins.{count, IsUsing}
use ryu_db.Buffer.Use.{put_frame-IsUsing}
use ryu_db.Tree.Pages.{store, unpin}

-- The page has been changed, and no other.
pub record Stored (limit : ℕ) (held : List ℕ) (id : ℕ) (p : Page) (b b' : BufferManager)
    : Type 0 where
  pub use_same : IsUsing limit held b'
  pub shown : (j : ℕ) → view b' j ≡ (if id == j then some (content p) else view b j)
  pub found :
      (f : Frame)
      → lookup id b.page_table ≡ some f
      → lookup id b'.page_table ≡ some (record f { page = p })
  pub others : (j : ℕ) → j ≢ id → lookup j b'.page_table ≡ lookup j b.page_table

pub store-Stored :
    (limit : ℕ) (held : List ℕ) (id : ℕ) (p : Page) (b : BufferManager)
    → IsUsing limit held b
    → count id held ≢ 0
    → length p.bytes ≡ 4096
    → Ends (λ _. Stored limit held id p b) (store id p b)
unfolding store_page
store-Stored limit held id p b h used size =
    let (f, found) = h.there id used in
    let g : Frame = record f { page = p } in
    let pins = h.pins id f found in
    let new : IsFrame b.file id g = record {
      size = size;
      on_disk = (h.pool.frames id f found).on_disk;
      clean = λ clean free. absurd (used (sym pins ∙ free));
    } in
    rw found (
      ended tt (put_frame id g b) (record {
        use_same = put_frame-IsUsing limit held held id g b h new pins (λ j ne. refl);
        shown = view-put_frame id g b;
        found = λ k e.
            let same : f ≡ k = cc (found, e) in
            cc (lookup-insert id id g b.page_table, (==_iff id id).1 refl, same);
        others = λ j ne.
            let r : (id == j) ≡ false = ground (arith, ne) in
            lookup-insert id j g b.page_table ∙ (rw r refl);
      }))

-- The page has been let go, and no page has changed.
pub record LetGo (limit : ℕ) (held : List ℕ) (id : ℕ) (b b' : BufferManager) : Type 0 where
  pub use_less : IsUsing limit held b'
  pub same : (j : ℕ) → view b' j ≡ view b j
  pub others : (j : ℕ) → j ≢ id → lookup j b'.page_table ≡ lookup j b.page_table

pub unpin_page-LetGo :
    (limit : ℕ) (held : List ℕ) (id : ℕ) (is_dirty : Bool) (f : Frame) (b : BufferManager)
    → IsUsing limit (id ∷ held) b
    → lookup id b.page_table ≡ some f
    → (is_dirty ≡ true) ⊎ (f.is_dirty ≡ true) ⊎ (content f.page ≡ content (disk_page b.file id))
    → Ends (λ _. LetGo limit held id b) (unpin_page id is_dirty b)
unfolding unpin_page
unpin_page-LetGo limit held id is_dirty f b h found agrees =
    let g = unpin_frame is_dirty f in
    let old = h.pool.frames id f found in
    let pins = h.pins id f found in
    let here : (id == id) ≡ true = (==_iff id id).1 refl in
    let in_use : (f.pin_count == 0) ≡ false = ground (arith, pins) in
    let new : IsFrame b.file id g = record {
      size = old.size;
      on_disk = old.on_disk;
      clean = λ clean free. ground (arith, agrees, clean);
    } in
    rw (found, in_use)
      (ended tt (put_frame id g b) (record {
        use_less =
            put_frame-IsUsing limit (id ∷ held) held id g b h new (ground (arith, pins, here))
              (λ j ne. ground (arith, ne));
        same = λ j. view-put_frame id g b j ∙ unchanged j;
        others = λ j ne.
            let r : (id == j) ≡ false = ground (arith, ne) in
            lookup-insert id j g b.page_table ∙ (rw r refl);
      }))
  where
    unchanged : (j : ℕ) → (if id == j then some (content f.page) else view b j) ≡ view b j
    unchanged j = elim (Bool-cases (id == j)) [
      | inl e ↦
          let here : id ≡ j = (==_iff id j).0 e in
          let shown : view b id ≡ some (content f.page) = rw found refl in
          rw e (sym shown ∙ ap (view b) here)
      | inr ne ↦ rw ne refl
    ]

-- A page that has been written to is let go.
pub unpin_dirty-LetGo :
    (limit : ℕ) (held : List ℕ) (id : ℕ) (b : BufferManager)
    → IsUsing limit (id ∷ held) b
    → Ends (λ _. LetGo limit held id b) (unpin_page id true b)
unpin_dirty-LetGo limit held id b h =
    let used : count id (id ∷ held) ≢ 0 = ground arith in
    let (f, found) = h.there id used in unpin_page-LetGo limit held id true f b h found (inl refl)

pub Ends-ignore :
    {A S : Type 0} {P : S → Type 0} (r : Result A × S) → Ends (λ _. P) r → Ends (λ _. P) (ignore r)
Ends-ignore {P = P} r h = rw h.is_ok (ended tt h.state h.holds)

pub unpin-LetGo :
    (limit : ℕ) (held : List ℕ) (id : ℕ) (b : BufferManager)
    → IsUsing limit (id ∷ held) b
    → Ends (λ _. LetGo limit held id b) (unpin id true b)
unpin-LetGo limit held id b h =
    Ends-ignore (unpin_page id true b) (unpin_dirty-LetGo limit held id b h)
