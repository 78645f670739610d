-- ===== src/Buffer/Visit.antt =====
-- A page that is fetched for reading and let go again.
use ryu_db.Base.{ℕ, ◌≡◌, ◌≢◌, ◌⊎◌, refl, sym, ap, ◌∙◌, arith, true, false, some}
use ryu_db.Base.{Error, Result, ok, err, panic, Bool-cases, inl, inr}
use ryu_db.Base.Table.{lookup}
use ryu_db.Base.State.{and_then}
use ryu_db.Page.{Page}
use ryu_db.Pager.Disk.{disk_page}
use ryu_db.Buffer.{Frame, BufferManager, get_frame, fetch_page_for_read, unpin_page, unpin_frame}
use ryu_db.Buffer.View.{content, view, IsPool}
use ryu_db.Buffer.Evict.{by_id}
use ryu_db.Buffer.Fetch.{Fetched, get_frame-Fetched}
use ryu_db.Buffer.Unpin.{unpin_page-Keeps}

-- No page is in use.
pub record IsQuiet (b : BufferManager) : Type 0 where
  pub pool : IsPool b
  pub unused : (id : ℕ) (f : Frame) → lookup id b.page_table ≡ some f → f.pin_count ≡ 0

pub record Visits (id : ℕ) (b : BufferManager) (r : Result Page × BufferManager) : Type 0 where
  pub page : (p : Page) → r.0 ≡ ok p → view b id ≡ some (content p)
  pub released :
      (p : Page)
      → r.0 ≡ ok p
      → ((unpin_page id false r.1).0 ≡ ok tt)
        × IsQuiet (unpin_page id false r.1).1
        × ((j : ℕ) → view (unpin_page id false r.1).1 j ≡ view b j)
  pub failed : (x : Error) → r.0 ≡ err x → IsQuiet r.1 × ((j : ℕ) → view r.1 j ≡ view b j)
  pub sound : r.0 ≢ panic

frame_visit :
    (id : ℕ) (b : BufferManager) (r : Result Frame × BufferManager)
    → IsQuiet b
    → Fetched id b r
    → Visits id b (and_then r λ f b'. (ok f.page, b'))
frame_visit id b (ok f, b') q h =
    let (one, agrees) = h.first (q.unused id) f refl in
    let found = h.frame f refl in
    let on_file : (f.is_dirty ≡ true) ⊎ (content f.page ≡ content (disk_page b'.file id)) =
      elim (Bool-cases f.is_dirty) [ inl dirty ↦ inl dirty | inr clean ↦ inr (agrees clean) ] in
    let (fine, kept, mine, others) =
      unpin_page-Keeps id false f b' h.keeps.pool found (h.held f refl) (inr on_file) in
    let after = (unpin_page id false b').1 in
    record {
      page = λ p e.
          h.page f refl
          ∙ ap (λ (k : Page). some (content k)) (let same : f.page ≡ p = cc e in same);
      released = λ p e. (
        fine,
        record {
          pool = kept.pool;
          unused =
              by_id (λ j. (g : Frame) → lookup j after.page_table ≡ some g → g.pin_count ≡ 0) id
                (λ g e.
                  let same : unpin_frame false f ≡ g = cc (mine, e) in
                  omega (arith, one, ap (λ (k : Frame). k.pin_count) same))
                (λ j ne g e. q.unused j g (h.old j g ne (sym (others j ne) ∙ e)));
        },
        λ j. kept.same j ∙ h.keeps.same j,
      );
      failed = λ x e. absurd (cc e);
      sound = λ e. cc;
    }
frame_visit id b (err x, b') q h = record {
  page = λ p e. absurd (cc e);
  released = λ p e. absurd (cc e);
  failed = λ y e. (
    record {
      pool = h.keeps.pool;
      unused =
          by_id (λ j. (g : Frame) → lookup j b'.page_table ≡ some g → g.pin_count ≡ 0) id
            (λ g found. q.unused id g (h.failed x refl g found))
            (λ j ne g found. q.unused j g (h.old j g ne found));
    },
    h.keeps.same,
  );
  sound = λ e. cc;
}
frame_visit id b (panic, b') q h = absurd (h.sound refl)

-- Where no page is in use, a page that is read and let go leaves none in use, and no page changes.
pub fetch_page_for_read-Visits :
    (id mode : ℕ) (b : BufferManager) → IsQuiet b → Visits id b (fetch_page_for_read id mode b)
unfolding fetch_page_for_read
fetch_page_for_read-Visits id mode b q =
    frame_visit id b (get_frame id mode b) q
      (get_frame-Fetched id mode b q.pool λ f found. omega (arith, q.unused id f found))
