-- ===== src/Buffer/Hold.antt =====
-- Pages that are held for writing: they are fetched, changed and let go.
use ryu_db.Base.{
  both_branches, ℕ, ◌<◌, ◌≡◌, refl, sym, ap, ◌∙◌, arith, Option, none, some, List, [], ◌∷◌, length,
  ◌==◌, ==_iff, if◌then◌else◌, ok, Bytes, inl, inr, Bool-cases,
}
use ryu_db.Base.State.{Ends, Ends-and_then, ended}
use ryu_db.Base.Table.{lookup, lookup-insert}
use ryu_db.Page.{Page, set_lsn}
use ryu_db.Page.Fields.{size_put_field}
use ryu_db.Wal.{Wal, append, log_op_full_page}
use ryu_db.Buffer.{
  Frame, BufferManager, put_frame, get_frame, fetch_page_for_write, append_log, logged, back_up,
}
use ryu_db.Buffer.View.{content, view, IsFrame}
use ryu_db.Buffer.Fetch.{view-put_frame}
use ryu_db.Buffer.Write.{content-set_lsn, SamePages-Keeps}
use ryu_db.Pager.Disk.{disk_page}
use ryu_db.Buffer.Pins.{count, IsUsing}
use ryu_db.Buffer.Use.{Gives, get_frame-Gives, Holding, put_frame-IsUsing}

-- Where no write fails, Append returns the next LSN, and leaves the pages alone.
pub append_log-IsUsing :
    (limit : ℕ) (held : List ℕ) (txn page_id prev op : ℕ) (key value : Bytes) (w : Wal)
    (b : BufferManager)
    → IsUsing limit held b
    → let (lsn, b') = append_log txn page_id prev op key value w b in
      (lsn ≡ some w.current_lsn)
      × IsUsing limit held b'
      × (b'.page_table ≡ b.page_table)
      × (b'.file ≡ b.file)
unfolding append_log append
append_log-IsUsing limit held txn page_id prev op key value w b h =
    let r = append_log txn page_id prev op key value w b in
    let kept = SamePages-Keeps b r.1 h.pool (refl, refl, refl) in
    (
      rw (h.writes) refl,
      record {
        pool = kept.pool;
        pins = h.pins;
        there = h.there;
        writes = rw (h.writes) refl;
        size = h.size;
      },
      refl,
      refl,
    )

logged-Holding :
    (limit : ℕ) (held : List ℕ) (id : ℕ) (b : BufferManager) (c : Page) (f : Frame) (w : Wal)
    (b1 : BufferManager)
    → Gives limit held id b c f b1
    → Ends
        (Holding limit held id b c)
        (logged id f (append_log 0 id 0 log_op_full_page [] f.page.bytes w b1))
logged-Holding limit held id b c f w b1 h =
    let (lsn, use_more, table, file) =
      append_log-IsUsing limit (id ∷ held) 0 id 0 log_op_full_page [] f.page.bytes w b1
        h.use_more in
    let b2 = (append_log 0 id 0 log_op_full_page [] f.page.bytes w b1).1 in
    let page = set_lsn w.current_lsn f.page in
    let g : Frame = record f { page = page; rec_lsn = w.current_lsn } in
    let found : lookup id b2.page_table ≡ some f = ap (lookup id) table ∙ h.found in
    let old = use_more.pool.frames id f found in
    let pins = use_more.pins id f found in
    let new : IsFrame b2.file id g = record {
      size = size_put_field 12 8 w.current_lsn f.page ∙ old.size;
      on_disk = old.on_disk;
      clean = λ clean free. absurd (ground (arith, pins, free));
    } in
    let same_content = content-set_lsn w.current_lsn f.page in
    rw lsn (
      ended page (put_frame id g b2) (record {
        frame = g;
        found = cc (lookup-insert id id g b2.page_table, (==_iff id id).1 refl);
        is_page = refl;
        shown = same_content ∙ h.shown;
        agrees =
            λ clean. same_content ∙ h.agrees clean ∙ ap (λ t. content (disk_page t id)) (sym file);
        use_more =
            put_frame-IsUsing limit (id ∷ held) (id ∷ held) id g b2 use_more new pins
              (λ j ne. refl);
        same = λ j.
            view-put_frame id g b2 j
            ∙ view_there id g b1 b2 table file h.found same_content j
            ∙ h.same j;
      }))
  where
    view_there :
        (id : ℕ) (g : Frame) (b1 b2 : BufferManager) {f : Frame}
        → b2.page_table ≡ b1.page_table
        → b2.file ≡ b1.file
        → lookup id b1.page_table ≡ some f
        → content g.page ≡ content f.page
        → (j : ℕ) → (if id == j then some (content g.page) else view b2 j) ≡ view b1 j
    view_there id g b1 b2 table file found same j = elim (Bool-cases (id == j)) [
      | inl e ↦
          let here : id ≡ j = (==_iff id j).0 e in
          rw e (
            ap some same
            ∙ (let s : view b1 id ≡ some (content _) = rw found refl in sym s)
            ∙ ap (view b1) here)
      | inr ne ↦ rw (ne, table, file) refl
    ]

pub fetch_page_for_write-Holding :
    (limit : ℕ) (held : List ℕ) (id mode : ℕ) (b : BufferManager) (c : Page)
    → IsUsing limit held b
    → count id held ≡ 0
    → length held < limit
    → view b id ≡ some c
    → Ends (Holding limit held id b c) (fetch_page_for_write id mode b)
unfolding fetch_page_for_write
fetch_page_for_write-Holding limit held id mode b c h free room shown =
    Ends-and_then (get_frame id mode b) _ (get_frame-Gives limit held id mode b c h free room shown)
      λ f b' g. backed_up f b' b'.wal g
  where
    plain :
        (f : Frame) (b' : BufferManager)
        → Gives limit held id b c f b'
        → Ends (Holding limit held id b c) (ok f.page, b')
    plain f b' g = ended f.page b' (record {
      frame = f;
      found = g.found;
      is_page = refl;
      shown = g.shown;
      agrees = g.agrees;
      use_more = g.use_more;
      same = g.same;
    })

    backed_up :
        (f : Frame) (b' : BufferManager) (w : Option Wal)
        → Gives limit held id b c f b'
        → Ends (Holding limit held id b c) (back_up id f w b')
    backed_up f b' none g = plain f b' g
    backed_up f b' (some w) g =
        both_branches (Ends (Holding limit held id b c)) f.is_dirty _ _ (λ dirty. plain f b' g)
          (λ clean. logged-Holding limit held id b c f w b' g)
