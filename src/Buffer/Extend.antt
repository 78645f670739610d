-- ===== src/Buffer/Extend.antt =====
-- AllocatePage gives the pool a page that it did not have.
use mathlib.Core.Path.{subst}
use ryu_db.Base.{
  Result, ℕ, ◌+◌, ◌*◌, ◌/◌, ◌^◌, ◌≤◌, ◌<◌, ◌≡◌, refl, sym, ap, ◌∙◌, arith, true, false, Bool-cases,
  inl, inr, Option, none, some, List, Bytes, length, ltb, ◌==◌, ==_iff, if◌then◌else◌, ok, u32,
}
use ryu_db.Base.State.{Ends, ended}
use ryu_db.Base.Table.{lookup}
use ryu_db.Page.{Page, new_page, set_page_id}
use ryu_db.Page.Fields.{size_put_field}
use ryu_db.Pager.{write_at, write_page}
use ryu_db.Pager
use ryu_db.Pager.Disk.{disk_page}
use ryu_db.Pager.Append.{length-write_at_end, disk_page-write_at_end, disk_page-write_at_end_ne}
use ryu_db.Buffer.{Frame, BufferManager, head_io, tail_io, spend_io, allocate_at_end}
use ryu_db.Buffer.View.{content, page_of, view, IsPool}
use ryu_db.Buffer.Fetch.{length-new_page}
use ryu_db.Buffer.Pins.{IsUsing}

-- The page behind the last whole page of the file.
abbrev pub next_id : BufferManager → ℕ
next_id b = length b.file / 4096

abbrev pub blank_page : ℕ → ℕ → Page
blank_page mode id = set_page_id id (new_page mode)

-- A page that is not there lies behind the file.
pub view-none :
    (b : BufferManager) (id : ℕ)
    → IsPool b
    → view b id ≡ none
    → (lookup id b.page_table ≡ none) × (length b.file < id * 4096 + 4096)
view-none b id h absent = by_case (lookup id b.page_table) refl
  where
    by_case :
        (o : Option Frame)
        → lookup id b.page_table ≡ o
        → (lookup id b.page_table ≡ none) × (length b.file < id * 4096 + 4096)
    by_case (some f) e = absurd (cc (rw e at absent))
    by_case none e = elim (Bool-cases (ltb (length b.file) (id * 4096 + 4096))) [
      | inl short ↦ (e, ground (arith, short))
      | inr long ↦ absurd (cc (rw (e, long) at absent))
    ]

-- A new page, and no other has changed.
pub record Extends (limit : ℕ) (held : List ℕ) (mode : ℕ) (b : BufferManager) (id : ℕ)
    (b' : BufferManager) : Type 0 where
  pub use_same : IsUsing limit held b'
  pub was_absent : view b id ≡ none
  pub shown :
      (j : ℕ) → view b' j ≡ (if id == j then some (content (blank_page mode id)) else view b j)
  pub others : (j : ℕ) → lookup j b'.page_table ≡ lookup j b.page_table
  pub small : id < 2 ^ 32
  pub near : (k : ℕ) → view b k ≡ none → id ≤ k

module _ (limit : ℕ) (held : List ℕ) (mode : ℕ) (b : BufferManager) (h : IsUsing limit held b) where
  last_page : (length b.file < next_id b * 4096 + 4096) × (next_id b * 4096 ≤ length b.file)
  last_page = (omega arith, omega arith)

  page_size-blank_page : (id : ℕ) → length (blank_page mode id).bytes ≡ 4096
  page_size-blank_page id = size_put_field 8 4 id (new_page mode) ∙ length-new_page mode

  new_file : Bytes
  new_file = write_at b.file (next_id b * 4096) (blank_page mode (next_id b)).bytes

  length-new_file : length new_file ≡ next_id b * 4096 + 4096
  unfolding new_file
  length-new_file =
      length-write_at_end b.file (next_id b) (blank_page mode (next_id b)) last_page.1 last_page.0
        (page_size-blank_page (next_id b))

  absent_there : lookup (next_id b) b.page_table ≡ none
  absent_there = by_case (lookup (next_id b) b.page_table) refl
    where
      by_case :
          (o : Option Frame)
          → lookup (next_id b) b.page_table ≡ o
          → lookup (next_id b) b.page_table ≡ none
      by_case none e = e
      by_case (some f) e =
          absurd (omega (arith, (h.pool.frames (next_id b) f e).on_disk, last_page.0))

  frame_inside : (j : ℕ) (f : Frame) → lookup j b.page_table ≡ some f → j < next_id b
  frame_inside j f e = omega (arith, (h.pool.frames j f e).on_disk, last_page.0)

  same_page : (j : ℕ) → j < next_id b → disk_page new_file j ≡ disk_page b.file j
  unfolding new_file
  same_page =
      disk_page-write_at_end_ne b.file (next_id b) (blank_page mode (next_id b)) last_page.1
        last_page.0 (page_size-blank_page (next_id b))

  disk_page-new_file : disk_page new_file (next_id b) ≡ blank_page mode (next_id b)
  unfolding new_file
  disk_page-new_file =
      disk_page-write_at_end b.file (next_id b) (blank_page mode (next_id b)) last_page.1
        last_page.0 (page_size-blank_page (next_id b))

  view_after :
      (j : ℕ) (o : Option Frame)
      → lookup j b.page_table ≡ o
      → page_of new_file j o ≡ (
          if next_id b == j
          then some (content (blank_page mode (next_id b)))
          else page_of b.file j o)
  view_after j (some f) e =
      let apart : (next_id b == j) ≡ false = ground (arith, frame_inside j f e) in rw apart refl
  view_after j none e = elim (Bool-cases (next_id b == j)) [
    | inl same ↦
        let here : next_id b ≡ j = (==_iff (next_id b) j).0 same in
        let whole : ltb (length new_file) (j * 4096 + 4096) ≡ false =
          ground (arith, length-new_file, here) in
        let page : disk_page new_file j ≡ blank_page mode (next_id b) =
          ap (disk_page new_file) (sym here) ∙ disk_page-new_file in
        rw (same, whole) (ap (λ p. some (content p)) page)
    | inr apart ↦ elim (Bool-cases (ltb (length b.file) (j * 4096 + 4096))) [
      | inl short ↦
          let still : ltb (length new_file) (j * 4096 + 4096) ≡ true =
            ground (arith, length-new_file, short, apart, last_page.1) in
          rw (apart, short, still) refl
      | inr long ↦
          let below : j < next_id b = ground (arith, long, last_page.0) in
          let still : ltb (length new_file) (j * 4096 + 4096) ≡ false =
            ground (arith, length-new_file, below) in
          rw (apart, long, still) (ap (λ p. some (content p)) (same_page j below))
    ]
  ]

  IsPool-new_file : IsPool (record (spend_io b) { file = new_file })
  IsPool-new_file = record {
    map = h.pool.map;
    ranges = h.pool.ranges;
    frames = λ j f e.
        let old = h.pool.frames j f e in
        record {
          size = old.size;
          on_disk = omega (arith, length-new_file, frame_inside j f e);
          clean = λ clean free.
              old.clean clean free ∙ ap content (sym (same_page j (frame_inside j f e)));
        };
  }

  page_allocated :
      next_id b < 2 ^ 32
      → Pager.allocate_page (head_io b.world.io) mode b.file ≡ (ok (next_id b), new_file)
  unfolding Pager.allocate_page write_page new_file
  page_allocated small =
      let same_id : u32 (next_id b) ≡ next_id b = omega (arith, small) in
      ap (λ io. Pager.allocate_page (head_io io) mode b.file) h.writes
      ∙ (rw (same_id, page_size-blank_page (next_id b)) refl)

  -- Where the file has fewer pages than ids, AllocatePage adds a page.
  pub allocate_at_end-Extends :
      next_id b < 2 ^ 32 → Ends (Extends limit held mode b) (allocate_at_end mode b)
  unfolding allocate_at_end
  allocate_at_end-Extends small =
      subst
        (λ (x : Result ℕ × Bytes).
          Ends (Extends limit held mode b) (x.0, record (spend_io b) { file = x.1 }))
        (sym (page_allocated small))
        (ended (next_id b) (record (spend_io b) { file = new_file })
          (record {
            use_same = record {
              pool = IsPool-new_file;
              pins = h.pins;
              there = h.there;
              writes = ap tail_io h.writes;
              size = h.size;
            };
            was_absent =
                let short : ltb (length b.file) (next_id b * 4096 + 4096) ≡ true =
                  ground (arith, last_page.0) in
                rw (absent_there, short) refl;
            shown = λ j. view_after j (lookup j b.page_table) refl;
            others = λ j. refl;
            small = small;
            near =
                λ k absent. let (gone, short) = view-none b k h.pool absent in omega (arith, short);
          }))
