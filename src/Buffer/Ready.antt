-- ===== src/Buffer/Ready.antt =====
-- Where no page is in use and no write fails, every page can be fetched.
use ryu_db.Base.{
  both_branches, ℕ, ◌+◌, ◌*◌, ◌≤◌, ◌≡◌, refl, sym, ◌∙◌, arith, false, Option, none, some, [], ◌∷◌,
  length,
}
use ryu_db.Base.{◌==◌, ==_iff, ltb, leb, if◌then◌else◌, Result, ok, err, panic, end_of_file}
use ryu_db.Base.Table.{Table, lookup, IsMap}
use ryu_db.Base.State.{and_then}
use ryu_db.Page.{Page, new_page}
use ryu_db.Pager.{write_page, read_page}
use ryu_db.Pager.Disk.{disk_page}
use ryu_db.Buffer.{
  Frame, BufferManager, write_back, first_find, drop_frame, evict_victim, evict, make_room,
  add_frame, get_found, get_frame, fetch_page_for_read, unpin_page, unpin_found,
}
use ryu_db.Buffer.View.{content, page_of, view, first_find_lem}
use ryu_db.Buffer.Fetch.{read_new_page, make_room-Evicts}
use ryu_db.Buffer.Visit.{IsQuiet, fetch_page_for_read-Visits}

pub record IsReady (b : BufferManager) : Type 0 where
  pub quiet : IsQuiet b
  pub writes : b.world.io ≡ []
  pub room : 1 ≤ b.max_size

-- What stays for the calls to come.
abbrev pub Stays : BufferManager → BufferManager → Type 0
Stays b b' = (b'.world.io ≡ []) × (b'.max_size ≡ b.max_size)

first_find_unused :
    (t : Table Frame) (j : ℕ) (g : Frame)
    → lookup j t ≡ some g
    → IsMap t
    → ((k : ℕ) (f : Frame) → lookup k t ≡ some f → f.pin_count ≡ 0)
    → (v : ℕ × Frame) × (first_find t ≡ some v)
unfolding first_find lookup
first_find_unused [] j g found map unused = absurd (cc found)
first_find_unused ((k, f) ∷ rest) j g found map unused =
    let free : f.pin_count ≡ 0 = unused k f (rw ((==_iff k k).1 refl) refl) in
    ((k, f), rw free refl)

abbrev pub Fine : BufferManager → Result (Unit {0}) × BufferManager → Type 0
Fine b r = (r.0 ≡ ok tt) × Stays b r.1

write_back_ready :
    (id : ℕ) (p : Page) (b : BufferManager)
    → length p.bytes ≡ 4096
    → b.world.io ≡ []
    → Fine b (write_back id p b)
unfolding write_back write_page
write_back_ready id p b size quiet = rw (size, quiet) (refl, (refl, refl))

drop_frame_ready :
    (id : ℕ) (b : BufferManager) (r : Result (Unit {0}) × BufferManager)
    → Fine b r
    → Fine b (and_then r λ done. drop_frame id)
drop_frame_ready id b (ok done, b') (fine, stays) = (refl, stays)
drop_frame_ready id b (err x, b') (fine, stays) = absurd (cc fine)
drop_frame_ready id b (panic, b') (fine, stays) = absurd (cc fine)

pub evict_victim_ready :
    (id : ℕ) (f : Frame) (b : BufferManager)
    → length f.page.bytes ≡ 4096
    → b.world.io ≡ []
    → Fine b (evict_victim (some (id, f)) b)
evict_victim_ready id f b size quiet =
    drop_frame_ready id b (if f.is_dirty then write_back id f.page b else (ok tt, b)) (
      both_branches (Fine b) f.is_dirty (write_back id f.page b) (ok tt, b)
        (λ dirty. write_back_ready id f.page b size quiet) (λ clean. (refl, (quiet, refl))))

evict_ready :
    (b : BufferManager)
    → IsReady b
    → (j : ℕ) (g : Frame) → lookup j b.page_table ≡ some g
    → Fine b (evict b)
unfolding evict
evict_ready b h j g found =
    let pool = h.quiet.pool in
    let (map, same) = pool.ranges b.page_table pool.map in
    let order = b.world.range_order b.page_table in
    let ((id, f), first) =
      first_find_unused order j g (same j ∙ found) map
        (λ k f e. h.quiet.unused k f (sym (same k) ∙ e)) in
    let (entry, free) = first_find_lem order id f map first in
    let frame = pool.frames id f (sym (same id) ∙ entry) in
    rw first (evict_victim_ready id f b frame.size h.writes)

lookup_head : (j : ℕ) (g : Frame) (rest : Table Frame) → lookup j ((j, g) ∷ rest) ≡ some g
unfolding lookup
lookup_head j g rest = rw ((==_iff j j).1 refl) refl

make_room_ready : (b : BufferManager) → IsReady b → Fine b (make_room b)
make_room_ready b h = full_table b.page_table refl
  where
    full_table : (t : Table Frame) → b.page_table ≡ t → Fine b (make_room b)
    full_table [] e =
        let space : leb b.max_size 0 ≡ false = ground (arith, h.room) in
        rw (e, space) (refl, (h.writes, refl))
    full_table ((j, g) ∷ rest) e =
        both_branches (Fine b) (leb b.max_size (length b.page_table)) (evict b) (ok tt, b)
          (λ full. evict_ready b h j g (rw e (lookup_head j g rest)))
          (λ space. (refl, (h.writes, refl)))

abbrev pub Gets : BufferManager → Result Frame × BufferManager → Type 0
Gets b r = ((f : Frame) × (r.0 ≡ ok f)) × Stays b r.1

pub add_frame_ready :
    (id mode : ℕ) (b : BufferManager) (c : Page)
    → page_of b.file id none ≡ some c
    → b.world.io ≡ []
    → Gets b (add_frame id (read_page id (new_page mode) b.file) b)
add_frame_ready id mode b c shown quiet = rw (read_new_page id mode b.file) (
    both_branches (λ r. Gets b (add_frame id r b)) (ltb (length b.file) (id * 4096 + 4096))
      (err end_of_file) (ok (disk_page b.file id)) (λ short. absurd (cc (rw short at shown)))
      (λ long. ((_, refl), (quiet, refl))))

pub add_after_room :
    (id mode : ℕ) (b : BufferManager) (c : Page) (r : Result (Unit {0}) × BufferManager)
    → Fine b r
    → page_of r.1.file id none ≡ some c
    → Gets b (and_then r λ done b'. add_frame id (read_page id (new_page mode) b'.file) b')
add_after_room id mode b c (ok done, b') (fine, (quiet, size)) shown =
    let (got, (quiet', size')) = add_frame_ready id mode b' c shown quiet in
    (got, (quiet', size' ∙ size))
add_after_room id mode b c (err x, b') (fine, stays) shown = absurd (cc fine)
add_after_room id mode b c (panic, b') (fine, stays) shown = absurd (cc fine)

get_found_ready :
    (id mode : ℕ) (b : BufferManager) (o : Option Frame) (c : Page)
    → IsReady b
    → lookup id b.page_table ≡ o
    → view b id ≡ some c
    → Gets b (get_found id mode o b)
get_found_ready id mode b (some f) c h e shown = ((_, refl), (h.writes, refl))
get_found_ready id mode b none c h e shown =
    let ev = make_room-Evicts b h.quiet.pool in
    let after = ev.keeps.same id ∙ shown in
    add_after_room id mode b c (make_room b) (make_room_ready b h) (rw (ev.fewer id e) at after)

pub read_ready :
    (b : BufferManager) (r : Result Frame × BufferManager)
    → Gets b r
    → let r' = and_then r λ f b'. (ok f.page, b') in ((p : Page) × (r'.0 ≡ ok p)) × Stays b r'.1
read_ready b (ok f, b') (got, stays) = ((f.page, refl), stays)
read_ready b (err x, b') ((f, e), stays) = absurd (cc e)
read_ready b (panic, b') ((f, e), stays) = absurd (cc e)

-- What reading a page and letting it go comes to.
pub record Reads (id : ℕ) (b : BufferManager) (r : Result Page × BufferManager) : Type 0 where
  pub page : Page
  pub got : r.0 ≡ ok page
  pub shown : view b id ≡ some (content page)
  pub let_go : (unpin_page id false r.1).0 ≡ ok tt
  pub ready : IsReady (unpin_page id false r.1).1
  pub same : (j : ℕ) → view (unpin_page id false r.1).1 j ≡ view b j

unpin_found-Stays :
    (id : ℕ) (o : Option Frame) (b : BufferManager)
    → b.world.io ≡ []
    → Stays b (unpin_found id false o b).1
unpin_found-Stays id none b quiet = (quiet, refl)
unpin_found-Stays id (some f) b quiet =
    both_branches (λ (r : Result (Unit {0}) × BufferManager). Stays b r.1) (f.pin_count == 0) _ _
      (λ free. (quiet, refl)) (λ held. (quiet, refl))

unpin_page-Stays :
    (id : ℕ) (b : BufferManager) → b.world.io ≡ [] → Stays b (unpin_page id false b).1
unfolding unpin_page
unpin_page-Stays id b quiet = unpin_found-Stays id (lookup id b.page_table) b quiet

-- On a well-formed pool where no page is in use, no write fails and there is room for a page, a page
-- that is there is read with the content of the view and can be let go; behind it no page has changed
-- and all of this holds again.
pub fetch_page_for_read-Reads :
    (id mode : ℕ) (b : BufferManager) (c : Page)
    → IsReady b
    → view b id ≡ some c
    → Reads id b (fetch_page_for_read id mode b)
unfolding fetch_page_for_read get_frame
fetch_page_for_read-Reads id mode b c h shown =
    let visit = fetch_page_for_read-Visits id mode b h.quiet in
    let ((p, got), (quiet, size)) =
      read_ready b (get_frame id mode b)
        (get_found_ready id mode b (lookup id b.page_table) c h refl shown) in
    let (fine, calm, same) = visit.released p got in
    let (quiet', size') = unpin_page-Stays id (fetch_page_for_read id mode b).1 quiet in
    record {
      page = p;
      got = got;
      shown = visit.page p got;
      let_go = fine;
      ready = record { quiet = calm; writes = quiet'; room = omega (arith, h.room, size, size') };
      same = same;
    }
