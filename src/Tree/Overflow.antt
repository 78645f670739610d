-- ===== src/Tree/Overflow.antt =====
-- internal/storage/btree.go and vacuum.go: chains of overflow pages. A walk along a chain has fuel,
-- for a chain that runs in a circle is walked for ever.
use ryu_db.Base.{ℕ, zero, suc, ◌+◌, ◌-◌, ◌^◌, true, false, [], ◌∷◌, ◌++◌, Option, none, some}
use ryu_db.Base.{Bytes, length, take, drop, slice?, ltb, ◌==◌, if◌then◌else◌, u32}
use ryu_db.Base.{Result, ok, err, panic, or_panic, out_of_fuel}
use ryu_db.Base.State.{and_then, ◌>>=◌, ignore}
use ryu_db.Bytes.Binary.{le_bytes, le_value}
use ryu_db.Page.{
  Page, page_type_overflow, max_overflow_data_size, get_page_id, get_next_overflow_page_id,
  set_next_overflow_page_id, write_overflow_data, read_overflow_data,
}
use ryu_db.Buffer.{fetch_page_for_read, fetch_page_for_write}
use ryu_db.Tree.Pages.{Pages, return, raise, store, unpin}
use ryu_db.Tree.FreeList.{allocate_page, deallocate_page}

-- The page before, still pinned, is linked to the new one.
abbrev pub link_previous : Option (ℕ × Page) → ℕ → Pages (Unit {0})
link_previous none new_page_id = return tt
link_previous (some (id, prev)) new_page_id = do
  let linked = set_next_overflow_page_id new_page_id prev
  _ ← store id linked
  unpin (get_page_id linked) true

abbrev pub write_chunk : Bytes → Page → Page
write_chunk chunk p = write_overflow_data chunk (set_next_overflow_page_id 0 p)

-- Each round takes at least one byte, so the length of the value is fuel enough.
unfoldable pub create_loop : ℕ → Bytes → ℕ → Option (ℕ × Page) → Pages ℕ
unfolding allocate_page fetch_page_for_write
create_loop fuel [] first prev b = (ok first, b)
create_loop zero (x ∷ xs) first prev b = (err out_of_fuel, b)
create_loop (suc fuel) (x ∷ xs) first prev b =
    let chunk = take max_overflow_data_size (x ∷ xs) in
    let remaining = drop max_overflow_data_size (x ∷ xs) in
    and_then (allocate_page page_type_overflow b) λ new b1.
      and_then (fetch_page_for_write new page_type_overflow b1) λ p b2.
        and_then (link_previous prev new b2) λ linked b3.
          and_then (store new (write_chunk chunk p) b3) λ stored b4.
            let first' = if first == 0 then new else first in
            let go_on = create_loop fuel remaining first' (some (new, write_chunk chunk p)) in
            if length remaining == 0
            then and_then (unpin new true b4) (λ done. create_loop fuel remaining first' none)
            else go_on b4

unfoldable pub create_overflow_chain : Bytes → Pages Bytes
unfolding create_loop
create_overflow_chain value = do
  first ← create_loop (length value) value 0 none
  return (le_bytes 4 first ++ le_bytes 4 (u32 (length value)))

abbrev pub chunk_size : ℕ → ℕ → ℕ
chunk_size total bytes_read =
    let left = u32 (total + 2 ^ 32 - bytes_read) in
    if ltb max_overflow_data_size left then max_overflow_data_size else left

unfoldable pub read_loop : ℕ → ℕ → ℕ → ℕ → Pages Bytes
unfolding fetch_page_for_read
read_loop fuel zero total bytes_read b = (ok [], b)
read_loop zero (suc page_id) total bytes_read b = (err out_of_fuel, b)
read_loop (suc fuel) (suc page_id) total bytes_read b =
    let n = chunk_size total bytes_read in
    and_then (fetch_page_for_read (suc page_id) page_type_overflow b) λ p b1.
      and_then (unpin (suc page_id) false b1) λ done b2.
        and_then (read_loop fuel (get_next_overflow_page_id p) total (u32 (bytes_read + n)) b2)
          λ rest b3. (ok (read_overflow_data n p ++ rest), b3)

-- Metadata of fewer than 8 bytes panics; Go takes the bytes behind, up to the capacity of the slice.
unfoldable pub read_overflow_chain : ℕ → Bytes → Pages Bytes
unfolding read_loop
read_overflow_chain fuel metadata = do
  first ← raise (or_panic (slice? metadata 0 4))
  total ← raise (or_panic (slice? metadata 4 8))
  read_loop fuel (le_value first) (le_value total) 0

-- A page that cannot be fetched ends the walk; an error of deallocatePage is not looked at.
abbrev pub free_next : Result Page → (ℕ → Pages (Unit {0})) → ℕ → Pages (Unit {0})
free_next (ok p) walk page_id b = and_then (unpin page_id false b) λ done b1.
    and_then (ignore (deallocate_page page_id b1)) λ freed. walk (get_next_overflow_page_id p)
free_next (err e) walk page_id b = (ok tt, b)
free_next panic walk page_id b = (panic, b)

unfoldable pub free_loop : ℕ → ℕ → Pages (Unit {0})
unfolding fetch_page_for_read deallocate_page
free_loop fuel zero b = (ok tt, b)
free_loop zero (suc page_id) b = (err out_of_fuel, b)
free_loop (suc fuel) (suc page_id) b =
    let (fetched, b1) = fetch_page_for_read (suc page_id) page_type_overflow b in
    free_next fetched (free_loop fuel) (suc page_id) b1

-- Metadata of fewer than 8 bytes panics; Go takes the bytes behind, up to the capacity of the slice.
unfoldable pub free_overflow_chain : ℕ → Bytes → Pages (Unit {0})
unfolding free_loop
free_overflow_chain fuel metadata = do
  first ← raise (or_panic (slice? metadata 0 4))
  free_loop fuel (le_value first)
