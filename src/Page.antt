-- ===== src/Page.antt =====
-- internal/storage/page.go: the slotted page, 4096 bytes with a header, a slot directory that grows
-- up from it, and cells that grow down from the end.
pub mod Fields
pub mod Shape
pub mod Insert
pub mod Rebuild
pub mod Checksum
use ryu_db.Base.{ℕ, ◌+◌, ◌-◌, ◌*◌, ◌≡◌, Bool, true, false, not, ◌&&◌, List, [], ◌∷◌, Bytes, length}
use ryu_db.Base.{slice, slice?, write, copy?, replicate, ltb, leb, ◌==◌, if◌then◌else◌, u16}
use ryu_db.Base.{Result, ok, err, panic, ◌>>=◌, or_panic, bad_page_type, page_full, invalid_slot}
use ryu_db.Bytes.Binary.{le_bytes, le_value}
use ryu_db.Bytes.Crc.{crc32}

abbrev pub page_size : ℕ
page_size = 4096

abbrev pub header_size : ℕ
header_size = 32

abbrev pub magic : ℕ
magic = 0xDAB0BA55

abbrev pub slot_size : ℕ
slot_size = 4

abbrev pub page_type_meta : ℕ
page_type_meta = 0

abbrev pub page_type_leaf : ℕ
page_type_leaf = 1

abbrev pub page_type_internal : ℕ
page_type_internal = 2

abbrev pub page_type_overflow : ℕ
page_type_overflow = 3

abbrev pub page_type_free : ℕ
page_type_free = 4

abbrev pub meta_page_id : ℕ
meta_page_id = 0

abbrev pub max_overflow_data_size : ℕ
max_overflow_data_size = page_size - 36

pub record Page : Type 0 where
  pub bytes : Bytes

-- A header field of `w` bytes at `off`, read and written.
unfoldable pub read_field : Page → ℕ → ℕ → ℕ
read_field p off w = le_value (slice p.bytes off w)

unfoldable pub put_field : ℕ → ℕ → ℕ → Page → Page
put_field off w v p = record { bytes = write p.bytes off (le_bytes w v) }

abbrev pub get_page_id : Page → ℕ
get_page_id p = read_field p 8 4

abbrev pub set_page_id : ℕ → Page → Page
set_page_id = put_field 8 4

abbrev pub get_lsn : Page → ℕ
get_lsn p = read_field p 12 8

abbrev pub set_lsn : ℕ → Page → Page
set_lsn = put_field 12 8

abbrev pub get_page_type : Page → ℕ
get_page_type p = read_field p 20 1

abbrev pub set_page_type : ℕ → Page → Page
set_page_type = put_field 20 1

abbrev pub get_slot_count : Page → ℕ
get_slot_count p = read_field p 21 2

abbrev pub set_slot_count : ℕ → Page → Page
set_slot_count = put_field 21 2

abbrev pub get_free_space_offset : Page → ℕ
get_free_space_offset p = read_field p 23 2

abbrev pub set_free_space_offset : ℕ → Page → Page
set_free_space_offset = put_field 23 2

-- `Init` leaves the page id, the checksum and the bytes behind the header.
unfoldable pub init : ℕ → Page → Page
init mode p =
    set_page_type mode
      (set_lsn 0 (set_slot_count 0 (set_free_space_offset page_size (put_field 0 4 magic p))))

unfoldable pub new_page : ℕ → Page
unfolding init
new_page mode = init mode (record { bytes = replicate page_size 0 })

unfoldable pub verify_magic : Page → Bool
verify_magic p = read_field p 0 4 == magic

unfoldable pub set_checksum : Page → Page
set_checksum p = let cleared = put_field 4 4 0 p in put_field 4 4 (crc32 cleared.bytes) cleared

-- The stored checksum is cleared for the sum and put back.
unfoldable pub verify_checksum : Page → Bool × Page
verify_checksum p =
    let stored = read_field p 4 4 in
    let cleared = put_field 4 4 0 p in (stored == crc32 cleared.bytes, put_field 4 4 stored cleared)

-- The page types that hold cells.
abbrev pub holds_cells : Page → Bool
holds_cells p =
    if get_page_type p == page_type_internal then true else get_page_type p == page_type_leaf

abbrev pub slot_entry : ℕ → ℕ
slot_entry slot = u16 (header_size + u16 (slot * slot_size))

-- `PutUint16(p.data[lo:hi], v)`.
abbrev pub put_range : ℕ → ℕ → ℕ → Page → Result Page
put_range lo hi v p = do
  bytes ← or_panic (copy? p.bytes lo hi (le_bytes 2 v))
  ok (record { bytes = bytes })

-- All sums and products are of `uint16`.
unfoldable pub insert : Bytes → Page → Result (ℕ × Page)
insert cell p =
    let slot_count = get_slot_count p in
    let free = get_free_space_offset p in
    let cell_size = u16 (length cell) in
    let entry = slot_entry slot_count in
    let new_free = u16 (free + 65536 - cell_size) in
    let stored : Result (ℕ × Page) = (do
      bytes ← or_panic (copy? p.bytes new_free free cell)
      q ←
          put_range entry (u16 (entry + 2)) new_free
            (set_free_space_offset new_free (record { bytes = bytes }))
      r ← put_range (u16 (entry + 2)) (u16 (entry + 4)) cell_size q
      ok (slot_count, set_slot_count (u16 (slot_count + 1)) r)) in
    if holds_cells p
    then (if ltb free (u16 (entry + u16 (cell_size + slot_size))) then err page_full else stored)
    else err bad_page_type

unfoldable pub get : ℕ → Page → Result Bytes
get slot p =
    let entry = slot_entry slot in
    let found : Result Bytes = (do
      off ← or_panic (slice? p.bytes entry (u16 (entry + 2)))
      size ← or_panic (slice? p.bytes (u16 (entry + 2)) (u16 (entry + 4)))
      or_panic (slice? p.bytes (le_value off) (u16 (le_value off + le_value size)))) in
    if holds_cells p
    then (if leb (get_slot_count p) slot then err invalid_slot else found)
    else err bad_page_type

abbrev pub get_next_overflow_page_id : Page → ℕ
get_next_overflow_page_id p = read_field p 32 4

abbrev pub set_next_overflow_page_id : ℕ → Page → Page
set_next_overflow_page_id = put_field 32 4

unfoldable pub write_overflow_data : Bytes → Page → Page
write_overflow_data value p = record { bytes = write p.bytes 36 value }

unfoldable pub read_overflow_data : ℕ → Page → Bytes
read_overflow_data n p =
    slice p.bytes 36 (if ltb max_overflow_data_size n then max_overflow_data_size else n)

abbrev pub get_root_page_id : Page → ℕ
get_root_page_id p = read_field p 32 4

abbrev pub set_root_page_id : ℕ → Page → Page
set_root_page_id = put_field 32 4

abbrev pub get_first_free_page_id : Page → ℕ
get_first_free_page_id p = read_field p 36 4

abbrev pub set_first_free_page_id : ℕ → Page → Page
set_first_free_page_id = put_field 36 4

abbrev pub get_next_free_page_id : Page → ℕ
get_next_free_page_id p = read_field p 32 4

abbrev pub set_next_free_page_id : ℕ → Page → Page
set_next_free_page_id = put_field 32 4
