-- ===== src/Tree/ReadChain.antt =====
-- readOverflowChain returns the value of a chain, whole.
use ryu_db.Base.{
  ℕ, zero, suc, ◌+◌, ◌-◌, ◌^◌, ◌≤◌, ◌<◌, ◌≡◌, ◌≢◌, refl, sym, ap, ◌∙◌, arith, false, Option, some,
  [], ◌++◌, inr,
}
use ryu_db.Base.{
  Bytes, length, take, drop, length-drop, take-append-drop, slice, slice?, slice?-append, ltb,
  if◌then◌else◌, u32, Result, ok, err, panic,
}
use ryu_db.Base.State.{Op, and_then}
use ryu_db.Bytes.Binary.{le_bytes, le_value, length-le_bytes, le_value-le_bytes}
use ryu_db.Page.{Page, page_type_overflow, get_next_overflow_page_id, read_overflow_data}
use ryu_db.Page.Fields.{read_field-put_field_ne, slice-put_field_ne}
use ryu_db.Buffer.{BufferManager, fetch_page_for_read, unpin_page}
use ryu_db.Buffer.View.{content, view}
use ryu_db.Buffer.Ready.{IsReady, Reads, fetch_page_for_read-Reads}
use ryu_db.Tree.Pages.{unpin}
use ryu_db.Tree.Overflow.{chunk_size, read_loop, read_overflow_chain}
use mathlib.Core.List.{append-nil}

abbrev pub chunk_of : Bytes → ℕ
chunk_of value = if ltb 4060 (length value) then 4060 else length value

-- A chain of `n` pages from `id` on that holds the value: each page holds up to 4060 bytes, and the
-- number of the next page, which is 0 behind the last.
abbrev pub IsChain : (ℕ → Option Page) → ℕ → ℕ → Bytes → Type 0
IsChain v zero id value = (id ≡ 0) × (value ≡ [])
IsChain v (suc n) id value =
    (id ≢ 0)
    × ((p : Page) × (v id ≡ some p)
        × (slice p.bytes 36 (chunk_of value) ≡ take 4060 value)
        × IsChain v n (get_next_overflow_page_id p) (drop 4060 value))

IsChain-view :
    (v w : ℕ → Option Page) (n id : ℕ) (value : Bytes)
    → ((j : ℕ) → w j ≡ v j)
    → IsChain v n id value
    → IsChain w n id value
IsChain-view v w zero id value same h = h
IsChain-view v w (suc n) id value same (real, (p, shown, data_read, rest)) =
    (real, (p, same id ∙ shown, data_read, IsChain-view v w n _ _ same rest))

-- Reading a page and letting it go, with what comes behind.
pub visit_then :
    {A : Type 0} (id : ℕ) (b : BufferManager) (r : Result Page × BufferManager)
    (k : Page → Op BufferManager A) (h : Reads id b r)
    → (and_then r λ p b1. and_then (unpin id false b1) λ done. k p)
      ≡ k h.page (unpin_page id false r.1).1
visit_then id b (ok p, b1) k h = let same : p ≡ h.page = cc h.got in rw (h.let_go, same) refl
visit_then id b (err x, b1) k h = absurd (cc h.got)
visit_then id b (panic, b1) k h = absurd (cc h.got)

pub chunk_size-chunk_of :
    (total bytes_read : ℕ) (value : Bytes)
    → bytes_read + length value ≡ total
    → total < 2 ^ 32
    → chunk_size total bytes_read ≡ chunk_of value
chunk_size-chunk_of total bytes_read value e small =
    let left : u32 (total + 2 ^ 32 - bytes_read) ≡ length value = omega (arith, e, small) in
    rw left refl

chunk_of-le : (value : Bytes) → chunk_of value ≤ 4060
chunk_of-le value = ground arith

pub read_chunk :
    (p q : Page) (value : Bytes)
    → content q ≡ p
    → slice p.bytes 36 (chunk_of value) ≡ take 4060 value
    → read_overflow_data (chunk_of value) q ≡ take 4060 value
unfolding read_overflow_data
read_chunk p q value same e =
    let small : ltb 4060 (chunk_of value) ≡ false = ground arith in
    rw small (
      sym (slice-put_field_ne 12 8 0 q 36 (chunk_of value) (inr (omega arith)))
      ∙ ap (λ (k : Page). slice k.bytes 36 (chunk_of value)) same
      ∙ e)

abbrev pub Returns : {A : Type 0} → A → BufferManager → Result A × BufferManager → Type 0
Returns a b r = (r.0 ≡ ok a) × IsReady r.1 × ((j : ℕ) → view r.1 j ≡ view b j)

append_returned :
    (front back : Bytes) (b b2 : BufferManager) (r : Result Bytes × BufferManager)
    → ((j : ℕ) → view b2 j ≡ view b j)
    → Returns back b2 r
    → Returns (front ++ back) b (and_then r λ rest b3. (ok (front ++ rest), b3))
append_returned front back b b2 (ok rest, b3) same (e, ready, same') =
    (ap (λ t. ok (front ++ t)) (let r : rest ≡ back = cc e in r), ready, λ j. same' j ∙ same j)
append_returned front back b b2 (err x, b3) same (e, ready, same') = absurd (cc e)
append_returned front back b b2 (panic, b3) same (e, ready, same') = absurd (cc e)

read_loop-IsChain :
    (n fuel id total bytes_read : ℕ) (value : Bytes) (b : BufferManager)
    → IsReady b
    → IsChain (view b) n id value
    → n ≤ fuel
    → bytes_read + length value ≡ total
    → total < 2 ^ 32
    → Returns value b (read_loop fuel id total bytes_read b)
unfolding read_loop
read_loop-IsChain zero fuel id total bytes_read value b h (none_left, empty) enough e small =
    rw (none_left, empty) (refl, h, λ j. refl)
read_loop-IsChain (suc n) fuel zero total bytes_read value b h (real, chain) enough e small =
    absurd (real refl)
read_loop-IsChain (suc n) zero (suc id) total bytes_read value b h chain enough e small =
    absurd (omega arith)
read_loop-IsChain (suc n) (suc fuel) (suc id) total bytes_read value b h
      (real, (p, shown, chunk, rest)) enough e small =
    let reads = fetch_page_for_read-Reads (suc id) page_type_overflow b p h shown in
    let q = reads.page in
    let b2 = (unpin_page (suc id) false (fetch_page_for_read (suc id) page_type_overflow b).1).1 in
    let same : content q ≡ p = cc (reads.shown, shown) in
    let next : get_next_overflow_page_id q ≡ get_next_overflow_page_id p =
      sym (read_field-put_field_ne 12 8 0 q 32 4 (inr (omega arith)))
      ∙ ap get_next_overflow_page_id same in
    let size = chunk_size-chunk_of total bytes_read value e small in
    let got = read_chunk p q value same chunk in
    let step : u32 (bytes_read + chunk_of value) + length (drop 4060 value) ≡ total =
      ground (arith, length-drop 4060 value, e, small) in
    let tail =
      read_loop-IsChain n fuel (get_next_overflow_page_id p) total
        (u32 (bytes_read + chunk_of value)) (drop 4060 value) b2 reads.ready
        (IsChain-view (view b) (view b2) n _ _ reads.same rest) (omega (arith, enough)) step
        small in
    let k : Page → Op BufferManager Bytes = λ g b3.
      and_then
        (read_loop fuel (get_next_overflow_page_id g) total
          (u32 (bytes_read + chunk_size total bytes_read)) b3)
        λ more b4. (ok (read_overflow_data (chunk_size total bytes_read) g ++ more), b4) in
    let done : Returns (take 4060 value ++ drop 4060 value) b (k q b2) =
      rw (size, next, got)
        (append_returned (take 4060 value) (drop 4060 value) b b2 _ reads.same tail) in
    rw (visit_then (suc id) b (fetch_page_for_read (suc id) page_type_overflow b) k reads)
      (rw (take-append-drop 4060 value) at done)

abbrev pub metadata_of : ℕ → Bytes → Bytes
metadata_of first value = le_bytes 4 first ++ le_bytes 4 (u32 (length value))

-- The first id and the length stand in the metadata.
pub metadata_read :
    (first : ℕ) (value : Bytes)
    → (slice? (metadata_of first value) 0 4 ≡ some (le_bytes 4 first))
      × (slice? (metadata_of first value) 4 8 ≡ some (le_bytes 4 (u32 (length value))))
metadata_read first value =
    let id_bytes = le_bytes 4 first in
    let size_bytes = le_bytes 4 (u32 (length value)) in
    (
      slice?-append _ [] id_bytes size_bytes 0 4 refl refl (omega (arith, length-le_bytes 4 first)),
      slice?-append _ id_bytes size_bytes [] 4 8
          (ap (λ t. id_bytes ++ t) (sym (append-nil size_bytes)))
          (omega (arith, length-le_bytes 4 first))
          (omega (arith, length-le_bytes 4 first, length-le_bytes 4 (u32 (length value)))),
    )

-- On a well-formed pool where no page is in use, no write fails and there is room for a page,
-- readOverflowChain returns the value of a chain that the metadata names, as long as the first page's
-- id and the value's length fit 32 bits and the fuel is not less than the pages of the chain; no page
-- changes, and none is in use behind it.
pub read_overflow_chain-IsChain :
    (n fuel first : ℕ) (value : Bytes) (b : BufferManager)
    → IsReady b
    → IsChain (view b) n first value
    → n ≤ fuel
    → first < 2 ^ 32
    → length value < 2 ^ 32
    → Returns value b (read_overflow_chain fuel (metadata_of first value) b)
unfolding read_overflow_chain
read_overflow_chain-IsChain n fuel first value b h chain enough small_id small =
    let (id_read, size_read) = metadata_read first value in
    let size : le_value (le_bytes 4 (u32 (length value))) ≡ length value =
      omega (arith, small, le_value-le_bytes 4 (u32 (length value)) (omega arith)) in
    rw (id_read, size_read, le_value-le_bytes 4 first (omega (arith, small_id)), size)
      (read_loop-IsChain n fuel first (length value) 0 value b h chain enough (omega arith) small)
