-- ===== src/Tree/ReadHeld.antt =====
-- readOverflowChain returns the value of a chain while pages that are not of it are in use.
use ryu_db.Base.{
  ℕ, zero, suc, ◌+◌, ◌^◌, ◌≤◌, ◌<◌, ◌≡◌, refl, sym, ap, ◌∙◌, arith, false, Option, some, List, [],
  ◌++◌, Bytes, length, take, drop, length-drop, take-append-drop, u32, ok,
}
use ryu_db.Base.State.{Ends, Ends-and_then, ended}
use ryu_db.Bytes.Binary.{le_bytes, le_value, le_value-le_bytes}
use ryu_db.Page.{Page, page_type_overflow, get_next_overflow_page_id}
use ryu_db.Buffer.{BufferManager, fetch_page_for_read}
use ryu_db.Buffer.View.{view}
use ryu_db.Buffer.Pins.{count, IsUsing}
use ryu_db.Buffer.Use.{fetch_page_for_read-Holding}
use ryu_db.Tree.Pages.{unpin}
use ryu_db.Tree.WalkWrite.{unpin_read-LetGo}
use ryu_db.Tree.Content.{content-field}
use ryu_db.Tree.Overflow.{read_loop, read_overflow_chain}
use ryu_db.Tree.ReadChain.{
  IsChain, chunk_of, chunk_size-chunk_of, read_chunk, metadata_of, metadata_read,
}

-- Pages that are not in use, as the pool has them.
abbrev pub IsIdle : List ℕ → (ℕ → Option Page) → BufferManager → Type 0
IsIdle held v b = (j : ℕ) (p : Page) → v j ≡ some p → (view b j ≡ some p) × (count j held ≡ 0)

pub record Reading (limit : ℕ) (held : List ℕ) (value : Bytes) (b : BufferManager) (a : Bytes)
    (b' : BufferManager) : Type 0 where
  pub use_same : IsUsing limit held b'
  pub whole : a ≡ value
  pub same : (j : ℕ) → view b' j ≡ view b j

read_loop-Reading :
    (limit : ℕ) (held : List ℕ) (v : ℕ → Option Page) (n fuel id total bytes_read : ℕ)
    (value : Bytes) (b : BufferManager)
    → IsUsing limit held b
    → length held < limit
    → IsIdle held v b
    → IsChain v n id value
    → n ≤ fuel
    → bytes_read + length value ≡ total
    → total < 2 ^ 32
    → Ends (Reading limit held value b) (read_loop fuel id total bytes_read b)
unfolding read_loop
read_loop-Reading limit held v zero fuel id total bytes_read value b h room sub (none_left, empty)
      enough e small =
    rw (none_left, empty) (ended [] b (record { use_same = h; whole = refl; same = λ j. refl }))
read_loop-Reading limit held v (suc n) fuel zero total bytes_read value b h room sub (real, chain)
      enough e small =
    absurd (real refl)
read_loop-Reading limit held v (suc n) zero (suc id) total bytes_read value b h room sub chain
      enough e small =
    absurd (omega (arith, enough))
read_loop-Reading limit held v (suc n) (suc fuel) (suc id) total bytes_read value b h room sub
      (real, (p, at_id, chunk, rest)) enough e small =
    let (shown, unused) = sub (suc id) p at_id in
    let size = chunk_size-chunk_of total bytes_read value e small in
    rw size (
      Ends-and_then (fetch_page_for_read (suc id) page_type_overflow b) _
        (fetch_page_for_read-Holding limit held (suc id) page_type_overflow b p h unused room shown)
        λ q b1 hq.
          Ends-and_then (unpin (suc id) false b1) _
            (unpin_read-LetGo limit held (suc id) b p q b1 hq)
            λ u b2 l.
              let same = λ (j : ℕ). l.same j ∙ hq.same j in
              let next : get_next_overflow_page_id q ≡ get_next_overflow_page_id p =
                sym (content-field q 32 4 (omega arith)) ∙ ap get_next_overflow_page_id hq.shown in
              let got = read_chunk p q value hq.shown chunk in
              let step : u32 (bytes_read + chunk_of value) + length (drop 4060 value) ≡ total =
                ground (arith, length-drop 4060 value, e, small) in
              rw (next, got)
                (Ends-and_then
                  (read_loop fuel (get_next_overflow_page_id p) total
                    (u32 (bytes_read + chunk_of value)) b2)
                  (λ more b3. (ok (take 4060 value ++ more), b3))
                  (read_loop-Reading limit held v n fuel (get_next_overflow_page_id p) total
                    (u32 (bytes_read + chunk_of value)) (drop 4060 value) b2 l.use_less room
                    (λ j k e'. let (there, idle) = sub j k e' in (same j ∙ there, idle)) rest
                    (omega (arith, enough)) step small)
                  λ more b3 r. ended _ b3 (record {
                    use_same = r.use_same;
                    whole = ap (λ t. take 4060 value ++ t) r.whole ∙ take-append-drop 4060 value;
                    same = λ j. r.same j ∙ same j;
                  })))

pub read_overflow_chain-Reading :
    (limit : ℕ) (held : List ℕ) (v : ℕ → Option Page) (n fuel first : ℕ) (value : Bytes)
    (b : BufferManager)
    → IsUsing limit held b
    → length held < limit
    → IsIdle held v b
    → IsChain v n first value
    → n ≤ fuel
    → first < 2 ^ 32
    → length value < 2 ^ 32
    → Ends (Reading limit held value b) (read_overflow_chain fuel (metadata_of first value) b)
unfolding read_overflow_chain
read_overflow_chain-Reading limit held v n fuel first value b h room sub chain enough small_id
      small =
    let (id_read, size_read) = metadata_read first value in
    let size : le_value (le_bytes 4 (u32 (length value))) ≡ length value =
      omega (arith, small, le_value-le_bytes 4 (u32 (length value)) (omega arith)) in
    rw (id_read, size_read, le_value-le_bytes 4 first (omega (arith, small_id)), size)
      (read_loop-Reading limit held v n fuel first (length value) 0 value b h room sub chain enough
        (omega arith) small)
