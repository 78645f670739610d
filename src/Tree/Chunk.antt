-- ===== src/Tree/Chunk.antt =====
-- A page of an overflow chain: the number of the next page and a part of the value.
use ryu_db.Base.{
  ℕ, ◌+◌, ◌≤◌, ◌<◌, ◌^◌, ◌≡◌, ap, ◌∙◌, arith, inl, inr, Bytes, length, slice, length-write,
  slice-write_same, slice-write_ne,
}
use ryu_db.Bytes.Binary.{le_value}
use ryu_db.Page.{
  Page, read_field, get_page_id, get_next_overflow_page_id, set_next_overflow_page_id,
  write_overflow_data,
}
use ryu_db.Page.Fields.{
  size_put_field, read_field-put_field, read_field-put_field_ne, slice-put_field_ne,
}
use ryu_db.Buffer.View.{content}
use ryu_db.Tree.Overflow.{write_chunk}

-- What the page holds.
pub record HoldsChunk (chunk : Bytes) (next id : ℕ) (p : Page) : Type 0 where
  pub size : length p.bytes ≡ 4096
  pub next_id : get_next_overflow_page_id p ≡ next
  pub own : get_page_id p ≡ id
  pub part : slice p.bytes 36 (length chunk) ≡ chunk

read_field-write_overflow_data :
    (chunk : Bytes) (p : Page) (o n : ℕ)
    → o + n ≤ 36
    → read_field (write_overflow_data chunk p) o n ≡ read_field p o n
unfolding write_overflow_data read_field
read_field-write_overflow_data chunk p o n h =
    ap le_value (slice-write_ne p.bytes 36 chunk o n (inl h))

pub write_chunk-HoldsChunk :
    (chunk : Bytes) (p : Page)
    → length p.bytes ≡ 4096
    → length chunk ≤ 4060
    → HoldsChunk chunk 0 (get_page_id p) (write_chunk chunk p)
write_chunk-HoldsChunk chunk p size short =
    let q = set_next_overflow_page_id 0 p in
    let q_size : length q.bytes ≡ 4096 = size_put_field 32 4 0 p ∙ size in
    record {
      size = unfold write_overflow_data in length-write q.bytes 36 chunk ∙ q_size;
      next_id =
          read_field-write_overflow_data chunk q 32 4 (omega arith)
          ∙ read_field-put_field 32 4 0 p (omega (arith, size)) (omega arith);
      own =
          read_field-write_overflow_data chunk q 8 4 (omega arith)
          ∙ read_field-put_field_ne 32 4 0 p 8 4 (inl (omega arith));
      part =
          unfold write_overflow_data in
          slice-write_same q.bytes 36 chunk (omega (arith, q_size, short));
    }

pub set_next-HoldsChunk :
    (chunk : Bytes) (next next' id : ℕ) (p : Page)
    → next' < 2 ^ 32
    → HoldsChunk chunk next id p
    → HoldsChunk chunk next' id (set_next_overflow_page_id next' p)
set_next-HoldsChunk chunk next next' id p small h = record {
  size = size_put_field 32 4 next' p ∙ h.size;
  next_id = read_field-put_field 32 4 next' p (omega (arith, h.size)) (omega (arith, small));
  own = read_field-put_field_ne 32 4 next' p 8 4 (inl (omega arith)) ∙ h.own;
  part = slice-put_field_ne 32 4 next' p 36 (length chunk) (inr (omega arith)) ∙ h.part;
}

pub content-HoldsChunk :
    (chunk : Bytes) (next id : ℕ) (p : Page)
    → HoldsChunk chunk next id p
    → HoldsChunk chunk next id (content p)
content-HoldsChunk chunk next id p h = record {
  size = size_put_field 12 8 0 p ∙ h.size;
  next_id = read_field-put_field_ne 12 8 0 p 32 4 (inr (omega arith)) ∙ h.next_id;
  own = read_field-put_field_ne 12 8 0 p 8 4 (inl (omega arith)) ∙ h.own;
  part = slice-put_field_ne 12 8 0 p 36 (length chunk) (inr (omega arith)) ∙ h.part;
}
