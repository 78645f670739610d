-- ===== src/Tree/Descend.antt =====
-- internal/storage/btree.go: findLeafPage.
use ryu_db.Base.{ℕ, zero, suc, Bool, true, false, List, [], ◌∷◌, Option, none, some}
use ryu_db.Base.{
  Bytes, ◌==◌, if◌then◌else◌, Result, ok, err, panic, child_pointer_zero, out_of_fuel,
}
use ryu_db.Base
use ryu_db.Base.State.{and_then}
use ryu_db.Bytes.Order.{bytes_le, bytes_lt}
use ryu_db.Cell.{KeyCell, deserialize_key_cell}
use ryu_db.Page.{Page, page_type_leaf, get_page_type}
use ryu_db.Page.Rebuild.{page_cells}
use ryu_db.Buffer.{fetch_page_for_read, fetch_page_for_write}
use ryu_db.Tree.Pages.{Pages, return, raise, unpin}

-- The cells of an internal page, taken apart.
unfoldable pub key_cells : List Bytes → Result (List KeyCell)
key_cells [] = ok []
key_cells (c ∷ cs) =
    Base.◌>>=◌ (deserialize_key_cell c) λ k. Base.◌>>=◌ (key_cells cs) λ ks. ok (k ∷ ks)

-- The loop's `maxMatchedKey`, which is nil at first, with `nextChildID`.
abbrev pub Matched : Type 0
Matched = Option KeyCell

abbrev pub is_better : Bytes → Matched → KeyCell → Bool
is_better key none k = bytes_le k.key key
is_better key (some m) k = if bytes_le k.key key then bytes_lt m.key k.key else false

unfoldable pub match_loop : Bytes → Matched → List KeyCell → Matched
match_loop key m [] = m
match_loop key m (k ∷ ks) = match_loop key (if is_better key m k then some k else m) ks

-- The child of the largest key that is not above the search key, or the first one's.
abbrev pub child_of : Matched → List KeyCell → ℕ
child_of (some m) ks = m.child_page_id
child_of none [] = 0
child_of none (k ∷ ks) = k.child_page_id

unfoldable pub next_child_id : Bytes → List KeyCell → ℕ
unfolding match_loop
next_child_id key ks = child_of (match_loop key none ks) ks

-- At a leaf: for a write the page is let go and fetched again.
abbrev pub reach_leaf : Bool → ℕ → Page → List ℕ → Pages (Page × List ℕ)
reach_leaf false page_id p path b = (ok (p, path), b)
reach_leaf true page_id p path b =
    and_then (unpin page_id false b)
      λ done b1. and_then (fetch_page_for_write page_id page_type_leaf b1) λ q. return (q, path)

-- The path is kept with the last page first. The fuel bounds the depth of the tree.
unfoldable pub find_from : ℕ → Bytes → Bool → ℕ → List ℕ → Pages (Page × List ℕ)
unfolding fetch_page_for_read fetch_page_for_write key_cells next_child_id
find_from zero key for_write page_id path b = (err out_of_fuel, b)
find_from (suc fuel) key for_write page_id path b =
    and_then (fetch_page_for_read page_id page_type_leaf b) λ p b1.
      let below = and_then (raise (Base.◌>>=◌ (page_cells p) key_cells) b1) λ ks b2.
        and_then (unpin page_id false b2) λ done b3.
          let child = next_child_id key ks in
          let go_on = find_from fuel key for_write child (page_id ∷ path) in
          if child == 0 then (err child_pointer_zero, b3) else go_on b3 in
      if get_page_type p == page_type_leaf then reach_leaf for_write page_id p path b1 else below

unfoldable pub find_leaf_page : ℕ → ℕ → Bytes → Bool → Pages (Page × List ℕ)
unfolding find_from
find_leaf_page fuel root_page_id key for_write = find_from fuel key for_write root_page_id []
