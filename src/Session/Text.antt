-- ===== src/Session/Text.antt =====
-- What server.go uses of Go's package strings, on ASCII text.
use ryu_db.Base.{ℕ, ◌-◌, Bool, true, ◌&&◌, Bytes, [], ◌∷◌, Option, none, some}
use ryu_db.Base.{leb, ◌==◌, if◌then◌else◌}

abbrev is_space : ℕ → Bool
is_space b = if b == 32 then true else leb 9 b && leb b 13

trim_left : Bytes → Bytes
trim_left [] = []
trim_left (b ∷ bs) = let rest = trim_left bs in if is_space b then rest else b ∷ bs

abbrev drop_space : ℕ → Bytes → Bytes
drop_space b [] = if is_space b then [] else b ∷ []
drop_space b (c ∷ cs) = b ∷ c ∷ cs

trim_right : Bytes → Bytes
trim_right [] = []
trim_right (b ∷ bs) = drop_space b (trim_right bs)

unfoldable pub trim_space : Bytes → Bytes
unfolding trim_left trim_right
trim_space text = trim_right (trim_left text)

-- `strings.Fields(text)[0]` of a text that starts with no space.
unfoldable pub first_field : Bytes → Bytes
first_field [] = []
first_field (b ∷ bs) = let rest = first_field bs in if is_space b then [] else b ∷ rest

unfoldable pub to_upper : Bytes → Bytes
to_upper [] = []
to_upper (b ∷ bs) = (if leb 97 b && leb b 122 then b - 32 else b) ∷ to_upper bs

-- The text before the first space, and the text behind it if there is one.
unfoldable pub cut : Bytes → Bytes × Option Bytes
cut [] = ([], none)
cut (b ∷ bs) =
    let (before, after) = cut bs in if b == 32 then ([], some bs) else (b ∷ before, after)
