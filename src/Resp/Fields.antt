-- ===== src/Resp/Fields.antt =====
-- `bytes.Fields` of Go: the runs of bytes between white space, which is Unicode's in UTF-8.
use memcore.Base.{
  ℕ, zero, suc, Bool, ◌&&◌, ◌||◌, List, [], ◌∷◌, ◌++◌, leb, ◌==◌, if◌then◌else◌, Bytes,
}

-- One byte: tab, line feed, vertical tab, form feed, carriage return, space.
abbrev pub space1 : ℕ → Bool
space1 a = (leb 9 a && leb a 13) || (a == 32)

-- Two bytes: U+0085 and U+00A0.
abbrev pub space2 : ℕ → ℕ → Bool
space2 a b = (a == 0xc2) && ((b == 0x85) || (b == 0xa0))

-- Three bytes: U+1680, U+2000 to U+200A, U+2028, U+2029, U+202F, U+205F and U+3000.
abbrev pub space3 : ℕ → ℕ → ℕ → Bool
space3 a b c =
    ((a == 0xe1) && ((b == 0x9a) && (c == 0x80)))
    || (((a == 0xe2)
          && ((b == 0x80)
              && ((leb 0x80 c && leb c 0x8a) || ((c == 0xa8) || ((c == 0xa9) || (c == 0xaf))))))
        || (((a == 0xe2) && ((b == 0x81) && (c == 0x9f)))
            || ((a == 0xe3) && ((b == 0x80) && (c == 0x80)))))

-- The number of bytes of the white space at the front; 0 if there is none.
pub space_at : Bytes → ℕ
space_at [] = 0
space_at (a ∷ []) = if space1 a then 1 else 0
space_at (a ∷ b ∷ []) = if space1 a then 1 else if space2 a b then 2 else 0
space_at (a ∷ b ∷ c ∷ rest) =
    if space1 a then 1 else if space2 a b then 2 else if space3 a b c then 3 else 0

-- A field that is open ends; an empty one is none.
abbrev pub close : Bytes → List Bytes → List Bytes
close [] rest = rest
close (b ∷ bs) rest = (b ∷ bs) ∷ rest

-- `skip` counts the bytes that are left of a white space, `open_field` is the field so far.
unfoldable pub fields_from : ℕ → Bytes → Bytes → List Bytes
unfolding space_at
fields_from skip open_field [] = close open_field []
fields_from (suc skip) open_field (b ∷ bs) = fields_from skip open_field bs
fields_from zero open_field (b ∷ bs) = elim (space_at (b ∷ bs)) [
  | zero ↦ fields_from zero (open_field ++ (b ∷ [])) bs
  | suc more ↦ close open_field (fields_from more [] bs)
]

unfoldable pub fields : Bytes → List Bytes
unfolding fields_from
fields line = fields_from 0 [] line
