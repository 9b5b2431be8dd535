-- ===== src/Cache/Table/Tests.antt =====
-- One word in the smallest table.
use oxicache.Common.{
  ℕ, ◌+◌, ◌*◌, ◌≡◌, ◌≢◌, refl, sym, ◌∙◌, ◌⊎◌, ◌↔◌, inl, inr, arith, [], ◌∷◌, some, true, false≢true,
  Bytes,
}
use oxicache.Cache.Entry.{Entry}
use oxicache.Cache.Index.Listed.{same_bytes, same_bytes-cases}
use oxicache.Cache.Table.{
  Position, Table, ptr_values, place, place_in, store, home, alt, tag_of, tag_of_word, or_here,
  slot_in, empty_slot, empty_from, find,
}
use oxicache.Cache.Table.Sound.{Everywhere, Sound, Holds, key_at}
use oxicache.Cache.Table.Displaced.{New, place-Sound}
use oxicache.Cache.Table.Lookup.{find_iff}

abbrev seven : Entry
seven = record { id = 1; key = 7 ∷ []; value = 8 ∷ []; hash = 12297829382473034410 }

abbrev heap : ℕ → Entry
heap id = seven

abbrev fresh : Table
fresh = record { words = λ p. 0; mask = 63 }

abbrev seven_word : ℕ
seven_word = 43690 * ptr_values + 1

abbrev seven_place : Position
seven_place = (42, 0)

fresh-Sound : Sound heap fresh Everywhere
fresh-Sound = record {
  placed = λ q i z. absurd (z refl);
  unique = λ q r i j z y e. absurd (z refl);
}

seven_word-New : New heap fresh 12297829382473034410 seven_word
unfolding tag_of tag_of_word
seven_word-New = record {
  full = λ e. absurd (omega (arith, e));
  hashed = refl;
  tagged = refl;
  absent = λ v (z, q, i, e) k. z (sym e);
}

place_seven :
    (place fresh 1 12297829382473034410 seven_word).1 ≡ some (store fresh seven_place seven_word)
unfolding place place_in home alt tag_of or_here slot_in empty_slot empty_from
place_seven = refl

place-Sound_example :
    ((store fresh seven_place seven_word).mask ≡ 63)
    × Sound heap (store fresh seven_place seven_word) Everywhere
    × ((v : ℕ)
        → Holds heap (store fresh seven_place seven_word) Everywhere v
          ↔ ((v ≡ seven_word) ⊎ Holds heap fresh Everywhere v))
place-Sound_example =
    place-Sound heap fresh (store fresh seven_place seven_word) 1 12297829382473034410 seven_word
      fresh-Sound seven_word-New place_seven

same_bytes_iff : (a b : Bytes) → (same_bytes a b ≡ true) ↔ (a ≡ b)
same_bytes_iff a b = elim (same_bytes-cases a b) [
  | inl (e, h) ↦ ((λ x. h), λ x. e)
  | inr (e, h) ↦ ((λ x. absurd (false≢true (sym e ∙ x))), λ x. absurd (h x))
]

abbrev held : Table
held = store fresh seven_place seven_word

held-Sound : Sound heap held Everywhere
held-Sound =
    (place-Sound heap fresh held 1 12297829382473034410 seven_word fresh-Sound seven_word-New
      place_seven).1

find_iff_example :
    (find heap same_bytes held 12297829382473034410 (7 ∷ []) ≡ some (seven_place, seven_word))
    ↔ ((seven_word ≢ 0) × (held.words seven_place ≡ seven_word) × (key_at heap seven_word ≡ 7 ∷ []))
find_iff_example =
    find_iff heap same_bytes same_bytes_iff held 12297829382473034410 (7 ∷ []) seven_place
      seven_word held-Sound (λ v h k. refl)
