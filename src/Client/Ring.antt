-- ===== src/Client/Ring.antt =====
-- crates/client-rs/src/ring.rs: the hash, the ring and the choice of a server for a key.
pub mod Sorted
pub mod Clockwise
pub mod Locate
use oxicache.Common.{
  ℕ, zero, suc, ◌+◌, ◌-◌, ◌*◌, ◌/◌, ◌%◌, ◌^◌, List, [], ◌∷◌, ◌++◌, map, Option, none, some,
}
use oxicache.Common.{
  Bool, true, false, if◌then◌else◌, ltb, ◌==◌, length, get_or, Bytes, from_le_bytes, u32_mod,
}
use Prim.Native.Nat.{bit_xor, bit_or}

abbrev pub points_per_server : ℕ
points_per_server = 512

abbrev pub c1 : ℕ
c1 = 0xcc9e2d51

abbrev pub c2 : ℕ
c2 = 0x1b873593

unfoldable pub rotate_left : ℕ → ℕ → ℕ
rotate_left n x = bit_or (x * 2 ^ n % u32_mod) (x / 2 ^ (32 - n))

unfoldable pub scramble : ℕ → ℕ
scramble k = rotate_left 15 (k * c1 % u32_mod) * c2 % u32_mod

unfoldable pub fmix32 : ℕ → ℕ
fmix32 h =
    let h1 = bit_xor h (h / 2 ^ 16) * 0x85ebca6b % u32_mod in
    let h2 = bit_xor h1 (h1 / 2 ^ 13) * 0xc2b2ae35 % u32_mod in bit_xor h2 (h2 / 2 ^ 16)

-- The last bytes as one word, the first of them lowest.
unfoldable pub tail_word : ℕ → Bytes → ℕ
tail_word i [] = 0
tail_word i (b ∷ bs) = bit_or (b * 2 ^ (8 * i)) (tail_word (i + 1) bs)

unfoldable pub hash_block : ℕ → ℕ → ℕ
hash_block h k = (rotate_left 13 (bit_xor h (scramble k)) * 5 + 0xe6546b64) % u32_mod

-- The blocks of four bytes, then the tail of up to three.
unfoldable pub hash_blocks : ℕ → Bytes → ℕ
hash_blocks h (a ∷ b ∷ c ∷ d ∷ rest) = hash_blocks (hash_block h (from_le_bytes a b c d)) rest
hash_blocks h [] = h
hash_blocks h (a ∷ []) = bit_xor h (scramble (tail_word 0 (a ∷ [])))
hash_blocks h (a ∷ b ∷ []) = bit_xor h (scramble (tail_word 0 (a ∷ b ∷ [])))
hash_blocks h (a ∷ b ∷ c ∷ []) = bit_xor h (scramble (tail_word 0 (a ∷ b ∷ c ∷ [])))

unfoldable pub hash : Bytes → ℕ
hash bytes = fmix32 (bit_xor (hash_blocks 0 bytes) (length bytes % u32_mod))

-- A point: its hash and the index of its server.
abbrev pub Point : Type 0
Point = ℕ × ℕ

-- `write!(point, "{p}")`, for a number of at most `fuel` digits.
unfoldable pub decimal : ℕ → ℕ → Bytes
decimal zero p = []
decimal (suc fuel) p =
    let rest = decimal fuel (p / 10) in
    if ltb p 10 then (48 + p) ∷ [] else rest ++ ((48 + p % 10) ∷ [])

-- The points `p`, `p + 1`, … of one server; `#` is 35.
unfoldable pub server_points : Bytes → ℕ → ℕ → ℕ → List Point
server_points name i p zero = []
server_points name i p (suc left) =
    (hash (name ++ (35 ∷ decimal 10 p)), i) ∷ server_points name i (p + 1) left

unfoldable pub all_points : ℕ → List Bytes → List Point
all_points i [] = []
all_points i (name ∷ names) = server_points name i 0 points_per_server ++ all_points (i + 1) names

unfoldable pub bytes_lt : Bytes → Bytes → Bool
bytes_lt [] [] = false
bytes_lt [] (b ∷ bs) = true
bytes_lt (a ∷ rest_a) [] = false
bytes_lt (a ∷ rest_a) (b ∷ rest_b) =
    let rest = bytes_lt rest_a rest_b in if ltb a b then true else if a == b then rest else false

unfoldable pub name_at : List Bytes → ℕ → Bytes
name_at names i = get_or names i []

unfoldable pub point_lt : List Bytes → Point → Point → Bool
point_lt names (h, i) (h', i') =
    if ltb h h'
    then true
    else if h == h'
    then bytes_lt (name_at names i) (name_at names i')
    else false

unfoldable pub insert_point : List Bytes → Point → List Point → List Point
insert_point names p [] = p ∷ []
insert_point names p (q ∷ qs) =
    let rest = insert_point names p qs in if point_lt names q p then q ∷ rest else p ∷ q ∷ qs

unfoldable pub sort_points : List Bytes → List Point → List Point
sort_points names [] = []
sort_points names (p ∷ ps) = insert_point names p (sort_points names ps)

-- Of neighbours with the same hash the first stays.
unfoldable pub dedup_after : Point → List Point → List Point
dedup_after p [] = []
dedup_after p (q ∷ qs) =
    let same = dedup_after p qs in
    let other = dedup_after q qs in if p.0 == q.0 then same else q ∷ other

unfoldable pub dedup : List Point → List Point
dedup [] = []
dedup (p ∷ ps) = p ∷ dedup_after p ps

unfoldable pub new : List Bytes → List Point
new names = dedup (sort_points names (all_points 0 names))

-- The number of points before the hash, in a sorted ring.
unfoldable pub partition_point : ℕ → List Point → ℕ
partition_point h [] = 0
partition_point h (p ∷ ps) = let rest = partition_point h ps in if ltb p.0 h then suc rest else 0

unfoldable pub node_at : List Point → ℕ → ℕ
node_at points i = (get_or points i (0, 0)).1

unfoldable pub start_of : List Point → ℕ → ℕ
start_of points h = partition_point h points % length points

unfoldable pub locate_loop : (ℕ → Bool) → List Point → ℕ → ℕ → ℕ → ℕ
locate_loop live points start i zero = node_at points start
locate_loop live points start i (suc left) =
    let node = node_at points ((start + i) % length points) in
    let rest = locate_loop live points start (i + 1) left in if live node then node else rest

unfoldable pub locate : List Point → Bytes → (ℕ → Bool) → ℕ
locate points key live = locate_loop live points (start_of points (hash key)) 0 (length points)
