-- ===== src/Client/Tests.antt =====
-- Runs of the client's ring and failure policy on small inputs.
use oxicache.Common.{arith, ℕ, ◌+◌, ◌%◌, ◌<◌, ◌≡◌, refl, ◌⊎◌, List, [], ◌∷◌, some, min}
use oxicache.Common.{Bool, true, false, ◌==◌, not}
use oxicache.Client.Ring.{
  Point, hash, hash_blocks, hash_block, fmix32, scramble, rotate_left, tail_word, start_of, node_at,
  locate, locate_loop, partition_point, new, all_points,
}
use oxicache.Client.Ring.Sorted.{Ascending, Hashed, new-Ascending}
use oxicache.Client.Ring.Clockwise.{Clockwise}
use oxicache.Client.Ring.Locate.{locate-first, locate-stays}
use oxicache.Client.Health.{
  Failover, Reach, Step, healthy, failed, health, failures, deadline, failures_max, deadline_max,
}
use oxicache.Client.Health.Interleave.{Counted, failures-health, Reach-Counted}

-- Of MurmurHash3's published vectors: "abcd" and "Hello, world!".
hash_four_bytes : hash (97 ∷ 98 ∷ 99 ∷ 100 ∷ []) ≡ 0x43ed676a
unfolding hash hash_blocks hash_block fmix32 scramble rotate_left tail_word
hash_four_bytes = refl

hash_hello :
    hash (72 ∷ 101 ∷ 108 ∷ 108 ∷ 111 ∷ 44 ∷ 32 ∷ 119 ∷ 111 ∷ 114 ∷ 108 ∷ 100 ∷ 33 ∷ []) ≡ 0xc0363e43
unfolding hash hash_blocks hash_block fmix32 scramble rotate_left tail_word
hash_hello = refl

abbrev three_points : List Point
three_points = (10, 0) ∷ (20, 1) ∷ (4000000000, 2) ∷ []

abbrev any_server : ℕ → Bool
any_server n = true

abbrev not_the_first : ℕ → Bool
not_the_first n = not (n == 0)

abbrev policy : Failover
policy = record { failures = 1; retry = 1000 }

three_points-Ascending : Ascending three_points
three_points-Ascending = ((omega arith, (omega arith, tt)), ((omega arith, tt), (tt, tt)))

locate-first_example :
    (start : ℕ) × Clockwise three_points (hash []) start
    × (((k : ℕ) × (k < 3)
          × (not_the_first (node_at three_points ((start + k) % 3)) ≡ true)
          × ((j : ℕ) → j < k → not_the_first (node_at three_points ((start + j) % 3)) ≡ false)
          × (locate three_points [] not_the_first ≡ node_at three_points ((start + k) % 3)))
        ⊎ (((j : ℕ) → j < 3 → not_the_first (node_at three_points ((start + j) % 3)) ≡ false)
            × (locate three_points [] not_the_first ≡ node_at three_points start)))
locate-first_example =
    locate-first three_points [] not_the_first three_points-Ascending (omega arith)

new-Ascending_example :
    Ascending (new ((97 ∷ []) ∷ (98 ∷ []) ∷ []))
    × ((h : ℕ)
        → Hashed h (all_points 0 ((97 ∷ []) ∷ (98 ∷ []) ∷ []))
        → Hashed h (new ((97 ∷ []) ∷ (98 ∷ []) ∷ [])))
new-Ascending_example = new-Ascending ((97 ∷ []) ∷ (98 ∷ []) ∷ [])

locate-stays_example :
    locate three_points (97 ∷ []) not_the_first ≡ locate three_points (97 ∷ []) any_server
unfolding locate locate_loop start_of partition_point node_at hash hash_blocks hash_block fmix32
    scramble rotate_left tail_word
locate-stays_example =
    locate-stays three_points (97 ∷ []) any_server not_the_first (λ n e. absurd (cc)) refl

failures-health_example :
    (failures (health 70000 5) ≡ min 70000 failures_max)
    × (deadline (health 70000 5) ≡ min 5 deadline_max)
failures-health_example = failures-health 70000 5

Reach-Counted_example : Counted (some policy) (failed (some policy) 77 healthy)
Reach-Counted_example = Reach-Counted (Reach.step Reach.start (Step.counts 77))
