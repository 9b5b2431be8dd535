-- ===== src/Server/Dispatch/Alone/Runs.antt =====
-- A run of a batch, which goes to the cache at once, against its items one by one.
use oxicache.Common.{ℕ, ◌≡◌, refl, ap, ◌∙◌, List, [], ◌∷◌, ◌++◌}
use oxicache.Common.{Bytes}
use oxicache.Io.Writer.Close.{Write}
use oxicache.Cache.Index.{Index}
use oxicache.Cache.Store.{look, look_all, get_many, del_one, del_all, del_many}
use oxicache.Cache.Store.Same.{
  SameShards, SameShards-refl, SameShards-sym, SameShards-trans, count_at-SameShards, look-get_in,
  del_one-SameShards,
}
use oxicache.Server.Dispatch.{
  Texts, found_of, deleted_of, get_value, get_values, del_values, del_reply, values_of,
  deletions_of, run_gets, run_dels, and_then,
}
use oxicache.Server.Dispatch.Alone.{State, each, answer_get, answer_del}

module _ (hasher : Bytes → ℕ) (index : Index hasher) (texts : Texts) where
  -- The same shards, the same next address and the same metric; the counters of the reads and the
  -- collector's count differ, as the code adds those up once for a batch.
  pub record SameServed (s t : State hasher index texts) : Type 0 where
    pub shards : SameShards hasher index s.cache t.cache
    pub next : s.next ≡ t.next
    pub refused : s.set_too_large ≡ t.set_too_large

  pub SameServed-refl : (s : State hasher index texts) → SameServed s s
  SameServed-refl s = record {
    shards = SameShards-refl hasher index s.cache;
    next = refl;
    refused = refl;
  }

  pub record Agree (r r' : State hasher index texts × List Write) : Type 0 where
    pub state : SameServed (r.0) (r'.0)
    pub writes : r.1 ≡ r'.1

  pub and_then-Agree :
      (f g : State hasher index texts → State hasher index texts × List Write)
      (r r' : State hasher index texts × List Write)
      → Agree r r'
      → ((s t : State hasher index texts) → SameServed s t → Agree (f s) (g t))
      → Agree (and_then hasher index texts f r) (and_then hasher index texts g r')
  unfolding and_then
  and_then-Agree f g (s, ws) (t, ws') a h =
      let b = h s t a.state in
      record {
        state = b.state;
        writes = ap (λ z. z ++ (f s).1) a.writes ∙ ap (λ z. ws' ++ z) b.writes;
      }

  -- The loop of `get_many`, with its replies, and its first step.
  looked : List Bytes → State hasher index texts → State hasher index texts × List Write
  looked keys s =
      let (c, es) = look_all hasher index s.cache keys in
      (record s { cache = c }, values_of hasher index texts es)

  looked_one : State hasher index texts → Bytes → State hasher index texts × List Write
  looked_one s k = let (c, e) = look hasher index s.cache k in (record s { cache = c }, found_of e)

  looked-cons :
      (s : State hasher index texts) (k : Bytes) (keys : List Bytes)
      → looked (k ∷ keys) s ≡ and_then hasher index texts (looked keys) (looked_one s k)
  unfolding looked looked_one and_then look_all values_of
  looked-cons s k keys = refl

  looked_one-Agree :
      (s t : State hasher index texts) (k : Bytes)
      → SameServed s t
      → Agree (looked_one s k) (answer_get hasher index texts t k)
  unfolding looked_one answer_get get_value
  looked_one-Agree s t k same =
      let (found, kept) = look-get_in hasher index s.cache t.cache k same.shards in
      record {
        state = record { shards = kept; next = same.next; refused = same.refused };
        writes = ap found_of found;
      }

  looked-each :
      (keys : List Bytes) (s t : State hasher index texts)
      → SameServed s t
      → Agree (looked keys s) (each hasher index texts (answer_get hasher index texts) keys t)
  unfolding each
  looked-each [] s t same =
      unfold looked look_all values_of in record { state = same; writes = refl }
  looked-each (k ∷ keys) s t same = rw (looked-cons s k keys) (
      and_then-Agree (looked keys) (each hasher index texts (answer_get hasher index texts) keys)
        (looked_one s k) (answer_get hasher index texts t k) (looked_one-Agree s t k same)
        (looked-each keys))

  pub run_gets-each :
      (s t : State hasher index texts) (keys : List Bytes)
      → SameServed s t
      → Agree
          (run_gets hasher index texts s keys)
          (each hasher index texts (answer_get hasher index texts) keys t)
  unfolding run_gets get_values get_many
  run_gets-each s t [] same = unfold each values_of in record { state = same; writes = refl }
  run_gets-each s t (k ∷ keys) same =
      let a = unfold_looked (looked-each (k ∷ keys) s t same) in
      record {
        state = record {
          shards =
              SameShards-trans hasher index _ _ _
                (count_at-SameShards hasher index ((look_all hasher index s.cache (k ∷ keys)).0) _
                  _)
                a.state.shards;
          next = a.state.next;
          refused = a.state.refused;
        };
        writes = a.writes;
      }
    where
      unfold_looked :
          Agree
            (looked (k ∷ keys) s)
            (each hasher index texts (answer_get hasher index texts) (k ∷ keys) t)
          → Agree
              (
                record s { cache = (look_all hasher index s.cache (k ∷ keys)).0 },
                values_of hasher index texts (look_all hasher index s.cache (k ∷ keys)).1,
              )
              (each hasher index texts (answer_get hasher index texts) (k ∷ keys) t)
      unfold_looked a = unfold looked in a

  -- The deletions, likewise.
  erased : List Bytes → State hasher index texts → State hasher index texts × List Write
  erased keys s =
      let (c, rs) = del_all hasher index s.cache keys in
      (record s { cache = c }, deletions_of hasher index texts rs)

  erased_one : State hasher index texts → Bytes → State hasher index texts × List Write
  erased_one s k =
      let (c, r) = del_one hasher index s.cache k in (record s { cache = c }, deleted_of r)

  erased-cons :
      (s : State hasher index texts) (k : Bytes) (keys : List Bytes)
      → erased (k ∷ keys) s ≡ and_then hasher index texts (erased keys) (erased_one s k)
  unfolding erased erased_one and_then del_all deletions_of
  erased-cons s k keys = refl

  erased_one-Agree :
      (s t : State hasher index texts) (k : Bytes)
      → SameServed s t
      → Agree (erased_one s k) (answer_del hasher index texts t k)
  unfolding erased_one answer_del del_values del_many del_all del_reply
  erased_one-Agree s t k same =
      let (found, kept) = del_one-SameShards hasher index s.cache t.cache k same.shards in
      record {
        state = record {
          shards = SameShards-trans hasher index _ _ _ kept (
              SameShards-sym hasher index _ _
                (count_at-SameShards hasher index ((del_one hasher index t.cache k).0) _ _));
          next = same.next;
          refused = same.refused;
        };
        writes = ap deleted_of found;
      }

  erased-each :
      (keys : List Bytes) (s t : State hasher index texts)
      → SameServed s t
      → Agree (erased keys s) (each hasher index texts (answer_del hasher index texts) keys t)
  unfolding each
  erased-each [] s t same =
      unfold erased del_all deletions_of in record { state = same; writes = refl }
  erased-each (k ∷ keys) s t same = rw (erased-cons s k keys) (
      and_then-Agree (erased keys) (each hasher index texts (answer_del hasher index texts) keys)
        (erased_one s k) (answer_del hasher index texts t k) (erased_one-Agree s t k same)
        (erased-each keys))

  pub run_dels-each :
      (s t : State hasher index texts) (keys : List Bytes)
      → SameServed s t
      → Agree
          (run_dels hasher index texts s keys)
          (each hasher index texts (answer_del hasher index texts) keys t)
  unfolding run_dels del_values del_many
  run_dels-each s t [] same =
      unfold each deletions_of in
      record {
        state = record { shards = same.shards; next = same.next; refused = same.refused };
        writes = refl;
      }
  run_dels-each s t (k ∷ keys) same =
      let a = unfold_erased (erased-each (k ∷ keys) s t same) in
      record {
        state = record {
          shards =
              SameShards-trans hasher index _ _ _
                (count_at-SameShards hasher index ((del_all hasher index s.cache (k ∷ keys)).0) _ _)
                a.state.shards;
          next = a.state.next;
          refused = a.state.refused;
        };
        writes = a.writes;
      }
    where
      unfold_erased :
          Agree
            (erased (k ∷ keys) s)
            (each hasher index texts (answer_del hasher index texts) (k ∷ keys) t)
          → Agree
              (
                record s { cache = (del_all hasher index s.cache (k ∷ keys)).0 },
                deletions_of hasher index texts (del_all hasher index s.cache (k ∷ keys)).1,
              )
              (each hasher index texts (answer_del hasher index texts) (k ∷ keys) t)
      unfold_erased a = unfold erased in a
