-- ===== src/Series/Rounds.antt =====
-- The branches of one round of the loop of `SeriesDelRange`.
use redis_time_series.Common.{
  ne→==, ==_refl, arith, ◌≢◌, Option, none, ℕ, zero, suc, ◌≤◌, ◌<◌, ◌≡◌, refl, true, false, not,
  ◌&&◌, some, ◌==◌, leb, lt→ltb, le→ltb, add64,
}
use redis_time_series.Chunks.{ChunkFuncs}
use redis_time_series.Dictionary.{Dictionary}
use redis_time_series.Series.{
  Series, halted, going, update, update_chunk_in_dict, del_entry, del_loop, drop_chunk, purge_chunk,
}

pub del_entry-empty :
    (f : ChunkFuncs) (d : Dictionary) (a b : ℕ) (s : Series f.Chunk d.Dict) (deleted k p : ℕ)
    → f.get_num_of_sample (s.memory p) ≡ 0
    → del_entry f d a b s deleted (some (k, p)) ≡ some (halted s deleted)
unfolding del_entry
del_entry-empty f d a b s deleted k p none_stored = rw none_stored refl

module _ (f : ChunkFuncs) (d : Dictionary) (a b : ℕ) (s : Series f.Chunk d.Dict) (deleted k p : ℕ)
    (n x z : ℕ) (count : f.get_num_of_sample (s.memory p) ≡ suc n)
    (first : f.get_first_timestamp (s.memory p) ≡ x)
    (last : f.get_last_timestamp (s.memory p) ≡ z) where
  pub del_entry-later : b < x → del_entry f d a b s deleted (some (k, p)) ≡ some (halted s deleted)
  unfolding del_entry
  del_entry-later h = rw (count, first, ne→== (suc n) 0 (omega arith), lt→ltb b x h) refl

  pub del_entry-earlier :
      x ≤ b → z < a → del_entry f d a b s deleted (some (k, p)) ≡ some (going s k deleted)
  unfolding del_entry
  del_entry-earlier h g =
      rw (count, first, ne→== (suc n) 0 (omega arith), last, le→ltb b x h, lt→ltb z a g) refl

  pub del_entry-whole :
      x ≤ b
      → a ≤ z
      → (leb a x && leb z b && not (add64 (suc n) deleted == s.total_samples)) ≡ true
      → del_entry f d a b s deleted (some (k, p))
        ≡ some (going (drop_chunk f d s k p) k (add64 deleted (suc n)))
  unfolding del_entry
  del_entry-whole h g whole =
      rw (count, first, ne→== (suc n) 0 (omega arith), last, le→ltb b x h, le→ltb z a g, whole) refl

  pub del_entry-part :
      x ≤ b
      → a ≤ z
      → (leb a x && leb z b && not (add64 (suc n) deleted == s.total_samples)) ≡ false
      → del_entry f d a b s deleted (some (k, p)) ≡ purge_chunk f d a b s k p deleted
  unfolding del_entry
  del_entry-part h g part =
      rw (count, first, ne→== (suc n) 0 (omega arith), last, le→ltb b x h, le→ltb z a g, part) refl

module _ (f : ChunkFuncs) (d : Dictionary) (a b : ℕ) (s : Series f.Chunk d.Dict)
    (deleted k p n x : ℕ) (c : f.Chunk) (left : f.del_range (s.memory p) a b ≡ some (n, c))
    (first : f.get_first_timestamp (s.memory p) ≡ x) where
  pub purge_chunk-same :
      f.get_first_timestamp c ≡ x
      → purge_chunk f d a b s k p deleted
        ≡ some (going (record s { memory = update s.memory p c }) k (add64 deleted n))
  unfolding purge_chunk
  purge_chunk-same e = rw (left, first, e, ==_refl x) refl

  pub purge_chunk-moved :
      (y : ℕ)
      → f.get_first_timestamp c ≡ y
      → y ≢ x
      → purge_chunk f d a b s k p deleted
        ≡ some (
            going
              (record s {
                memory = update s.memory p c;
                chunks = update_chunk_in_dict f d s.chunks p x y;
              })
              y
              (add64 deleted n))
  unfolding purge_chunk
  purge_chunk-moved y e ne = rw (left, first, e, ne→== y x ne) refl

module _ (f : ChunkFuncs) (d : Dictionary) (fuel a b : ℕ) (s : Series f.Chunk d.Dict)
    (at : Option ℕ) (deleted : ℕ) (e : Option (ℕ × ℕ)) (next : d.next s.chunks at ≡ e) where
  pub del_loop-halted :
      (s' : Series f.Chunk d.Dict) (n : ℕ)
      → del_entry f d a b s deleted e ≡ some (halted s' n)
      → del_loop f d (suc fuel) a b s at deleted ≡ some (s', n)
  unfolding del_loop
  del_loop-halted s' n round = rw (next, round) refl

  pub del_loop-going :
      (s' : Series f.Chunk d.Dict) (key n : ℕ)
      → del_entry f d a b s deleted e ≡ some (going s' key n)
      → del_loop f d (suc fuel) a b s at deleted ≡ del_loop f d fuel a b s' (some key) n
  unfolding del_loop
  del_loop-going s' key n round = rw (next, round) refl

-- At the end of the dictionary the loop stops.
pub del_loop-end :
    (f : ChunkFuncs) (d : Dictionary) (fuel a b : ℕ) (s : Series f.Chunk d.Dict) (at : Option ℕ)
    (deleted : ℕ)
    → 0 < fuel
    → d.next s.chunks at ≡ none
    → del_loop f d fuel a b s at deleted ≡ some (s, deleted)
unfolding del_entry
del_loop-end f d zero a b s at deleted lt e = absurd (omega arith)
del_loop-end f d (suc fuel) a b s at deleted lt e =
    del_loop-halted f d fuel a b s at deleted none e s deleted refl
