-- ===== src/Series/Rereading.antt =====
-- The end of `SeriesDelRange`, which reads the last timestamp and value again.
use mathlib.Core.Path.{subst}
use redis_time_series.Common.{
  ℕ, suc, ◌≤◌, ◌≡◌, inl, inr, refl, sym, ap, ◌∙◌, false, ◌&&◌, if◌then◌else◌, Bool-cases, if_both,
  Option, none, some, List, [], ◌∷◌, leb, ◌==◌, length, ne→==, arith,
}
use redis_time_series.Generic.{Sample}
use redis_time_series.Ranges.{last_sample, outside}
use redis_time_series.Chunks.{ChunkFuncs, ChunkLaws}
use redis_time_series.Dictionary.{Dictionary, DictionaryLaws}
use redis_time_series.Dictionary.Entries.{LastIs, last_in}
use redis_time_series.Series.{Series, reread_last}
use redis_time_series.Series.Rows.{flat, Apart}
use redis_time_series.Series.Stored.{
  Stored, Rowed, LastOf, last_held, last_sample-append, LastOf-outside,
}

still :
    (a b : ℕ) (ys : List Sample) (t v : ℕ)
    → LastOf ys t v
    → (leb t b && leb a t) ≡ false
    → LastOf (outside a b ys) t v
still a b [] t v h left = h
still a b (x ∷ xs) t v h left =
    let last = last_sample x xs in
    let e : (leb last.timestamp b && leb a last.timestamp) ≡ false =
      subst (λ n. (leb n b && leb a n) ≡ false) h.0 left in
    LastOf-outside a b x xs t v h (ground (arith, e))

module _ (f : ChunkFuncs) (d : Dictionary) (size : ℕ) (L : ChunkLaws f size)
    (D : DictionaryLaws d) where
  -- Reading the last timestamp again gives that of the last sample that is left.
  reread_last-LastOf :
      (s : Series f.Chunk d.Dict) (es : List (ℕ × ℕ)) (segs : List (List Sample))
      → D.entries s.chunks ≡ es
      → Rowed L.Holds s.memory es segs
      → LastIs s.last_chunk es
      → LastOf
          (flat segs)
          (reread_last f d s (d.last s.chunks)).last_timestamp
          (reread_last f d s (d.last s.chunks)).last_value
  unfolding reread_last
  reread_last-LastOf s es segs e (inl (none_left, p, one, held)) last =
      rw
        (
          D.last_lem s.chunks ∙ ap last_in (e ∙ one),
          L.num_of_sample (s.memory p) [] held,
          none_left,
        )
        (refl, refl)
  reread_last-LastOf s es segs e (inr (row, pos)) last =
      let (x, xs, init, held, shape) = last_held L.Holds s.memory 0 es segs s.last_chunk row last in
      let c = s.memory s.last_chunk in
      rw
        (
          D.last_lem s.chunks ∙ ap last_in e ∙ last.1,
          L.num_of_sample c (x ∷ xs) held,
          ne→== (suc (length xs)) 0 (omega arith),
          shape,
        )
        (last_sample-append init x xs (f.get_last_timestamp c) (f.get_last_value c)
          (L.last_timestamp c x xs held, L.last_value c x xs held))

  reread_last-shape :
      (s : Series f.Chunk d.Dict) (e : Option (ℕ × ℕ))
      → reread_last f d s e ≡ record s {
        last_timestamp = (reread_last f d s e).last_timestamp;
        last_value = (reread_last f d s e).last_value;
      }
  unfolding reread_last
  reread_last-shape s none = refl
  reread_last-shape s (some (key, p)) = elim (Bool-cases (f.get_num_of_sample (s.memory p) == 0)) [
    | inl empty ↦ rw empty refl
    | inr full ↦ rw full refl
  ]

  -- All but the last timestamp and value.
  module _ (s : Series f.Chunk d.Dict) (xs : List Sample) (es : List (ℕ × ℕ))
      (segs : List (List Sample)) (now : D.entries s.chunks ≡ es)
      (rowed : Rowed L.Holds s.memory es segs) (samples : flat segs ≡ xs)
      (last : LastIs s.last_chunk es) (unused : (q : ℕ) → s.fresh ≤ q → Apart q es)
      (sized : s.chunk_size_bytes ≡ size) (total : s.total_samples ≡ length xs) where
    stored :
        (t v : ℕ)
        → LastOf xs t v
        → Stored f d size D L.Holds (record s { last_timestamp = t; last_value = v }) xs
    stored t v newest = record {
      es = es;
      segs = segs;
      entries_are = now;
      rowed = rowed;
      samples = samples;
      last_is = last;
      unused = unused;
      sized = sized;
      total = total;
      newest = newest;
    }

    reread_last-Stored : Stored f d size D L.Holds (reread_last f d s (d.last s.chunks)) xs
    reread_last-Stored =
        subst (λ r. Stored f d size D L.Holds r xs) (sym (reread_last-shape s (d.last s.chunks)))
          (stored (reread_last f d s (d.last s.chunks)).last_timestamp
            (reread_last f d s (d.last s.chunks)).last_value
            (subst
              (λ t.
                LastOf t (reread_last f d s (d.last s.chunks)).last_timestamp
                  (reread_last f d s (d.last s.chunks)).last_value)
              samples (reread_last-LastOf s es segs now rowed last)))

    -- The last sample is read again if it was in the range, and else it is still there.
    pub ending-Stored :
        (a b : ℕ) (ys : List Sample)
        → LastOf ys s.last_timestamp s.last_value
        → xs ≡ outside a b ys
        → Stored f d size D L.Holds
            (if leb s.last_timestamp b && leb a s.last_timestamp
              then reread_last f d s (d.last s.chunks)
              else s)
            xs
    ending-Stored a b ys newest e =
        if_both (λ r. Stored f d size D L.Holds r xs)
          (leb s.last_timestamp b && leb a s.last_timestamp) (λ covered. reread_last-Stored)
          (λ left. stored s.last_timestamp s.last_value (
            subst (λ t. LastOf t s.last_timestamp s.last_value) (sym e)
              (still a b ys s.last_timestamp s.last_value newest left)))
