-- ===== src/Series/Deletion.antt =====
-- `SeriesDelRange` against the list of samples.
use mathlib.Core.Path.{subst}
use redis_time_series.Common.{
  ℕ, zero, suc, ◌+◌, ◌^◌, ◌≤◌, ◌<◌, ◌≡◌, inl, inr, refl, sym, ap, ◌∙◌, ◌&&◌, if◌then◌else◌, Option,
  none, some, List, [], ◌∷◌, leb, length, sub64, arith,
}
use redis_time_series.Generic.{Sample}
use redis_time_series.Ranges.{outside}
use redis_time_series.Chunks.{ChunkFuncs, ChunkLaws}
use redis_time_series.Dictionary.{Dictionary, DictionaryLaws}
use redis_time_series.Dictionary.Entries.{LastIs-pos, head_of, LastIs}
use redis_time_series.Series.{Series, del_loop, reread_last, series_del_range}
use redis_time_series.Series.Rows.{flat, Row, Apart}
use redis_time_series.Series.Rounds.{del_loop-halted, del_entry-empty}
use redis_time_series.Series.Purging.{Ready}
use redis_time_series.Series.Loop.{Going}
use redis_time_series.Series.Deleting.{del_loop-Purged}
use redis_time_series.Series.Stored.{Stored, Rowed, LastOf}
use redis_time_series.Series.Rereading.{ending-Stored}

module _ (f : ChunkFuncs) (d : Dictionary) (size : ℕ) (L : ChunkLaws f size)
    (D : DictionaryLaws d) where
  -- The result: the count of the samples that are gone, and a series that stores the others.
  pub record DeletedRange (xs : List Sample) (a b : ℕ) (result : Option (Series f.Chunk d.Dict × ℕ))
      : Type 0 where
    pub series : Series f.Chunk d.Dict
    pub deleted : ℕ
    pub returned : result ≡ some (series, deleted)
    pub all : deleted + length (outside a b xs) ≡ length xs
    pub left : Stored f d size D L.Holds series (outside a b xs)

  -- What follows the loop.
  abbrev ending : ℕ → ℕ → Series f.Chunk d.Dict → ℕ → Series f.Chunk d.Dict
  ending a b s deleted =
      let s2 = record s { total_samples = sub64 s.total_samples deleted } in
      if leb s2.last_timestamp b && leb a s2.last_timestamp
      then reread_last f d s2 (d.last s2.chunks)
      else s2

  after_loop :
      (s t : Series f.Chunk d.Dict) (xs : List Sample) (es : List (ℕ × ℕ))
      (segs : List (List Sample)) (a b gone : ℕ)
      → t ≡ record s { chunks = t.chunks; last_chunk = t.last_chunk; memory = t.memory }
      → D.entries t.chunks ≡ es
      → Rowed L.Holds t.memory es segs
      → flat segs ≡ outside a b xs
      → LastIs t.last_chunk es
      → ((q : ℕ) → s.fresh ≤ q → Apart q es)
      → s.chunk_size_bytes ≡ size
      → s.total_samples ≡ length xs
      → length xs < 2 ^ 64
      → gone + length (flat segs) ≡ length xs
      → LastOf xs s.last_timestamp s.last_value
      → Stored f d size D L.Holds (ending a b t gone) (outside a b xs)
  after_loop s t xs es segs a b gone shape now rowed samples last unused sized total small count
        newest =
      let same_fresh = ap (λ (r : Series f.Chunk d.Dict). r.fresh) shape in
      let same_total = ap (λ (r : Series f.Chunk d.Dict). r.total_samples) shape in
      let same_size = ap (λ (r : Series f.Chunk d.Dict). r.chunk_size_bytes) shape in
      let same_time = ap (λ (r : Series f.Chunk d.Dict). r.last_timestamp) shape in
      let same_value = ap (λ (r : Series f.Chunk d.Dict). r.last_value) shape in
      ending-Stored f d size L D (record t { total_samples = sub64 t.total_samples gone })
        (outside a b xs) es segs now rowed samples last
        (λ q le. unused q (omega (arith, same_fresh, le))) (same_size ∙ sized)
        (omega (arith, same_total, total, small, count, ap length samples)) a b xs
        (subst (λ v. LastOf xs t.last_timestamp v) (sym same_value)
          (subst (λ n. LastOf xs n s.last_value) (sym same_time) newest))
        refl

  -- The loop's outcome.
  record Looped (s : Series f.Chunk d.Dict) (xs : List Sample) (a b : ℕ)
      (result : Option (Series f.Chunk d.Dict × ℕ)) : Type 0 where
    final : Series f.Chunk d.Dict
    gone : ℕ
    post : List (ℕ × ℕ)
    kept : List (List Sample)
    ended : result ≡ some (final, gone)
    shape :
        final
        ≡ record s { chunks = final.chunks; last_chunk = final.last_chunk; memory = final.memory }
    now : D.entries final.chunks ≡ post
    rowed : Rowed L.Holds final.memory post kept
    samples : flat kept ≡ outside a b xs
    counted : gone + length (flat kept) ≡ length xs
    unused : (q : ℕ) → s.fresh ≤ q → Apart q post
    last_is : LastIs final.last_chunk post

  Looped-empty :
      (s : Series f.Chunk d.Dict) (xs : List Sample) (a b fuel p : ℕ)
      (h : Stored f d size D (Ready f d size L D a b) s xs)
      → flat h.segs ≡ []
      → h.es ≡ (0, p) ∷ []
      → L.Holds (s.memory p) []
      → Looped s xs a b (del_loop f d (suc fuel) a b s none 0)
  Looped-empty s xs a b fuel p h none_stored one held =
      let nil : xs ≡ [] = sym h.samples ∙ none_stored in
      record {
        final = s;
        gone = 0;
        post = h.es;
        kept = h.segs;
        ended =
            del_loop-halted f d fuel a b s none 0 (some (0, p))
              (D.next_lem s.chunks none ∙ ap head_of (h.entries_are ∙ one)) s 0
              (del_entry-empty f d a b s 0 0 p (L.num_of_sample (s.memory p) [] held));
        shape = refl;
        now = h.entries_are;
        rowed = inl (none_stored, p, one, held);
        samples = none_stored ∙ ap (outside a b) (sym nil);
        counted = omega (arith, ap length h.samples);
        unused = h.unused;
        last_is = h.last_is;
      }

  Looped-Row :
      (s : Series f.Chunk d.Dict) (xs : List Sample) (a b fuel : ℕ)
      (h : Stored f d size D (Ready f d size L D a b) s xs)
      → Row (Ready f d size L D a b) s.memory 0 h.es h.segs
      → length xs < 2 ^ 64
      → length h.es < fuel
      → Looped s xs a b (del_loop f d fuel a b s none 0)
  Looped-Row s xs a b fuel h row small enough =
      let begin : Going f d size L D a b s [] h.es h.segs none 0 0 0 = record {
        entries_now = h.entries_are;
        row = row;
        position = refl;
        total = omega (arith, h.total, ap length h.samples);
        small = omega (arith, h.total, small);
        first_part = inl (refl, refl);
        last_is = h.last_is;
      } in
      let r = del_loop-Purged f d size L D a b fuel h.es h.segs enough s [] none 0 0 0 begin in
      record {
        final = r.final;
        gone = r.gone;
        post = r.post;
        kept = r.kept;
        ended = r.returned;
        shape = r.shape;
        now = r.entries_final;
        rowed = elim r.row [
          | inl rest ↦ inr (rest, LastIs-pos r.final.last_chunk r.post r.last_is)
          | inr emptied ↦ inl (emptied.1, emptied.2, emptied.3, emptied.4)
        ];
        samples = r.samples ∙ ap (outside a b) h.samples;
        counted = omega (arith, r.counted, ap length h.samples);
        unused = λ q le. r.apart q (h.unused q le);
        last_is = r.last_is;
      }

  looped :
      (s : Series f.Chunk d.Dict) (xs : List Sample) (a b fuel : ℕ)
      (h : Stored f d size D (Ready f d size L D a b) s xs)
      → length xs < 2 ^ 64
      → length h.es < fuel
      → Looped s xs a b (del_loop f d fuel a b s none 0)
  looped s xs a b zero h small enough = absurd (omega arith)
  looped s xs a b (suc fuel) h small enough = elim h.rowed [
    | inl empty ↦ Looped-empty s xs a b fuel empty.1 h empty.0 empty.2 empty.3.0
    | inr rows ↦ Looped-Row s xs a b (suc fuel) h rows.0 small enough
  ]

  -- For a series that stores ascending samples, and whose chunks have the memory that a deletion may
  -- need: with more rounds than it has chunks the loop of `SeriesDelRange` ends, no assertion fails,
  -- the result is the number of the samples in the range, and the series stores the others, with the
  -- right last sample and last chunk.
  pub series_del_range-DeletedRange :
      (s : Series f.Chunk d.Dict) (xs : List Sample) (a b fuel : ℕ)
      (h : Stored f d size D (Ready f d size L D a b) s xs)
      → length xs < 2 ^ 64
      → length h.es < fuel
      → DeletedRange xs a b (series_del_range f d fuel s a b)
  unfolding series_del_range
  series_del_range-DeletedRange s xs a b fuel h small enough =
      let r = looped s xs a b fuel h small enough in
      record {
        series = ending a b r.final r.gone;
        deleted = r.gone;
        returned = rw r.ended refl;
        all = omega (arith, r.counted, ap length r.samples);
        left =
            after_loop s r.final xs r.post r.kept a b r.gone r.shape r.now r.rowed r.samples
              r.last_is r.unused h.sized h.total small r.counted h.newest;
      }
