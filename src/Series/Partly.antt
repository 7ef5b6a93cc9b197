-- ===== src/Series/Partly.antt =====
-- A round of the loop of `SeriesDelRange` that deletes some samples of a chunk.
use mathlib.Core.Path.{subst}
use redis_time_series.Common.{
  ℕ, suc, ◌+◌, ◌≤◌, ◌<◌, ◌≡◌, ◌⊎◌, inl, inr, refl, sym, ap, ◌∙◌, Bool-cases, Option, none, some,
  List, [], ◌∷◌, ◌++◌, ◌==◌, ==_iff, length, length-append, add64, arith,
}
use redis_time_series.Generic.{Sample}
use redis_time_series.Ranges.{last_sample, outside, AtLeast, AtMost, AtLeast-trans}
use redis_time_series.Chunks.{ChunkFuncs, ChunkLaws}
use redis_time_series.Dictionary.{Dictionary, DictionaryLaws}
use redis_time_series.Dictionary.Entries.{above, KeysBelow, KeysAbove, KeysBelow-trans, LastIs}
use redis_time_series.Series.{
  Series, going, update, purge_chunk, del_entry, del_loop, update_chunk_in_dict,
}
use redis_time_series.Series.Rows.{
  flat, Row-nil, Row-KeysAbove, key-le, update_other, AtMost-ascending,
}
use redis_time_series.Series.Outside.{AtLeast-outside, AtMost-outside}
use redis_time_series.Series.Rounds.{
  purge_chunk-same, purge_chunk-moved, del_loop-going, del_loop-end,
}
use redis_time_series.Series.Purging.{Ready, Purged, purged, emptied_lem}
use redis_time_series.Series.Loop.{
  Going, next_entry, go_on, key_low, keys_before, update_chunk_in_dict-entries, true-false,
}

first_part_nil :
    {pre : List (ℕ × ℕ)} {kept : ℕ}
    → ((pre ≡ []) × (kept ≡ 0)) ⊎ ((0 < kept) × (0 < length pre))
    → kept ≡ 0
    → pre ≡ []
first_part_nil (inl e) z = e.0
first_part_nil (inr lt) z = absurd (omega (arith, lt.0, z))

pub last_of_one : {p q k : ℕ} → LastIs q ((k, p) ∷ []) → q ≡ p
last_of_one (j, e) = cc

not_above : (k p : ℕ) → above k ((0, p) ∷ []) ≡ none
not_above k p = ground arith

module _ (f : ChunkFuncs) (d : Dictionary) (size : ℕ) (L : ChunkLaws f size) (D : DictionaryLaws d)
    (a b : ℕ) where
  -- What the loop does with this much fuel.
  abbrev pub Rest : ℕ → List (ℕ × ℕ) → List (List Sample) → Type 0
  Rest fuel es segs =
      (s : Series f.Chunk d.Dict) (pre : List (ℕ × ℕ)) (at : Option ℕ) (bound deleted kept : ℕ)
      → Going f d size L D a b s pre es segs at bound deleted kept
      → Purged f d size L D a b s pre es segs bound deleted (del_loop f d fuel a b s at deleted)

  module _ (s : Series f.Chunk d.Dict) (pre es : List (ℕ × ℕ)) (k p : ℕ) (x : Sample)
      (xs : List Sample) (segs : List (List Sample)) (at : Option ℕ) (bound deleted kept fuel : ℕ)
      (h : Going f d size L D a b s pre ((k, p) ∷ es) ((x ∷ xs) ∷ segs) at bound deleted kept)
      (rest : Rest fuel es segs) where
    abbrev pub Outcome : Option (Series f.Chunk d.Dict × ℕ) → Type 0
    Outcome result =
        Purged f d size L D a b s pre ((k, p) ∷ es) ((x ∷ xs) ∷ segs) bound deleted result

    pub next : d.next s.chunks at ≡ some (k, p)
    next = next_entry f d size L D a b s pre ((k, p) ∷ es) ((x ∷ xs) ∷ segs) at bound deleted kept h

    -- The chunk is `c` now, with the samples from `y` on, and has the key `k'`.
    rekeyed :
        (c : f.Chunk) (chunks : d.Dict) (k' deleted' : ℕ) (y : Sample) (ys : List Sample)
        → outside a b (x ∷ xs) ≡ y ∷ ys
        → L.Holds c (y ∷ ys)
        → deleted' + length (y ∷ ys) ≡ deleted + suc (length xs)
        → D.entries chunks ≡ pre ++ ((k', p) ∷ es)
        → KeysBelow k' pre
        → bound ≤ k'
        → k' < (last_sample x xs).timestamp + 1
        → (k' ≡ y.timestamp) ⊎ (k' ≡ 0)
        → del_entry f d a b s deleted (some (k, p))
          ≡ some (going (record s { memory = update s.memory p c; chunks = chunks }) k' deleted')
        → Outcome (del_loop f d (suc fuel) a b s at deleted)
    rekeyed c chunks k' deleted' y ys left held count now below low high key round =
        let s' = record s { memory = update s.memory p c; chunks = chunks } in
        rw (del_loop-going f d fuel a b s at deleted (some (k, p)) next s' k' deleted' round) (
          purged f d size L D a b s pre es k p x xs segs bound deleted h.row c chunks
            (del_loop f d fuel a b s' (some k') deleted') k' deleted' y ys left held low key count
            (rest s' (pre ++ ((k', p) ∷ [])) (some k') ((last_sample x xs).timestamp + 1) deleted'
              (kept + length (y ∷ ys))
              (go_on f d size L D a b s pre es k p x xs segs at bound deleted kept h s' k' deleted'
                (length (y ∷ ys)) now (update_other s.memory p c) below high refl refl (omega arith)
                count)))

    module _ (n : ℕ) (c : f.Chunk) (result : f.del_range (s.memory p) a b ≡ some (n, c))
        (part : del_entry f d a b s deleted (some (k, p)) ≡ purge_chunk f d a b s k p deleted) where
      first : f.get_first_timestamp (s.memory p) ≡ x.timestamp
      first = L.first_timestamp (s.memory p) x xs h.row.3.0

      -- The chunk keeps the samples from `y` on.
      pub left_some :
          (y : Sample) (ys : List Sample)
          → outside a b (x ∷ xs) ≡ y ∷ ys
          → L.Holds c (y ∷ ys)
          → n + length (y ∷ ys) ≡ length (x ∷ xs)
          → Outcome (del_loop f d (suc fuel) a b s at deleted)
      left_some y ys left held sum =
          let first' = L.first_timestamp c y ys held in
          let z = (last_sample x xs).timestamp in
          let later : x.timestamp ≤ y.timestamp =
            (subst (AtLeast x.timestamp) left (
              AtLeast-outside x.timestamp a b (x ∷ xs) (
                omega arith,
                AtLeast-trans x.timestamp (x.timestamp + 1) xs (omega arith) h.row.2.0,
              ))).0 in
          let early : y.timestamp ≤ z =
            (subst (AtMost z) left
              (AtMost-outside z a b (x ∷ xs) (AtMost-ascending x xs h.row.2))).0 in
          let count : add64 deleted n + length (y ∷ ys) ≡ deleted + suc (length xs) =
            omega (arith, sum, h.total, h.small, length-append {0} (x ∷ xs) (flat segs)) in
          let below = keys_before f d size L D a b s pre es k p x xs segs at bound deleted kept h in
          let key = key-le k x.timestamp h.row.1 in
          elim (Bool-cases (y.timestamp == x.timestamp)) [
            | inl same ↦
                let e = (==_iff y.timestamp x.timestamp).0 same in
                rekeyed c s.chunks k (add64 deleted n) y ys left held count h.entries_now below
                  h.row.0 (key_low f d size L D a b s pre es k p x xs segs at bound deleted kept h)
                  (subst (λ t. (k ≡ t) ⊎ (k ≡ 0)) (sym e) h.row.1)
                  (part
                    ∙ purge_chunk-same f d a b s deleted k p n x.timestamp c result first
                        (first' ∙ e))
            | inr moved ↦
                let behind : (j : ℕ) → j ≤ z → KeysAbove j es = (λ j le.
                  Row-KeysAbove (Ready f d size L D a b) s.memory j (z + 1) es segs h.row.5
                    (omega (arith, le))) in
                rekeyed c (update_chunk_in_dict f d s.chunks p x.timestamp y.timestamp) y.timestamp
                  (add64 deleted n) y ys left held count
                  (update_chunk_in_dict-entries f d D s.chunks pre es k p x.timestamp y.timestamp
                    h.entries_now below (KeysBelow-trans k y.timestamp pre (omega arith) below)
                    (behind x.timestamp (omega arith)) (behind y.timestamp early) h.row.1)
                  (KeysBelow-trans k y.timestamp pre (omega arith) below) (omega (arith, h.row.0))
                  (omega arith) (inl refl)
                  (part
                    ∙ purge_chunk-moved f d a b s deleted k p n x.timestamp c result first
                        y.timestamp first'
                        (λ e. true-false (sym ((==_iff y.timestamp x.timestamp).1 e) ∙ moved)))
          ]

      -- The chunk keeps nothing. It is the only one.
      pub left_none :
          outside a b (x ∷ xs) ≡ []
          → L.Holds c []
          → n ≡ length (x ∷ xs)
          → kept ≡ 0
          → flat segs ≡ []
          → 0 < fuel
          → Outcome (del_loop f d (suc fuel) a b s at deleted)
      left_none left held sum none_kept no_more fuelled =
          let first' = L.first_timestamp_empty c held in
          let none_before = first_part_nil h.first_part none_kept in
          let none_behind =
            Row-nil (Ready f d size L D a b) s.memory ((last_sample x xs).timestamp + 1) es segs
              h.row.5 no_more in
          let alone : D.entries s.chunks ≡ (k, p) ∷ [] =
            h.entries_now
            ∙ ap (λ t. t ++ ((k, p) ∷ es)) none_before
            ∙ ap (◌∷◌ (k, p)) none_behind in
          let is_last : s.last_chunk ≡ p =
            last_of_one (subst (LastIs s.last_chunk) (sym h.entries_now ∙ alone) h.last_is) in
          let count : add64 deleted n ≡ deleted + suc (length xs) =
            omega (arith, sum, h.total, h.small, length-append {0} (x ∷ xs) (flat segs)) in
          let finish : (chunks : d.Dict) (k' : ℕ)
              → D.entries chunks ≡ (0, p) ∷ []
              → del_entry f d a b s deleted (some (k, p))
                ≡ some (
                    going (record s { memory = update s.memory p c; chunks = chunks }) k'
                      (add64 deleted n))
              → Outcome (del_loop f d (suc fuel) a b s at deleted) =
            (λ chunks k' now round.
              let s' = record s { memory = update s.memory p c; chunks = chunks } in
              rw
                (
                  del_loop-going f d fuel a b s at deleted (some (k, p)) next s' k'
                      (add64 deleted n) round,
                  del_loop-end f d fuel a b s' (some k') (add64 deleted n) fuelled
                      (D.next_lem chunks (some k') ∙ ap (above k') now ∙ not_above k' p),
                )
                (emptied_lem f d size L D a b s pre es k p x xs segs bound deleted h.row c chunks
                  (add64 deleted n) none_before none_behind no_more left held now is_last count)) in
          elim (Bool-cases (0 == x.timestamp)) [
            | inl same ↦
                let e = (==_iff 0 x.timestamp).0 same in
                let k_zero : k ≡ 0 = omega (arith, key-le k x.timestamp h.row.1, e) in
                finish s.chunks k (alone ∙ ap (λ t. (t, p) ∷ []) k_zero) (
                  part
                  ∙ purge_chunk-same f d a b s deleted k p n x.timestamp c result first
                      (first' ∙ e))
            | inr moved ↦
                let k_below =
                  keys_before f d size L D a b s pre es k p x xs segs at bound deleted kept h in
                finish (update_chunk_in_dict f d s.chunks p x.timestamp 0) 0
                  (update_chunk_in_dict-entries f d D s.chunks [] [] k p x.timestamp 0 alone tt tt
                    tt tt h.row.1)
                  (part
                    ∙ purge_chunk-moved f d a b s deleted k p n x.timestamp c result first 0 first'
                        (λ e. true-false (sym ((==_iff 0 x.timestamp).1 e) ∙ moved)))
          ]
