-- ===== src/Series/Finding.antt =====
-- Which chunk `SeriesUpsertSample` chooses.
use mathlib.Core.Path.{subst}
use redis_time_series.Ranges.{last_sample}
use redis_time_series.Common.{
  ℕ, ◌+◌, ◌≤◌, ◌≡◌, ◌⊎◌, inl, inr, refl, ap, ◌∙◌, true, false, ◌&&◌, Bool-cases, Option, none, some,
  List, [], ◌∷◌, ◌++◌, ltb, if◌then◌else◌, ltb→lt, ltb→le, length, length-append, arith,
}
use redis_time_series.Generic.{Sample}
use redis_time_series.Chunks.{ChunkFuncs, ChunkLaws}
use redis_time_series.Dictionary.{Dictionary, DictionaryLaws}
use redis_time_series.Dictionary.Entries.{at_most_in, last_in, head_of, KeysAbove, LastIs}
use redis_time_series.Series.{Series}
use redis_time_series.Series.Rows.{Row, key-le}
use redis_time_series.Series.Upsert.{Target, find_target, or_entry}

-- The entry `e` is not above `k`, and those behind it are.
pub record Chosen (k : ℕ) (e : ℕ × ℕ) (es : List (ℕ × ℕ)) : Type 0 where
  pub pre : List (ℕ × ℕ)
  pub post : List (ℕ × ℕ)
  pub parts : es ≡ pre ++ (e ∷ post)
  pub le : e.0 ≤ k
  pub behind : KeysAbove k post

-- The result of the search for the last entry that is not above `k`.
abbrev pub Searched : ℕ → List (ℕ × ℕ) → Option (ℕ × ℕ) → Type 0
Searched k es none = KeysAbove k es
Searched k es (some e) = Chosen k e es

pub at_most_in-Searched : (k : ℕ) (es : List (ℕ × ℕ)) → Searched k es (at_most_in k es)
at_most_in-Searched k [] = tt
at_most_in-Searched k (e ∷ es) = further (at_most_in k es) (at_most_in-Searched k es)
  where
    further :
        (r : Option (ℕ × ℕ))
        → Searched k es r
        → Searched k
            (e ∷ es)
            (elim r [ some found ↦ some found | none ↦ if ltb k e.0 then none else some e ])
    further (some found) c = record {
      pre = e ∷ c.pre;
      post = c.post;
      parts = ap (◌∷◌ e) c.parts;
      le = c.le;
      behind = c.behind;
    }
    further none above = elim (Bool-cases (ltb k e.0)) [
      | inl less ↦ rw less (ltb→lt k e.0 less, above)
      | inr more ↦
          rw more
            record { pre = []; post = es; parts = refl; le = ltb→le k e.0 more; behind = above }
    ]

-- Where the last entry is, as the search leaves it.
one_place : (e : ℕ × ℕ) (p k : ℕ) → last_in (e ∷ []) ≡ some (k, p) → (e ∷ []) ≡ (k, p) ∷ []
one_place e p k h = cc

-- The key of an entry of a row is not newer than its chunk.
row_entry :
    {C : Type 0} (P : C → List Sample → Type 0) (memory : ℕ → C) (bound k p : ℕ)
    (pre post : List (ℕ × ℕ)) (segs : List (List Sample))
    → Row P memory bound (pre ++ ((k, p) ∷ post)) segs
    → (x : Sample) × (xs : List Sample) × P (memory p) (x ∷ xs) × (k ≤ x.timestamp)
row_entry P memory bound k p [] post [] h = absurd h
row_entry P memory bound k p [] post ([] ∷ segs) h = absurd h
row_entry P memory bound k p [] post ((x ∷ xs) ∷ segs) h = (x, xs, h.3, key-le k x.timestamp h.1)
row_entry P memory bound k p (e ∷ pre) post [] h = absurd h
row_entry P memory bound k p (e ∷ pre) post ([] ∷ segs) h = absurd h
row_entry P memory bound k p (e ∷ pre) post ((x ∷ xs) ∷ segs) h =
    row_entry P memory ((last_sample x xs).timestamp + 1) k p pre post segs h.5

nothing_before : (pre : List (ℕ × ℕ)) → length pre ≡ 0 → pre ≡ []
nothing_before [] h = refl
nothing_before (e ∷ pre) h = absurd (omega arith)

no_entry : (p : ℕ) → LastIs p [] → ⊥
no_entry p (k, e) = cc

one_chunk : (t x n : ℕ) → ltb t x ≡ true → (ltb t x && ltb 1 n) ≡ false → n ≤ 1
one_chunk t x n less test = ground (arith, less)

last_place :
    (p : ℕ) (es : List (ℕ × ℕ))
    → LastIs p es
    → (pre : List (ℕ × ℕ)) × (k : ℕ) × (es ≡ pre ++ ((k, p) ∷ []))
last_place p [] (k, e) = absurd (cc)
last_place p (e ∷ []) (k, e') = ([], k, one_place e p k e')
last_place p (e ∷ e' ∷ es) last =
    let (pre, k, parts) = last_place p (e' ∷ es) last in (e ∷ pre, k, ap (◌∷◌ e) parts)

module _ (f : ChunkFuncs) (d : Dictionary) (size : ℕ) (L : ChunkLaws f size)
    (D : DictionaryLaws d) where
  -- The chunk is that of an entry of the dictionary: the keys behind it are newer than the timestamp,
  -- and its own key is not, unless it is the first entry; the latest chunk is that of the last entry.
  pub record FoundTarget (s : Series f.Chunk d.Dict) (es : List (ℕ × ℕ)) (timestamp : ℕ)
      (result : Option Target) : Type 0 where
    pub target : Target
    pub key : ℕ
    pub pre : List (ℕ × ℕ)
    pub post : List (ℕ × ℕ)
    pub returned : result ≡ some target
    pub parts : es ≡ pre ++ ((key, target.chunk) ∷ post)
    pub not_newer : (key ≤ timestamp) ⊎ (pre ≡ [])
    pub behind : KeysAbove timestamp post
    pub first_ts : target.chunk_first_ts ≡ f.get_first_timestamp (s.memory target.chunk)
    pub latest : target.latest_chunk ≡ true → (post ≡ []) × (target.chunk ≡ s.last_chunk)

  module _ (s : Series f.Chunk d.Dict) (es : List (ℕ × ℕ)) (segs : List (List Sample))
      (timestamp : ℕ) (now : D.entries s.chunks ≡ es) (row : Row L.Holds s.memory 0 es segs) where
    abbrev first : ℕ
    first = f.get_first_timestamp (s.memory s.last_chunk)

    -- It is one of the other chunks.
    find_target-older :
        (e : ℕ × ℕ) (pre post : List (ℕ × ℕ))
        → (ltb timestamp first && ltb 1 (d.dict_size s.chunks)) ≡ true
        → or_entry (d.at_most s.chunks timestamp) (d.next s.chunks none) ≡ some e
        → es ≡ pre ++ (e ∷ post)
        → (e.0 ≤ timestamp) ⊎ (pre ≡ [])
        → KeysAbove timestamp post
        → FoundTarget s es timestamp (find_target f d s timestamp)
    unfolding find_target
    find_target-older e pre post test found parts not_newer behind = record {
      target = record {
        latest_chunk = false;
        chunk = e.1;
        chunk_first_ts = f.get_first_timestamp (s.memory e.1);
      };
      key = e.0;
      pre = pre;
      post = post;
      returned = rw (test, found) refl;
      parts = parts;
      not_newer = not_newer;
      behind = behind;
      first_ts = refl;
      latest = λ e. absurd (cc);
    }

    find_target-latest :
        (pre : List (ℕ × ℕ)) (k : ℕ)
        → (ltb timestamp first && ltb 1 (d.dict_size s.chunks)) ≡ false
        → es ≡ pre ++ ((k, s.last_chunk) ∷ [])
        → FoundTarget s es timestamp (find_target f d s timestamp)
    unfolding find_target
    find_target-latest pre k test parts =
        let (x, xs, held, le) =
          row_entry L.Holds s.memory 0 k s.last_chunk pre [] segs
            (subst (λ t. Row L.Holds s.memory 0 t segs) parts row) in
        let same : first ≡ x.timestamp = L.first_timestamp (s.memory s.last_chunk) x xs held in
        let size = D.dict_size_lem s.chunks ∙ ap length (now ∙ parts) in
        record {
          target = record { latest_chunk = true; chunk = s.last_chunk; chunk_first_ts = first };
          key = k;
          pre = pre;
          post = [];
          returned = rw test refl;
          parts = parts;
          not_newer = elim (Bool-cases (ltb timestamp first)) [
            | inl less ↦ inr (
                nothing_before pre (
                  omega (
                    arith,
                    length-append pre ((k, s.last_chunk) ∷ []),
                    size,
                    one_chunk timestamp first (d.dict_size s.chunks) less test,
                  )))
            | inr more ↦ inl (omega (arith, ltb→le timestamp first more, le, same))
          ];
          behind = tt;
          first_ts = refl;
          latest = λ e. (refl, refl);
        }

    -- Of a series whose chunks have samples: the chunk that is chosen for a timestamp is that of an
    -- entry of the dictionary. The keys behind it are newer than the timestamp, and its own key is
    -- not, unless it is the first entry. If it is taken for the latest chunk it is the last one.
    -- Its first timestamp is the one that is noted.
    pub find_target-FoundTarget :
        LastIs s.last_chunk es → FoundTarget s es timestamp (find_target f d s timestamp)
    find_target-FoundTarget last =
        elim (Bool-cases (ltb timestamp first && ltb 1 (d.dict_size s.chunks))) [
          | inl test ↦
              by_search (at_most_in timestamp es) es test refl (at_most_in-Searched timestamp es)
                refl
          | inr test ↦
              let (pre, k, parts) = last_place s.last_chunk es last in
              find_target-latest pre k test parts
        ]
      where
        by_search :
            (r : Option (ℕ × ℕ)) (fs : List (ℕ × ℕ))
            → (ltb timestamp first && ltb 1 (d.dict_size s.chunks)) ≡ true
            → at_most_in timestamp es ≡ r
            → Searched timestamp es r
            → es ≡ fs
            → FoundTarget s es timestamp (find_target f d s timestamp)
        by_search (some e) fs test found c same =
            find_target-older e c.pre c.post test
              (rw (D.at_most_lem s.chunks timestamp ∙ ap (at_most_in timestamp) now ∙ found) refl)
              c.parts (inl c.le) c.behind
        by_search none [] test found above same =
            absurd (no_entry s.last_chunk (subst (LastIs s.last_chunk) same last))
        by_search none (e ∷ fs) test found above same =
            find_target-older e [] fs test
              (rw
                (
                  D.at_most_lem s.chunks timestamp ∙ ap (at_most_in timestamp) now ∙ found,
                  D.next_lem s.chunks none ∙ ap head_of (now ∙ same),
                )
                refl)
              same (inr refl) (subst (KeysAbove timestamp) same above).1
