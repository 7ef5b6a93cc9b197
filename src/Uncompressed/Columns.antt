-- ===== src/Uncompressed/Columns.antt =====
-- The loops of `Uncompressed_ProcessChunk`, one by one.
use mathlib.Core.Path.{subst}
use mathlib.Core.List.{append_assoc, reverse, reverse-cons, reverse-reverse}
use redis_time_series.Common.{
  ℕ, suc, ◌+◌, ◌-◌, ◌^◌, ◌<◌, ◌≡◌, refl, sym, ap, ◌∙◌, Bool, true, false, Bool-cases, inl, inr,
  List, [], ◌∷◌, ◌++◌, length, length-append, leb, ==_iff, ne→==, if◌then◌else◌, get_or, sub64,
  add64, arith, get_or-append, u32,
}
use redis_time_series.Generic.{Sample}
use redis_time_series.Ranges.{up_to, before}
use redis_time_series.Enriched.{reset_enriched_chunk, columns, range_query}
use redis_time_series.Uncompressed.{Chunk, no_sample}
use redis_time_series.Uncompressed.Process.{
  search_start, search_end, read_up, read_down, fill_columns,
}

pub search_start-before :
    (a i : ℕ) (xs free : List Sample)
    → search_start (length xs) i a (xs ++ free) ≡ i + length (before a xs)
unfolding search_start
search_start-before a i [] free = omega arith
search_start-before a i (x ∷ xs) free = elim (Bool-cases (leb a x.timestamp)) [
  | inl e ↦ rw e (omega arith)
  | inr e ↦ rw e (omega (arith, search_start-before a (i + 1) xs free))
]

pub search_end-up_to :
    (b i : ℕ) (xs free : List Sample)
    → search_end (length xs) i b (xs ++ free) ≡ i + length (up_to b xs)
unfolding search_end
search_end-up_to b i [] free = omega arith
search_end-up_to b i (x ∷ xs) free = ground (arith, search_end-up_to b (i + 1) xs free)

read_up_lem :
    (run pre rest slots : List Sample) (si : ℕ)
    → slots ≡ pre ++ (run ++ rest)
    → si ≡ length pre
    → read_up (length run) si slots ≡ run
unfolding read_up
read_up_lem [] pre rest slots si e n = refl
read_up_lem (x ∷ run) pre rest slots si e n =
    let found : get_or slots si no_sample ≡ x =
      rw (e, n) (get_or-append pre x (run ++ rest) no_sample) in
    rw found (
      ap (◌∷◌ x) (
        read_up_lem run (pre ++ x ∷ []) rest slots (si + 1)
          (e ∙ sym (append_assoc pre (x ∷ []) (run ++ rest)))
          (omega (arith, n, length-append {0} pre (x ∷ [])))))

length-reverse : (xs : List Sample) → length (reverse xs) ≡ length xs
length-reverse [] = refl
length-reverse (x ∷ xs) =
    rw (reverse-cons x xs)
      (omega (arith, length-reverse xs, length-append {0} (reverse xs) (x ∷ [])))

read_down_lem :
    (run pre rest slots : List Sample) (ei : ℕ)
    → slots ≡ pre ++ (reverse run ++ rest)
    → ei ≡ length pre + length run - 1
    → read_down (length run) ei slots ≡ run
unfolding read_down
read_down_lem [] pre rest slots ei e n = refl
read_down_lem (x ∷ run) pre rest slots ei e n =
    let moved : slots ≡ pre ++ (reverse run ++ x ∷ rest) =
      e
      ∙ ap (λ t. pre ++ (t ++ rest)) (reverse-cons x run)
      ∙ ap (λ t. pre ++ t) (append_assoc (reverse run) (x ∷ []) rest) in
    let at : ei ≡ length (pre ++ reverse run) =
      omega (arith, n, length-reverse run, length-append {0} pre (reverse run)) in
    let found : get_or slots ei no_sample ≡ x =
      rw (moved ∙ sym (append_assoc pre (reverse run) (x ∷ rest)), at)
        (get_or-append (pre ++ reverse run) x rest no_sample) in
    rw found (ap (◌∷◌ x) (read_down_lem run pre (x ∷ rest) slots (ei - 1) moved (omega (arith, n))))

-- The two loops that fill the columns, with the samples of the range at `pre`.
pub fill_columns_lem :
    (c : Chunk) (rev : Bool) (pre run rest : List Sample)
    → c.samples ≡ pre ++ (run ++ rest)
    → length pre + length run < 2 ^ 32
    → fill_columns c rev (length pre) (length pre + length run) ≡ range_query rev run
unfolding fill_columns reset_enriched_chunk
fill_columns_lem c rev pre [] rest e small =
    rw ((==_iff (u32 (add64 (sub64 (sub64 (length pre + 0) 1) (length pre)) 1)) 0).1 (omega arith))
      refl
fill_columns_lem c rev pre (x ∷ xs) rest e small =
    let n = suc (length xs) in
    let ei = sub64 (length pre + n) 1 in
    let count : u32 (add64 (sub64 ei (length pre)) 1) ≡ n = omega arith in
    let last : ei ≡ length pre + n - 1 = omega arith in
    let up = read_up_lem (x ∷ xs) pre rest c.samples (length pre) e refl in
    let turned : c.samples ≡ pre ++ (reverse (reverse (x ∷ xs)) ++ rest) =
      e ∙ ap (λ t. pre ++ (t ++ rest)) (sym (reverse-reverse (x ∷ xs))) in
    let down : read_down n ei c.samples ≡ reverse (x ∷ xs) =
      subst (λ k. read_down k ei c.samples ≡ reverse (x ∷ xs)) (length-reverse (x ∷ xs))
        (read_down_lem (reverse (x ∷ xs)) pre rest c.samples ei turned
          (omega (arith, last, length-reverse (x ∷ xs)))) in
    rw (count, ne→== n 0 (omega arith)) (both rev up down)
  where
    both :
        (rev : Bool) {a b : List Sample}
        → a ≡ x ∷ xs
        → b ≡ reverse (x ∷ xs)
        → (if rev then columns true b else columns false a) ≡ range_query rev (x ∷ xs)
    both true p q = ap (columns true) q
    both false p q = ap (columns false) p
