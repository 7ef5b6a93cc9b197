-- ===== src/ValueFilter/Keeping.antt =====
-- The loop that keeps the samples of a chunk against the filter of a list.
use mathlib.Core.List.{append_assoc, append-nil}
use redis_time_series.Common.{
  ℕ, suc, ◌+◌, ◌≡◌, inl, inr, refl, sym, ap, ◌∙◌, Bool, true, false, if◌then◌else◌, Bool-cases,
  List, [], ◌∷◌, ◌++◌, map, length, length-append, take, get_or, set, set-append, get_or-append,
  take-append, arith,
}
use redis_time_series.Generic.{Sample}
use redis_time_series.Enriched.{columns}
use redis_time_series.ValueFilter.{
  FilterByValueArgs, Kept, check_sample_value, keep_sample, keep_samples, kept_chunk,
}

-- One array: the kept ones, the free places behind them, and those that are not read yet.
abbrev array : (Sample → ℕ) → List Sample → List ℕ → List Sample → List ℕ
array g kept free rest = map g kept ++ (free ++ map g rest)

-- The free places after the first of them is taken, and another came behind.
abbrev shift : List ℕ → ℕ → List ℕ
shift [] v = []
shift (y ∷ free) v = free ++ (v ∷ [])

length-shift : (free : List ℕ) (v : ℕ) → length (shift free v) ≡ length free
length-shift [] v = refl
length-shift (y ∷ free) v = omega (arith, length-append free (v ∷ []))

length-column : (g : Sample → ℕ) (xs : List Sample) → length (map g xs) ≡ length xs
length-column g [] = refl
length-column g (x ∷ xs) = ap suc (length-column g xs)

column-append : (g : Sample → ℕ) (xs ys : List Sample) → map g (xs ++ ys) ≡ map g xs ++ map g ys
column-append g [] ys = refl
column-append g (x ∷ xs) ys = ap (◌∷◌ (g x)) (column-append g xs ys)

set_first :
    (ds free rs : List ℕ) (v : ℕ)
    → set (ds ++ (free ++ (v ∷ rs))) (length ds) v ≡ (ds ++ (v ∷ [])) ++ (shift free v ++ rs)
set_first ds [] rs v = set-append ds v rs v ∙ sym (append_assoc ds (v ∷ []) rs)
set_first ds (y ∷ free) rs v =
    set-append ds y (free ++ (v ∷ rs)) v
    ∙ ap (λ t. ds ++ (v ∷ t)) (sym (append_assoc free (v ∷ []) rs))
    ∙ sym (append_assoc ds (v ∷ []) ((free ++ (v ∷ [])) ++ rs))

set-array :
    (g : Sample → ℕ) (kept : List Sample) (free : List ℕ) (x : Sample) (rest : List Sample)
    → set (array g kept free (x ∷ rest)) (length kept) (g x)
      ≡ array g (kept ++ (x ∷ [])) (shift free (g x)) rest
set-array g kept free x rest =
    ap (λ n. set (array g kept free (x ∷ rest)) n (g x)) (sym (length-column g kept))
    ∙ set_first (map g kept) free (map g rest) (g x)
    ∙ ap (λ t. t ++ (shift free (g x) ++ map g rest)) (sym (column-append g kept (x ∷ [])))

get_or-array :
    (g : Sample → ℕ) (kept : List Sample) (free : List ℕ) (x : Sample) (rest : List Sample) (i : ℕ)
    → i ≡ length kept + length free
    → get_or (array g kept free (x ∷ rest)) i 0 ≡ g x
get_or-array g kept free x rest i e =
    let n : i ≡ length (map g kept ++ free) =
      omega (arith, e, length-column g kept, length-append (map g kept) free) in
    ap (λ t. get_or t i 0) (sym (append_assoc (map g kept) free (g x ∷ map g rest)))
    ∙ ap (λ j. get_or ((map g kept ++ free) ++ (g x ∷ map g rest)) j 0) n
    ∙ get_or-append (map g kept ++ free) (g x) (map g rest) 0

-- A sample that is not kept leaves one more free place.
array-skip :
    (g : Sample → ℕ) (kept : List Sample) (free : List ℕ) (x : Sample) (rest : List Sample)
    → array g kept free (x ∷ rest) ≡ array g kept (free ++ (g x ∷ [])) rest
array-skip g kept free x rest =
    ap (λ t. map g kept ++ t) (sym (append_assoc free (g x ∷ []) (map g rest)))

take-array :
    (g : Sample → ℕ) (kept : List Sample) (free : List ℕ) (rest : List Sample)
    → take (length kept) (array g kept free rest) ≡ map g kept
take-array g kept free rest =
    ap (λ n. take n (array g kept free rest)) (sym (length-column g kept))
    ∙ take-append (map g kept) (free ++ map g rest)

abbrev time : Sample → ℕ
time x = x.timestamp

abbrev worth : Sample → ℕ
worth x = x.value

abbrev made : ℕ → List ℕ → List ℕ → Kept
made n ts vs = record { count = n; timestamps = ts; values = vs }

made_eq : (m n : ℕ) (ts us vs ws : List ℕ) → m ≡ n → ts ≡ us → vs ≡ ws → made m ts vs ≡ made n us ws
made_eq m n ts us vs ws p q r i = made (p i) (q i) (r i)

-- Some samples are kept, and the rest is not read yet.
abbrev midway : List Sample → List ℕ → List ℕ → List Sample → Kept
midway kept ft fv rest = made (length kept) (array time kept ft rest) (array worth kept fv rest)

module _ (at_most : ℕ → ℕ → Bool) (args : FilterByValueArgs) where
  -- The samples whose value is within the bounds.
  abbrev pub within : List Sample → List Sample
  within [] = []
  within (x ∷ xs) = if check_sample_value at_most args x.value then x ∷ within xs else within xs

  module _ (kept : List Sample) (ft fv : List ℕ) (x : Sample) (rest : List Sample) (i : ℕ)
      (e : i ≡ length kept + length fv) (same : length ft ≡ length fv) where
    keep_sample-kept :
        check_sample_value at_most args x.value ≡ true
        → keep_sample at_most args i (midway kept ft fv (x ∷ rest))
          ≡ midway (kept ++ (x ∷ [])) (shift ft x.timestamp) (shift fv x.value) rest
    unfolding keep_sample
    keep_sample-kept h =
        rw
          (
            get_or-array worth kept fv x rest i e,
            h,
            get_or-array time kept ft x rest i (omega (arith, e, same)),
          )
          (made_eq (length kept + 1) (length (kept ++ (x ∷ [])))
            (set (array time kept ft (x ∷ rest)) (length kept) x.timestamp)
            (array time (kept ++ (x ∷ [])) (shift ft x.timestamp) rest)
            (set (array worth kept fv (x ∷ rest)) (length kept) x.value)
            (array worth (kept ++ (x ∷ [])) (shift fv x.value) rest)
            (omega (arith, length-append kept (x ∷ []))) (set-array time kept ft x rest)
            (set-array worth kept fv x rest))

    keep_sample-skipped :
        check_sample_value at_most args x.value ≡ false
        → keep_sample at_most args i (midway kept ft fv (x ∷ rest))
          ≡ midway kept (ft ++ (x.timestamp ∷ [])) (fv ++ (x.value ∷ [])) rest
    unfolding keep_sample
    keep_sample-skipped h =
        rw (get_or-array worth kept fv x rest i e, h)
          (made_eq (length kept) (length kept) (array time kept ft (x ∷ rest))
            (array time kept (ft ++ (x.timestamp ∷ [])) rest) (array worth kept fv (x ∷ rest))
            (array worth kept (fv ++ (x.value ∷ [])) rest) refl (array-skip time kept ft x rest)
            (array-skip worth kept fv x rest))

  -- The loop ends with the samples that are within the bounds behind those that were kept before.
  keep_samples-within :
      (kept : List Sample) (ft fv : List ℕ) (rest : List Sample) (i : ℕ)
      → i ≡ length kept + length fv
      → length ft ≡ length fv
      → (gt : List ℕ) × (gv : List ℕ) × (keep_samples at_most args
            (length rest)
            i
            (midway kept ft fv rest)
          ≡ midway (kept ++ within rest) gt gv [])
  unfolding keep_samples
  keep_samples-within kept ft fv [] i e same =
      (ft, fv, ap (λ t. midway t ft fv []) (sym (append-nil kept)))
  keep_samples-within kept ft fv (x ∷ rest) i e same =
      elim (Bool-cases (check_sample_value at_most args x.value)) [
        | inl inside ↦
            let (gt, gv, r) =
              keep_samples-within (kept ++ (x ∷ [])) (shift ft x.timestamp) (shift fv x.value) rest
                (i + 1) (omega (arith, e, length-append kept (x ∷ []), length-shift fv x.value))
                (omega (arith, same, length-shift fv x.value, length-shift ft x.timestamp)) in
            (
              gt,
              gv,
              rw inside (
                  ap (keep_samples at_most args (length rest) (i + 1))
                    (keep_sample-kept kept ft fv x rest i e same inside)
                  ∙ r
                  ∙ ap (λ t. midway t gt gv []) (append_assoc kept (x ∷ []) (within rest))),
            )
        | inr beyond ↦
            let (gt, gv, r) =
              keep_samples-within kept (ft ++ (x.timestamp ∷ [])) (fv ++ (x.value ∷ [])) rest
                (i + 1) (omega (arith, e, length-append fv (x.value ∷ [])))
                (omega (
                  arith,
                  same,
                  length-append fv (x.value ∷ []),
                  length-append ft (x.timestamp ∷ []),
                )) in
            (
              gt,
              gv,
              rw beyond (
                  ap (keep_samples at_most args (length rest) (i + 1))
                    (keep_sample-skipped kept ft fv x rest i e same beyond)
                  ∙ r),
            )
      ]

  -- What the loop leaves of a chunk.
  pub kept_chunk-within :
      (rev : Bool) (xs : List Sample)
      → kept_chunk at_most args (columns rev xs) ≡ (columns rev (within xs), length (within xs))
  unfolding kept_chunk
  kept_chunk-within rev xs =
      let (gt, gv, r) = keep_samples-within [] [] [] xs 0 refl refl in
      rw
        (
          length-column worth xs,
          r,
          take-array time (within xs) gt [],
          take-array worth (within xs) gv [],
        )
        refl
