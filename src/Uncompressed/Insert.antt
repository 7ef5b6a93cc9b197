-- ===== src/Uncompressed/Insert.antt =====
-- `upsertChunk` and `Uncompressed_UpsertSample` against the list of samples.
use mathlib.Core.Path.{subst}
use mathlib.Core.List.{append_assoc}
use redis_time_series.Common.{
  ℕ, suc, ◌+◌, ◌-◌, ◌≡◌, refl, false, true, List, [], ◌∷◌, ◌++◌, length, length-append, ltb, ◌==◌,
  ne→==, if◌then◌else◌, set, take, drop, arith, set-append, take-append, drop-append,
}
use redis_time_series.Generic.{Sample}
use redis_time_series.Uncompressed.Stores.{FirstIs}
use redis_time_series.Uncompressed.Upsert.{move_up}

module _ {ℓ} {A : Type ℓ} where
  length-snoc : (xs : List A) (x : A) → length (xs ++ x ∷ []) ≡ length xs + 1
  length-snoc [] x = omega arith
  length-snoc (y ∷ xs) x = omega (arith, length-snoc xs x)

  take_snoc :
      (xs : List A) (x : A) (ys : List A) → take (length xs + 1) (xs ++ x ∷ ys) ≡ xs ++ x ∷ []
  take_snoc xs x ys =
      subst (λ t. take (length xs + 1) t ≡ xs ++ x ∷ []) (append_assoc xs (x ∷ []) ys)
        (subst (λ n. take n ((xs ++ x ∷ []) ++ ys) ≡ xs ++ x ∷ []) (length-snoc xs x)
          (take-append (xs ++ x ∷ []) ys))

  drop_snoc : (xs : List A) (x : A) (ys : List A) → drop (length xs + 1) (xs ++ x ∷ ys) ≡ ys
  drop_snoc xs x ys =
      subst (λ t. drop (length xs + 1) t ≡ ys) (append_assoc xs (x ∷ []) ys)
        (subst (λ n. drop n ((xs ++ x ∷ []) ++ ys) ≡ ys) (length-snoc xs x)
          (drop-append (xs ++ x ∷ []) ys))

-- The slots from `x` on move up by one, into the free slot `y`.
move_up_lem :
    (ys : List Sample) (x : Sample) (xs : List Sample) (y : Sample) (fs : List Sample)
    → move_up (ys ++ (x ∷ xs ++ y ∷ fs)) (length ys) (length ys + suc (length xs))
      ≡ (ys ++ x ∷ []) ++ ((x ∷ xs) ++ fs)
unfolding move_up
move_up_lem ys x xs y fs =
    rw (take_snoc ys x (xs ++ y ∷ fs), drop-append ys (x ∷ xs ++ y ∷ fs), all, beyond)
      (append_assoc (ys ++ x ∷ []) (x ∷ xs) fs)
  where
    all : take (length ys + suc (length xs) - length ys) (x ∷ xs ++ y ∷ fs) ≡ x ∷ xs
    all =
        let same : suc (length xs) ≡ length ys + suc (length xs) - length ys = omega arith in
        subst (λ n. take n (x ∷ xs ++ y ∷ fs) ≡ x ∷ xs) same (take-append (x ∷ xs) (y ∷ fs))

    beyond : drop (length ys + suc (length xs) + 1) (ys ++ (x ∷ xs ++ y ∷ fs)) ≡ fs
    beyond =
        let same : length (ys ++ x ∷ xs) + 1 ≡ length ys + suc (length xs) + 1 =
          omega (arith, length-append {0} ys (x ∷ xs)) in
        subst (λ t. drop (length ys + suc (length xs) + 1) t ≡ fs)
          (append_assoc ys (x ∷ xs) (y ∷ fs))
          (subst (λ n. drop n ((ys ++ x ∷ xs) ++ y ∷ fs) ≡ fs) same (drop_snoc (ys ++ x ∷ xs) y fs))

-- With a free slot `y`, the write lands between `ys` and `xs`.
pub shifted :
    (ys xs : List Sample) (y : Sample) (fs : List Sample) (s : Sample) (n : ℕ)
    → n ≡ length ys + length xs
    → set
        (if ltb (length ys) n
          then move_up (ys ++ (xs ++ y ∷ fs)) (length ys) n
          else ys ++ (xs ++ y ∷ fs))
        (length ys)
        s
      ≡ ys ++ s ∷ (xs ++ fs)
shifted ys [] y fs s n e = rw (not_last) (set-append ys y fs s)
  where
    not_last : ltb (length ys) n ≡ false
    not_last = ground arith
shifted ys (x ∷ xs) y fs s n e =
    rw (inner, e, move_up_lem ys x xs y fs, append_assoc ys (x ∷ []) ((x ∷ xs) ++ fs))
      (set-append ys x ((x ∷ xs) ++ fs) s)
  where
    inner : ltb (length ys) n ≡ true
    inner = ground arith

pub FirstIs-insert :
    (t : ℕ) (ys : List Sample) (s : Sample) (xs : List Sample)
    → FirstIs t (ys ++ xs)
    → FirstIs (if length ys == 0 then s.timestamp else t) (ys ++ s ∷ xs)
FirstIs-insert t [] s xs h = refl
FirstIs-insert t (y ∷ ys) s xs h = rw (ne→== (suc (length ys)) 0 (omega arith)) h
