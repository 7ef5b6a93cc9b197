-- ===== src/Texts.antt =====
-- Texts as lists of bytes, `tolower`, and `strncmp` on texts of one length.
use Prim.Native.Char.{code}
use Prim.Native.String.{String}
use redis_time_series.Common.{
  ℕ, suc, ◌+◌, ◌≡◌, refl, ap, Bool, true, false, ◌&&◌, List, [], ◌∷◌, leb, ◌==◌, if◌then◌else◌,
  length, arith,
}

abbrev pub codes : String → List ℕ
codes String.[] = []
codes (String.◌∷◌ c s) = code c ∷ codes s

unfoldable pub to_lower : ℕ → ℕ
to_lower c = if leb b'A' c && leb c b'Z' then c + 32 else c

unfoldable pub to_lower_all : List ℕ → List ℕ
to_lower_all [] = []
to_lower_all (c ∷ s) = to_lower c ∷ to_lower_all s

-- `strncmp(s, t, len) == 0` where both have `len` bytes and the second no NUL.
unfoldable pub bytes_eq : List ℕ → List ℕ → Bool
bytes_eq [] [] = true
bytes_eq [] (d ∷ t) = false
bytes_eq (c ∷ s) [] = false
bytes_eq (c ∷ s) (d ∷ t) = c == d && bytes_eq s t

pub length-to_lower_all : (s : List ℕ) → length (to_lower_all s) ≡ length s
unfolding to_lower_all
length-to_lower_all [] = refl
length-to_lower_all (c ∷ s) = ap suc (length-to_lower_all s)

pub bytes_eq_sound : (s t : List ℕ) → bytes_eq s t ≡ true → s ≡ t
unfolding bytes_eq
bytes_eq_sound [] [] e = refl
bytes_eq_sound [] (d ∷ t) e = absurd (cc)
bytes_eq_sound (c ∷ s) [] e = absurd (cc)
bytes_eq_sound (c ∷ s) (d ∷ t) e = ground (arith, bytes_eq_sound s t)
