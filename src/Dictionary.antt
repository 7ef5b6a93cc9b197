-- ===== src/Dictionary.antt =====
-- The server's ordered dictionary (`RedisModule_Dict…`), whose keys are timestamps here: the chunks of
-- a series in it are addresses. The keys are encoded so that the dictionary's order is that of the
-- numbers (`seriesEncodeTimestamp`).
pub mod Entries
use redis_time_series.Common.{ℕ, ◌≡◌, Bool, Option}
use redis_time_series.Common.{List, [], length}
use redis_time_series.Dictionary.Entries.{at_most_in, next_in, last_in, put, remove, has}

-- `next` is `RedisModule_DictNextC` for an iterator that has just returned the given key, or that was
-- sought to the entries above it (">"); with no key it is sought to the first ("^"). `last` is the
-- first entry of an iterator from the end ("$"), and `at_most` that of one that was sought to the last
-- entry that is not above the key ("<="). `set` does nothing for a key that is there, and `del`
-- says whether the key was. `unwritten` is what an uninitialised variable for an address holds, which
-- a call that finds no entry does not write to.
pub record Dictionary : Type 1 where
  pub Dict : Type 0
  pub next : Dict → Option ℕ → Option (ℕ × ℕ)
  pub last : Dict → Option (ℕ × ℕ)
  pub at_most : Dict → ℕ → Option (ℕ × ℕ)
  pub dict_size : Dict → ℕ
  pub set : Dict → ℕ → ℕ → Dict
  pub del : Dict → ℕ → Bool × Dict
  pub create : Dict
  pub unwritten : ℕ

-- The calls as what they do to the list of the entries, in the order of the keys.
pub record DictionaryLaws (d : Dictionary) : Type 0 where
  pub entries : d.Dict → List (ℕ × ℕ)
  pub next_lem : (t : d.Dict) (at : Option ℕ) → d.next t at ≡ next_in at (entries t)
  pub last_lem : (t : d.Dict) → d.last t ≡ last_in (entries t)
  pub at_most_lem : (t : d.Dict) (k : ℕ) → d.at_most t k ≡ at_most_in k (entries t)
  pub dict_size_lem : (t : d.Dict) → d.dict_size t ≡ length (entries t)
  pub set_lem : (t : d.Dict) (k p : ℕ) → entries (d.set t k p) ≡ put k p (entries t)
  pub del_lem : (t : d.Dict) (k : ℕ) → entries (d.del t k).1 ≡ remove k (entries t)
  pub del_found : (t : d.Dict) (k : ℕ) → (d.del t k).0 ≡ has k (entries t)
  pub create_lem : entries d.create ≡ []
