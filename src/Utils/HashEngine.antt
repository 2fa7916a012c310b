-- ===== src/Utils/HashEngine.antt =====
-- src/utils/hash: hash codes and the index of a bucket. A `size_t` has 64 bits.
pub mod Equality
use Prim.Native.Nat.{bit_xor}
use premir_cpp.Common.{
  ℕ, ◌+◌, ◌-◌, ◌*◌, ◌/◌, ◌%◌, ◌^◌, ◌<◌, ◌≡◌, List, [], ◌∷◌, arith, ltb, ◌==◌, if◌then◌else◌, length,
}
use premir_cpp.Common.Run.{Run, ok, undefined, ◌>>=◌}

abbrev pub size_t_mod : ℕ
size_t_mod = 2 ^ 64

-- The loop of `DEKHash`; a character comes as the `size_t` that `*str` converts to.
dek_loop : ℕ → List ℕ → ℕ
dek_loop hash [] = hash
dek_loop hash (ch ∷ str) =
    dek_loop (bit_xor (bit_xor (hash * 2 ^ 5 % size_t_mod) (hash / 2 ^ 27)) ch) str

unfoldable pub dek_hash : List ℕ → ℕ
unfolding dek_loop
dek_hash str = dek_loop (length str) str

-- `HashEngine<K>`: the virtual `hashCode` and `indexSize`.
pub record HashEngine {ℓ} (K : Type ℓ) : Type ℓ where
  pub hash_code : K → ℕ
  pub index_size : ℕ

abbrev pub default_table_size : ℕ
default_table_size = 1021

module _ {ℓ} {K : Type ℓ} where
  unfoldable pub set_index_size : HashEngine K → ℕ → HashEngine K
  set_index_size e n = record e { index_size = n }

  -- `hashCode(value) % indexSize`; a remainder by 0 is `undefined`.
  unfoldable pub hash_index : HashEngine K → K → Run ℕ
  hash_index e value =
      if e.index_size == 0 then undefined else ok (e.hash_code value % e.index_size)

  -- The bucket of a value.
  abbrev pub bucket : HashEngine K → K → ℕ
  bucket e value = e.hash_code value % e.index_size

  pub hash_index-ok :
      (e : HashEngine K) (value : K) → 0 < e.index_size → hash_index e value ≡ ok (bucket e value)
  unfolding hash_index
  hash_index-ok e value h = ground arith

-- `IntHash<size_t>`.
abbrev pub int_hash : HashEngine ℕ
int_hash = record { hash_code = λ value. value % size_t_mod; index_size = default_table_size }

-- `CharHash`, over the byte of a signed `char`: the cast to `size_t` extends the sign.
unfoldable pub char_code : ℕ → ℕ
char_code byte = if ltb byte 128 then byte else size_t_mod - 256 + byte

abbrev pub char_hash : HashEngine ℕ
char_hash = record { hash_code = char_code; index_size = 255 }

-- `ArrayListHash<T>`: `hash = 31 * hash + elementHash(value[i])` from 1 on.
module _ {ℓ} {T : Type ℓ} where
  array_list_loop : HashEngine T → ℕ → List T → Run ℕ
  array_list_loop e hash [] = ok hash
  array_list_loop e hash (x ∷ xs) =
      hash_index e x >>= λ index. array_list_loop e ((31 * hash + index) % size_t_mod) xs

  unfoldable pub array_list_hash : HashEngine T → List T → Run ℕ
  unfolding array_list_loop hash_index
  array_list_hash e xs = array_list_loop e 1 xs
