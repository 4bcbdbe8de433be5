-- ===== src/Hash/Text.antt =====
-- Hash tables whose entries hold a string as their key.
use libnih.Prelude.{
  ℕ, ◌+◌, ◌*◌, ◌%◌, ◌^◌, ◌-◌, ◌≡◌, arith, [], ◌∷◌, ltb, if◌then◌else◌, Bool-cases, inl, inr, ap,
}
use libnih.CString.{Bytes, streq, streq→eq}
use Prim.Native.Nat.{bit_xor}

abbrev fnv_prime : ℕ
fnv_prime = 16777619

abbrev fnv_offset_basis : ℕ
fnv_offset_basis = 2166136261

-- A `char` converted to `uint32_t`: it is signed, so that the bytes from 128 on are sign-extended.
abbrev char_to_uint32 : ℕ → ℕ
char_to_uint32 c = if ltb c 128 then c else c + (2 ^ 32 - 256)

unfoldable pub string_hash_loop : Bytes → ℕ → ℕ
string_hash_loop [] hash = hash
string_hash_loop (c ∷ key) hash =
    string_hash_loop key (bit_xor (hash * fnv_prime % 2 ^ 32) (char_to_uint32 c))

unfoldable pub string_hash : Bytes → ℕ
string_hash key = string_hash_loop key fnv_offset_basis

-- The string that an entry holds: `content` is what the memory behind its list header points to.
abbrev pub string_key : (ℕ → Bytes) → ℕ → Bytes
string_key content entry = content entry

-- `strcmp` is zero for equal strings alone; nothing else of its result is used.
unfoldable pub string_cmp : Bytes → Bytes → ℕ
string_cmp key1 key2 = if streq key1 key2 then 0 else 1

-- Strings that compare equal hash equally.
pub string_hash-string_cmp : (k l : Bytes) → string_cmp k l ≡ 0 → string_hash k ≡ string_hash l
unfolding string_cmp
string_hash-string_cmp k l e = elim (Bool-cases (streq k l)) [
  | inl h ↦ ap string_hash (streq→eq k l h)
  | inr h ↦ ground (arith, e, h)
]
