-- ===== src/CompoundKey.antt =====
-- src/utils/compound_key.ts: the key of a document made of several texts, a hash of their bytes, each
-- text framed by its length so that no two lists of texts are hashed alike.
use Prim.Native.String
use driveparts_websockets.Prelude.{
  ℕ, ◌/◌, ◌<◌, ◌≡◌, refl, List, [], ◌∷◌, ◌++◌, String, arith, length, All,
}
use Prim.Native.Nat.{◌%◌}

-- `writeUInt32BE`, of a number below 2 ^ 32
abbrev four_bytes : ℕ → List ℕ
four_bytes n = n / 16777216 % 256 ∷ n / 65536 % 256 ∷ n / 256 % 256 ∷ n % 256 ∷ []

-- The bytes that the hash is updated with.
unfoldable pub framed : List (List ℕ) → List ℕ
framed [] = []
framed (part ∷ parts) = four_bytes (length part) ++ (part ++ framed parts)

abbrev map_bytes : (String → List ℕ) → List String → List (List ℕ)
map_bytes bytes [] = []
map_bytes bytes (part ∷ parts) = bytes part ∷ map_bytes bytes parts

unfoldable pub build_compound_key :
    (String → List ℕ) → (List ℕ → String) → String → List String → String
build_compound_key bytes sha256 namespace parts =
    String.◌++◌ namespace (String.◌++◌ ":v2:" (sha256 (framed (map_bytes bytes parts))))

four_bytes_injective :
    (m n : ℕ) → m < 4294967296 → n < 4294967296 → four_bytes m ≡ four_bytes n → m ≡ n
four_bytes_injective m n b c h = ground arith

-- Two lists that start alike up to the same length are equal there and after it.
append_same_length :
    (xs ys us vs : List ℕ) → length xs ≡ length ys → xs ++ us ≡ ys ++ vs → (xs ≡ ys) × (us ≡ vs)
append_same_length [] [] us vs h e = (refl, e)
append_same_length [] (y ∷ ys) us vs h e = absurd (ground arith)
append_same_length (x ∷ xs) [] us vs h e = absurd (ground arith)
append_same_length (x ∷ xs) (y ∷ ys) us vs h e = ground (arith, append_same_length xs ys us vs)

-- Different lists of parts are different sequences of bytes for the hash, if each part has fewer than
-- 2 ^ 32 bytes.
framed_injective :
    (xs ys : List (List ℕ))
    → All (λ part. length part < 4294967296) xs
    → All (λ part. length part < 4294967296) ys
    → framed xs ≡ framed ys
    → xs ≡ ys
unfolding framed
framed_injective [] [] b c h = refl
framed_injective [] (y ∷ ys) b c h = absurd (ground arith)
framed_injective (x ∷ xs) [] b c h = absurd (ground arith)
framed_injective (x ∷ xs) (y ∷ ys) b c h =
    let l : length x ≡ length y = four_bytes_injective _ _ b.0 c.0 (ground arith) in
    let rest : x ++ framed xs ≡ y ++ framed ys = ground arith in
    let (same, later) = append_same_length x y (framed xs) (framed ys) l rest in
    ground (arith, framed_injective xs ys b.1 c.1)
