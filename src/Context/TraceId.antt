-- ===== src/Context/TraceId.antt =====
-- internal/context/utils.go: `newTraceID`, with what it uses of encoding/hex. What `rand.Read` puts
-- into the array of 16 bytes is an argument, `none` for an error.
use Prim.Native.String.{String, char_at, count}
use Prim.Native.String.count.{cons}
use Prim.Native.Char.{Char, code}
use agile_pool.Prelude.{
  ℕ, zero, suc, ◌+◌, ◌*◌, ◌-◌, ◌/◌, ◌%◌, ◌<◌, ◌≡◌, ◌≢◌, refl, Bool, true, ◌&&◌, Option, none, some,
  List, [], ◌∷◌, arith, length, ltb, ◌==◌, if◌then◌else◌, Bool-cases, inl, inr, ==_iff,
}
use agile_pool.Prelude.All.{All}

-- `var b [16]byte`
abbrev pub id_bytes : ℕ
id_bytes = 16

abbrev hex_table : String
hex_table = "0123456789abcdef"

-- `hextable[v]`
unfoldable pub digit : ℕ → Char
digit v = char_at hex_table v

-- `hex.EncodeToString`: two digits for each byte, the high one first.
unfoldable pub encode_to_string : List ℕ → String
encode_to_string [] = String.[]
encode_to_string (b ∷ bs) =
    String.◌∷◌ (digit (b / 16)) (String.◌∷◌ (digit (b % 16)) (encode_to_string bs))

unfoldable pub new_trace_id : Option (List ℕ) → Option String
new_trace_id none = none
new_trace_id (some b) = some (encode_to_string b)

-- What `rand.Read` fills: the whole array, with bytes.
abbrev pub IsBlock : List ℕ → Type 0
IsBlock b = (length b ≡ id_bytes) × All (λ v. v < 256) b

-- The number that a digit stands for, and the bytes that pairs of digits stand for.
abbrev pub nibble : Char → ℕ
nibble c = if ltb (code c) 97 then code c - 48 else code c - 87

abbrev pub bytes_of : String → List ℕ
bytes_of String.[] = []
bytes_of (String.◌∷◌ c String.[]) = []
bytes_of (String.◌∷◌ c (String.◌∷◌ d s)) = (nibble c * 16 + nibble d) ∷ bytes_of s

checked_below : ℕ → (ℕ → Bool) → Bool
checked_below zero f = true
checked_below (suc n) f = f n && checked_below n f

checked_below-lem : (n v : ℕ) (f : ℕ → Bool) → checked_below n f ≡ true → v < n → f v ≡ true
unfolding checked_below
checked_below-lem zero v f all h = ground arith
checked_below-lem (suc n) v f all h = elim (Bool-cases (v == n)) [
  | inl e ↦ ground (arith, ==_iff v n)
  | inr e ↦ checked_below-lem n v f (ground arith) (ground (arith, ==_iff v n))
]

nibble-digit : (v : ℕ) → v < 16 → nibble (digit v) ≡ v
unfolding digit checked_below
nibble-digit v h = ground (arith, checked_below-lem 16 v (λ n. nibble (digit n) == n) refl h)

-- The bytes can be read off the digits.
pub bytes_of-encode : (bs : List ℕ) → All (λ v. v < 256) bs → bytes_of (encode_to_string bs) ≡ bs
unfolding encode_to_string
bytes_of-encode [] h = refl
bytes_of-encode (b ∷ bs) h =
    let high : b / 16 < 16 = omega (arith, h.0) in
    let low : b % 16 < 16 = omega arith in
    let same : b / 16 * 16 + b % 16 ≡ b = omega arith in
    rw (nibble-digit (b / 16) high)
      (rw (nibble-digit (b % 16) low) (rw (bytes_of-encode bs h.1) (rw same refl)))

pub count-encode : (bs : List ℕ) → count (encode_to_string bs) ≡ 2 * length bs
unfolding encode_to_string
count-encode [] = refl
count-encode (b ∷ bs) =
    let rest = encode_to_string bs in
    omega (
      arith,
      cons (digit (b / 16)) (String.◌∷◌ (digit (b % 16)) rest),
      cons (digit (b % 16)) rest,
      count-encode bs,
    )

pub new_trace_id-ne_empty :
    (b : List ℕ) (id : String) → length b ≡ id_bytes → new_trace_id (some b) ≡ some id → id ≢ ""
unfolding new_trace_id encode_to_string
new_trace_id-ne_empty [] id n e = omega arith
new_trace_id-ne_empty (v ∷ b) id n e = cc
