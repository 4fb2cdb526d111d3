-- ===== src/Flash/Checksum/Sha256.antt =====
-- `sha256hex` (FIPS 180-4). The words are `uint32_t`: sums wrap at 2 ^ 32.
use otsdaq_mu2e.Base.{
  ℕ, zero, suc, ◌+◌, ◌-◌, ◌*◌, ◌/◌, ◌%◌, ◌^◌, List, [], ◌∷◌, ◌++◌, if◌then◌else◌, ltb, length,
  get_or, take, drop, replicate, u8, u32, shr, not32, bit_and, bit_or, bit_xor,
}

-- `rotr(x, n)`, of a 32-bit word
unfoldable pub rotr : ℕ → ℕ → ℕ
rotr x n = bit_or (shr x n) (u32 (x * 2 ^ (32 - n)))

abbrev pub round_constants : List ℕ
round_constants =
    0x428a2f98 ∷ 0x71374491 ∷ 0xb5c0fbcf ∷ 0xe9b5dba5 ∷ 0x3956c25b ∷ 0x59f111f1 ∷ 0x923f82a4
    ∷ 0xab1c5ed5 ∷ 0xd807aa98 ∷ 0x12835b01 ∷ 0x243185be ∷ 0x550c7dc3 ∷ 0x72be5d74 ∷ 0x80deb1fe
    ∷ 0x9bdc06a7 ∷ 0xc19bf174 ∷ 0xe49b69c1 ∷ 0xefbe4786 ∷ 0x0fc19dc6 ∷ 0x240ca1cc ∷ 0x2de92c6f
    ∷ 0x4a7484aa ∷ 0x5cb0a9dc ∷ 0x76f988da ∷ 0x983e5152 ∷ 0xa831c66d ∷ 0xb00327c8 ∷ 0xbf597fc7
    ∷ 0xc6e00bf3 ∷ 0xd5a79147 ∷ 0x06ca6351 ∷ 0x14292967 ∷ 0x27b70a85 ∷ 0x2e1b2138 ∷ 0x4d2c6dfc
    ∷ 0x53380d13 ∷ 0x650a7354 ∷ 0x766a0abb ∷ 0x81c2c92e ∷ 0x92722c85 ∷ 0xa2bfe8a1 ∷ 0xa81a664b
    ∷ 0xc24b8b70 ∷ 0xc76c51a3 ∷ 0xd192e819 ∷ 0xd6990624 ∷ 0xf40e3585 ∷ 0x106aa070 ∷ 0x19a4c116
    ∷ 0x1e376c08 ∷ 0x2748774c ∷ 0x34b0bcb5 ∷ 0x391c0cb3 ∷ 0x4ed8aa4a ∷ 0x5b9cca4f ∷ 0x682e6ff3
    ∷ 0x748f82ee ∷ 0x78a5636f ∷ 0x84c87814 ∷ 0x8cc70208 ∷ 0x90befffa ∷ 0xa4506ceb ∷ 0xbef9a3f7
    ∷ 0xc67178f2 ∷ []

abbrev pub initial_hash : List ℕ
initial_hash =
    0x6a09e667 ∷ 0xbb67ae85 ∷ 0x3c6ef372 ∷ 0xa54ff53a ∷ 0x510e527f ∷ 0x9b05688c ∷ 0x1f83d9ab
    ∷ 0x5be0cd19 ∷ []

-- How many zero bytes the `while(m.size() % 64 != 56)` appends to `n` bytes.
unfoldable pub zero_count : ℕ → ℕ
zero_count n = (120 - n % 64) % 64

-- The eight bytes of the bit length, most significant first.
unfoldable pub length_bytes : ℕ → List ℕ
length_bytes bits =
    u8 (shr bits 56)
    ∷ u8 (shr bits 48)
    ∷ u8 (shr bits 40)
    ∷ u8 (shr bits 32)
    ∷ u8 (shr bits 24)
    ∷ u8 (shr bits 16)
    ∷ u8 (shr bits 8)
    ∷ u8 bits
    ∷ []

-- The message `m` with its padding.
unfoldable pub padded : List ℕ → List ℕ
unfolding zero_count length_bytes
padded bytes =
    bytes
    ++ (0x80 ∷ (replicate (zero_count (length bytes + 1)) 0 ++ length_bytes (length bytes * 8)))

-- `w[i]` for `i < 16`: big-endian words of a block.
unfoldable pub block_words_of : ℕ → List ℕ → List ℕ
block_words_of zero bytes = []
block_words_of (suc n) bytes =
    bit_or (bit_or (get_or bytes 0 0 * 2 ^ 24) (get_or bytes 1 0 * 2 ^ 16))
      (bit_or (get_or bytes 2 0 * 2 ^ 8) (get_or bytes 3 0))
    ∷ block_words_of n (drop 4 bytes)

-- `w[i]` for `16 ≤ i`, from the sixteen words before it, the oldest first.
unfoldable pub next_word : List ℕ → ℕ
unfolding rotr
next_word w =
    let w1 = get_or w 1 0 in
    let w14 = get_or w 14 0 in
    let s0 = bit_xor (bit_xor (rotr w1 7) (rotr w1 18)) (shr w1 3) in
    let s1 = bit_xor (bit_xor (rotr w14 17) (rotr w14 19)) (shr w14 10) in
    u32 (get_or w 0 0 + s0 + get_or w 9 0 + s1)

-- `n` words of the schedule: the window of sixteen words moves by one each time.
unfoldable pub schedule : ℕ → List ℕ → List ℕ
unfolding next_word
schedule zero w = []
schedule (suc n) w = get_or w 0 0 ∷ schedule n (drop 1 w ++ (next_word w ∷ []))

-- One round on `[a, b, c, d, e, f, g, hh]`.
unfoldable pub sha_round : List ℕ → ℕ → ℕ → List ℕ
unfolding rotr
sha_round v k w =
    let a = get_or v 0 0 in
    let b = get_or v 1 0 in
    let c = get_or v 2 0 in
    let e = get_or v 4 0 in
    let f = get_or v 5 0 in
    let g = get_or v 6 0 in
    let big1 = bit_xor (bit_xor (rotr e 6) (rotr e 11)) (rotr e 25) in
    let ch = bit_xor (bit_and e f) (bit_and (not32 e) g) in
    let t1 = u32 (get_or v 7 0 + big1 + ch + k + w) in
    let big0 = bit_xor (bit_xor (rotr a 2) (rotr a 13)) (rotr a 22) in
    let mj = bit_xor (bit_xor (bit_and a b) (bit_and a c)) (bit_and b c) in
    let t2 = u32 (big0 + mj) in u32 (t1 + t2) ∷ a ∷ b ∷ c ∷ u32 (get_or v 3 0 + t1) ∷ e ∷ f ∷ g ∷ []

unfoldable pub sha_rounds : List ℕ → List ℕ → List ℕ → List ℕ
unfolding sha_round
sha_rounds v [] w = v
sha_rounds v (k ∷ ks) [] = v
sha_rounds v (k ∷ ks) (x ∷ w) = sha_rounds (sha_round v k x) ks w

-- `h[i] += …`
unfoldable pub add_words : List ℕ → List ℕ → List ℕ
add_words [] ys = []
add_words (x ∷ xs) [] = []
add_words (x ∷ xs) (y ∷ ys) = u32 (x + y) ∷ add_words xs ys

unfoldable pub sha_block : List ℕ → List ℕ → List ℕ
unfolding block_words_of schedule sha_rounds add_words
sha_block h bytes =
    add_words h (sha_rounds h round_constants (schedule 64 (block_words_of 16 bytes)))

-- `for(off = 0; off < m.size(); off += 64)`, by the number of blocks.
unfoldable pub sha_blocks : ℕ → List ℕ → List ℕ → List ℕ
unfolding sha_block
sha_blocks zero h m = h
sha_blocks (suc n) h m = sha_blocks n (sha_block h (take 64 m)) (drop 64 m)

-- `%x` of a digit, as a character code
unfoldable pub hex_digit : ℕ → ℕ
hex_digit d = if ltb d 10 then 48 + d else 87 + d

unfoldable pub hex_word : ℕ → List ℕ
unfolding hex_digit
hex_word x =
    hex_digit (shr x 28 % 16)
    ∷ hex_digit (shr x 24 % 16)
    ∷ hex_digit (shr x 20 % 16)
    ∷ hex_digit (shr x 16 % 16)
    ∷ hex_digit (shr x 12 % 16)
    ∷ hex_digit (shr x 8 % 16)
    ∷ hex_digit (shr x 4 % 16)
    ∷ hex_digit (x % 16)
    ∷ []

unfoldable pub hex_words : List ℕ → List ℕ
unfolding hex_word
hex_words [] = []
hex_words (x ∷ xs) = hex_word x ++ hex_words xs

unfoldable pub sha256_hex : List ℕ → List ℕ
unfolding padded sha_blocks hex_words
sha256_hex bytes = let m = padded bytes in hex_words (sha_blocks (length m / 64) initial_hash m)
