-- ===== src/Update/Staging/Frame.antt =====
-- The text under a signature fixes the key name and the metadata.
use daxiang_vpn.Prelude.{ℕ, ◌/◌, ◌%◌, ◌^◌, ◌<◌, ◌≡◌, refl, [], ◌∷◌, ◌++◌, length, arith}
use daxiang_vpn.Update.Text.{Bytes}
use daxiang_vpn.Update.Staging.Verify.{uint32, signing_domain, signing_bytes}

append-injective : (a b s t : Bytes) → length a ≡ length b → a ++ s ≡ b ++ t → (a ≡ b) × (s ≡ t)
append-injective [] [] s t n h = (refl, h)
append-injective [] (y ∷ b) s t n h = absurd (omega (arith, n))
append-injective (x ∷ a) [] s t n h = absurd (omega (arith, n))
append-injective (x ∷ a) (y ∷ b) s t n h =
    let (p, q) = append-injective a b s t (omega (arith, n)) (cc) in let e : x ≡ y = cc in (cc, q)

uint32-injective : (m n : ℕ) → m < 2 ^ 32 → n < 2 ^ 32 → uint32 m ≡ uint32 n → m ≡ n
unfolding uint32
uint32-injective m n p q h =
    let e1 : m / 2 ^ 24 % 2 ^ 8 ≡ n / 2 ^ 24 % 2 ^ 8 = cc in
    let e2 : m / 2 ^ 16 % 2 ^ 8 ≡ n / 2 ^ 16 % 2 ^ 8 = cc in
    let e3 : m / 2 ^ 8 % 2 ^ 8 ≡ n / 2 ^ 8 % 2 ^ 8 = cc in
    let e4 : m % 2 ^ 8 ≡ n % 2 ^ 8 = cc in omega (arith, e1, e2, e3, e4, p, q)

uint32-length : (m n : ℕ) → length (uint32 m) ≡ length (uint32 n)
unfolding uint32
uint32-length m n = refl

-- Two key names below 2^32 bytes and two texts with the same signing message are the same: a
-- signature for one pair is none for another.
pub signing_bytes-injective :
    (a b s t : Bytes)
    → length a < 2 ^ 32
    → length b < 2 ^ 32
    → signing_bytes a s ≡ signing_bytes b t
    → (a ≡ b) × (s ≡ t)
unfolding signing_bytes
signing_bytes-injective a b s t p q h =
    let (d, h1) = append-injective signing_domain signing_domain _ _ refl h in
    let (n, h2) = append-injective _ _ _ _ (uint32-length (length a) (length b)) h1 in
    let (e, h3) = append-injective a b _ _ (uint32-injective (length a) (length b) p q n) h2 in
    let (m, f) = append-injective _ _ _ _ (uint32-length (length s) (length t)) h3 in (e, f)
