-- ===== src/TimeUuid/Layout.antt =====
-- timeuuid.go: the fields of RFC 4122 in a time uuid.
use zdm_proxy.Prelude.{ℕ, ◌+◌, ◌*◌, ◌/◌, ◌%◌, ◌≡◌, refl, List, [], ◌∷◌, arith}
use zdm_proxy.Parameters.{Uuid}
use zdm_proxy.TimeUuid.{new_time_uuid}

-- The timestamp, the version, the variant's two bits, the clock sequence and the node.
abbrev pub time_of : Uuid → ℕ
time_of (a ∷ b ∷ c ∷ d ∷ e ∷ f ∷ g ∷ h ∷ rest) =
    (g % 16 * 256 + h) * 281474976710656
    + (e * 256 + f) * 4294967296
    + (a * 16777216 + b * 65536 + c * 256 + d)
time_of _ = 0

abbrev pub version_of : Uuid → ℕ
version_of (a ∷ b ∷ c ∷ d ∷ e ∷ f ∷ g ∷ rest) = g / 16
version_of _ = 0

abbrev pub variant_of : Uuid → ℕ
variant_of (a ∷ b ∷ c ∷ d ∷ e ∷ f ∷ g ∷ h ∷ i ∷ rest) = i / 64
variant_of _ = 0

abbrev pub clock_seq_of : Uuid → ℕ
clock_seq_of (a ∷ b ∷ c ∷ d ∷ e ∷ f ∷ g ∷ h ∷ i ∷ j ∷ rest) = i % 64 * 256 + j
clock_seq_of _ = 0

abbrev pub node_of : Uuid → List ℕ
node_of (a ∷ b ∷ c ∷ d ∷ e ∷ f ∷ g ∷ h ∷ i ∷ j ∷ rest) = rest
node_of _ = []

four_bytes :
    (x : ℕ)
    → x / 16777216 % 256 * 16777216 + x / 65536 % 256 * 65536 + x / 256 % 256 * 256 + x % 256
      ≡ x % 4294967296
four_bytes x = omega arith

two_bytes : (x : ℕ) → x / 256 % 256 * 256 + x % 256 ≡ x % 65536
two_bytes x = omega arith

high_bytes : (x : ℕ) → (x / 256 % 256 % 16 + 16) % 16 * 256 + x % 256 ≡ x % 4096
high_bytes x = omega arith

-- A time uuid has the version 1 and the variant of RFC 4122, the low 60 bits of the timestamp, the low 14
-- of the clock sequence, and the node.
pub time_uuid_fields :
    (now seq : ℕ) (node : List ℕ)
    → let u = new_time_uuid now seq node in
      (time_of u ≡ now % 1152921504606846976)
      × (version_of u ≡ 1)
      × (variant_of u ≡ 2)
      × (clock_seq_of u ≡ seq % 16384)
      × (node_of u ≡ node)
unfolding new_time_uuid
time_uuid_fields now seq node =
    let low = now % 4294967296 in
    let mid = now / 4294967296 % 65536 in
    let hi = now / 281474976710656 % 4096 in
    (
      omega (arith, four_bytes low, two_bytes mid, high_bytes hi),
      omega arith,
      omega arith,
      omega arith,
      refl,
    )
