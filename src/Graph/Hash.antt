-- ===== src/Graph/Hash.antt =====
-- ContentHash of src/common/graph.cpp: FNV-1a over the fields as they lie in memory on the supported
-- little-endian hosts.
use Prim.Native.Nat.{bit_xor}
use cuda_edge_elimination.Base.{ℕ, zero, suc, ◌-◌, ◌/◌, ◌%◌, List, [], ◌∷◌, Bool, if◌then◌else◌}
use cuda_edge_elimination.Base.Int.{ℤ, pos, negsuc}
use cuda_edge_elimination.Base.Words.{mul64, u64_modulus}
use cuda_edge_elimination.Types.{Point, Edge, DistanceType, euc_2d, ceil_2d}
use cuda_edge_elimination.Graph.{GraphSnapshot}

abbrev fnv_prime : ℕ
fnv_prime = 1099511628211

abbrev fnv_basis : ℕ
fnv_basis = 14695981039346656037

-- HashBytes over the `size` low bytes of a value, the lowest byte first.
unfoldable pub hash_bytes : ℕ → ℕ → ℕ → ℕ
hash_bytes hash value zero = hash
hash_bytes hash value (suc size) =
    hash_bytes (mul64 (bit_xor hash (value % 256)) fnv_prime) (value / 256) size

-- The two's complement pattern of an int64_t.
abbrev pattern64 : ℤ → ℕ
pattern64 (pos n) = n % u64_modulus
pattern64 (negsuc n) = u64_modulus - 1 - n % u64_modulus

abbrev type_code : DistanceType → ℕ
type_code euc_2d = 0
type_code ceil_2d = 1

abbrev bool_code : Bool → ℕ
bool_code b = if b then 1 else 0

hash_point : Bool → ℕ → Point → ℕ
hash_point integral hash p =
    if integral
    then hash_bytes (hash_bytes hash (pattern64 p.integer_x) 8) (pattern64 p.integer_y) 8
    else hash_bytes (hash_bytes hash p.x 8) p.y 8

hash_points : Bool → ℕ → List Point → ℕ
unfolding hash_point
hash_points integral hash [] = hash
hash_points integral hash (p ∷ ps) = hash_points integral (hash_point integral hash p) ps

hash_edge : ℕ → Edge → ℕ
hash_edge hash e =
    hash_bytes (hash_bytes (hash_bytes (hash_bytes hash e.u 4) e.v 4) e.weight 8)
      (bool_code e.active) 1

hash_edges : ℕ → List Edge → ℕ
unfolding hash_edge
hash_edges hash [] = hash
hash_edges hash (e ∷ es) = hash_edges (hash_edge hash e) es

unfoldable pub content_hash : GraphSnapshot → ℕ
unfolding hash_bytes hash_points hash_edges
content_hash g =
    let header =
      hash_bytes (hash_bytes (hash_bytes fnv_basis g.dimension 4) (type_code g.distance_type) 1)
        (bool_code g.integer_coordinates) 1 in
    hash_edges (hash_points g.integer_coordinates header g.points) g.edges
