-- ===== src/HtScan/Validate.antt =====
-- HtGraphValidationBinding and ValidateHtGraph (src/cpu/hamilton_tutte.cpp): the snapshot that a scan
-- accepts. A failed check throws invalid_argument; the text of the reason is not kept.
use cuda_edge_elimination.Base.{
  ℕ, zero, suc, ◌+◌, ◌-◌, ◌*◌, Bool, true, not, ◌&&◌, ltb, leb, ◌==◌, length, get_or,
}
use cuda_edge_elimination.Base.Outcome.{Outcome, Error, throw_if}
use cuda_edge_elimination.Graph.{GraphSnapshot, has_active_edge, active_edge_count}

-- The inner loop from `offset` on, for `left` more entries; `least` is one more than `previous`.
unfoldable pub valid_neighbors : GraphSnapshot → ℕ → ℕ → ℕ → ℕ → Bool
valid_neighbors g node offset zero least = true
valid_neighbors g node offset (suc left) least =
    let neighbor = get_or g.neighbors offset 0 in
    leb least neighbor
    && (ltb neighbor g.dimension
        && (not (neighbor == node)
            && (has_active_edge g neighbor node
                && valid_neighbors g node (suc offset) left (suc neighbor))))

-- The outer loop from `node` on, for `left` more vertices.
unfoldable pub valid_rows : GraphSnapshot → ℕ → ℕ → Bool
unfolding valid_neighbors
valid_rows g node zero = true
valid_rows g node (suc left) =
    let begin = get_or g.row_offsets node 0 in
    let end = get_or g.row_offsets (suc node) 0 in
    leb begin end
    && (leb end (length g.neighbors)
        && (valid_neighbors g node begin (end - begin) 0 && valid_rows g (suc node) left))

-- The size checks before the loops, and the loops.
unfoldable pub validate_ht_graph : GraphSnapshot → Bool
unfolding valid_rows
validate_ht_graph g =
    g.integer_coordinates
    && (g.integer_distance_safe
        && (leb 4 g.dimension
            && (length g.points == g.dimension
                && (length g.row_offsets == g.dimension + 1
                    && (get_or g.row_offsets 0 0 == 0
                        && (get_or g.row_offsets g.dimension 0 == length g.neighbors
                            && (length g.neighbors == 2 * active_edge_count g.edges
                                && valid_rows g 0 g.dimension)))))))

unfoldable pub bind_ht_graph : GraphSnapshot → Outcome (Unit {0})
unfolding validate_ht_graph
bind_ht_graph g = throw_if (not (validate_ht_graph g)) Error.invalid_argument
