-- ===== src/VariableGroupNode/Kept.antt =====
-- The events that create groups, as a VariableGroupNode keeps them
-- (GameConn/VariableGroupNode.cpp).
use anger.Common.{ℕ, ◌≡◌, ◌&&◌, List, [], ◌∷◌, arith, if◌then◌else◌, Bool-cases, ◌==◌}
use anger.VariableGroupNode.State.{BufferedGroup, Environment, erase_buffered}

-- The events that are kept for a group, in their order, and what is behind the first one.
unfoldable pub kept_events : ℕ → List BufferedGroup → List (List ℕ)
kept_events id [] = []
kept_events id ((j, bytes) ∷ buffered) =
    let rest = kept_events id buffered in if j == id then bytes ∷ rest else rest

abbrev pub behind_first : List (List ℕ) → List (List ℕ)
behind_first [] = []
behind_first (x ∷ xs) = xs

kept_events-erase_buffered :
    (j id : ℕ) (buffered : List BufferedGroup)
    → kept_events j (erase_buffered id buffered)
      ≡ (if j == id then behind_first (kept_events j buffered) else kept_events j buffered)
unfolding kept_events erase_buffered
kept_events-erase_buffered j id [] = ground arith
kept_events-erase_buffered j id ((i, bytes) ∷ buffered) =
    ground (arith, kept_events-erase_buffered j id buffered)

pub kept_events-relayed :
    (env : Environment) (j id : ℕ) (buffered : List BufferedGroup)
    → kept_events j (if env.is_authorative then erase_buffered id buffered else buffered) ≡ (
        if (j == id) && env.is_authorative
        then behind_first (kept_events j buffered)
        else kept_events j buffered)
kept_events-relayed env j id buffered =
    ground (arith, kept_events-erase_buffered j id buffered, Bool-cases env.is_authorative)
