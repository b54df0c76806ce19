-- ===== src/Ring/Examples.antt =====
-- The theorem on CircularBuffer at a ring of three values.
use ruptura.Base.{ℕ, ◌≡◌, [], ◌∷◌, arith}
use ruptura.Ring.{new_circular_buffer, contents}
use ruptura.Ring.Contents.{push_all, contents-push_all}

contents-push_all_example :
    contents {A = ℕ} (push_all (new_circular_buffer 0 3) (5 ∷ 6 ∷ 7 ∷ 8 ∷ [])) ≡ 6 ∷ 7 ∷ 8 ∷ []
contents-push_all_example = contents-push_all 0 3 (5 ∷ 6 ∷ 7 ∷ 8 ∷ []) (omega arith)
