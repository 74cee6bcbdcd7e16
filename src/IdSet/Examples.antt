-- ===== src/IdSet/Examples.antt =====
-- Sets of concrete identities.
use vthread.Prelude.{ℕ, ◌≡◌, refl, true, [], ◌∷◌, arith, inl, inr, Occurs}
use vthread.IdSet.{IdSet, one, many, insert, remove, compact}
use vthread.IdSet.Laws.{IsCompact, Inserts, Removes, insert-Inserts, remove-Removes}

abbrev pair : IdSet
pair = many (5 ∷ 3 ∷ [])

five_new : Occurs {A = ℕ} 5 (3 ∷ []) → ⊥
five_new (inl e) = omega arith
five_new (inr o) = o

pair-IsCompact : IsCompact pair
pair-IsCompact = (omega arith, (five_new, ((λ o. o), tt)))

-- A removal from a table of two leaves a single identity.
remove_five : remove 5 pair ≡ (true, one 3)
unfolding remove compact
remove_five = refl

insert-Inserts_example : Inserts 8 pair (insert 8 pair).0 (insert 8 pair).1
insert-Inserts_example = insert-Inserts 8 pair pair-IsCompact

remove-Removes_example : Removes 5 pair (remove 5 pair).0 (remove 5 pair).1
remove-Removes_example = remove-Removes 5 pair pair-IsCompact
