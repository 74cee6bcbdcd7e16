-- ===== src/TaskSlab/Examples.antt =====
-- A slab of numbers.
use vthread.Prelude.{ℕ, ◌≡◌, ◌⊎◌, none, some, returns}
use vthread.TaskSlab.{TaskSlab, new, insert, get, remove}
use vthread.TaskSlab.Laws.{IsValid, Inserted, Freed, new-IsValid, insert-Inserted, remove_cases}

-- A slab after two insertions and the removal of the first.
abbrev first_insert :
    (index : ℕ) × (s' : TaskSlab ℕ) × (insert 11 new ≡ returns (index, s'))
    × Inserted 11 new index s'
first_insert = insert-Inserted 11 new new-IsValid

abbrev one : TaskSlab ℕ
one = first_insert.1

abbrev one-IsValid : IsValid one
one-IsValid = first_insert.3.valid

insert-Inserted_example :
    (index : ℕ) × (s' : TaskSlab ℕ) × (insert 12 one ≡ returns (index, s'))
    × Inserted 12 one index s'
insert-Inserted_example = insert-Inserted 12 one one-IsValid

remove_cases_example :
    ((remove 0 one).0 ≡ get 0 one)
    × (((get 0 one ≡ none) × ((remove 0 one).1 ≡ one))
        ⊎ ((value : ℕ) × (get 0 one ≡ some value) × Freed 0 one (remove 0 one).1))
remove_cases_example = remove_cases 0 one one-IsValid
