-- ===== src/TaskKey/Codec.antt =====
-- The packing of task keys (crates/vthread/src/task_slab.rs, `TaskKey`).
use vthread.Prelude.{ℕ, ◌+◌, ◌*◌, ◌≤◌, ◌<◌, ◌≡◌, Bool, true, false, returns, panics, arith}
use vthread.TaskKey.{TaskKey, usize_values, flag, encode, index, is_borrowed, encoded, from_encoded}

-- Every index and flag whose packing fits the machine word is encoded, and both come back.
pub encode_roundtrip :
    (i : ℕ) (b : Bool)
    → (i + 1) * 2 + flag b < usize_values
    → (key : TaskKey) × (encode i b ≡ returns key) × (index key ≡ i) × (is_borrowed key ≡ b)
unfolding encode index is_borrowed
encode_roundtrip i true h =
    (record { word = (i + 1) * 2 + 1 }, ground arith, ground arith, ground arith)
encode_roundtrip i false h =
    (record { word = (i + 1) * 2 + 0 }, ground arith, ground arith, ground arith)

-- A packing past the machine word panics, and nothing else does.
pub encode-panics : (i : ℕ) (b : Bool) → usize_values ≤ (i + 1) * 2 + flag b → encode i b ≡ panics
unfolding encode
encode-panics i true h = ground arith
encode-panics i false h = ground arith

-- Two keys agree only when index and flag agree.
pub encode_injective :
    (i j : ℕ) (b c : Bool) (key : TaskKey)
    → encode i b ≡ returns key
    → encode j c ≡ returns key
    → (i ≡ j) × (b ≡ c)
unfolding encode
encode_injective i j true true key p q = ground arith
encode_injective i j true false key p q = ground arith
encode_injective i j false true key p q = ground arith
encode_injective i j false false key p q = ground arith

-- The word of a key is read back as the same key.
from_encoded-encoded :
    (i : ℕ) (b : Bool) (key : TaskKey)
    → encode i b ≡ returns key
    → from_encoded (encoded key) ≡ returns key
unfolding encode encoded from_encoded
from_encoded-encoded i true key h = ground arith
from_encoded-encoded i false key h = ground arith
