-- ===== src/TaskKey/Examples.antt =====
-- Task keys at concrete indices.
use vthread.Prelude.{◌≡◌, refl, true, returns, arith}
use vthread.TaskKey.{TaskKey, encode, index, is_borrowed}
use vthread.TaskKey.Codec.{encode_roundtrip}

-- The key of slot 3, borrowed.
abbrev fourth : TaskKey
fourth = record { word = 9 }

encode-fourth : encode 3 true ≡ returns fourth
unfolding encode
encode-fourth = refl

encode_roundtrip_example :
    (key : TaskKey) × (encode 3 true ≡ returns key) × (index key ≡ 3) × (is_borrowed key ≡ true)
encode_roundtrip_example = encode_roundtrip 3 true (omega arith)
