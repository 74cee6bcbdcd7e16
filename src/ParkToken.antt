-- ===== src/ParkToken.antt =====
-- crates/vthread-stack/src/suspension.rs, `ParkToken`: the identity of a wait and one generation of it.
use vthread.Prelude.{ℕ, Bool, ◌&&◌, ◌==◌}

pub record ParkToken : Type 0 where
  pub wait : ℕ
  pub generation : ℕ

-- The derived equality.
abbrev pub same_token : ParkToken → ParkToken → Bool
same_token a b = a.wait == b.wait && a.generation == b.generation
