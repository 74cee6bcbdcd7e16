-- ===== src/Config/Examples.antt =====
-- Builders of concrete runtimes.
use vthread.Prelude.{ℕ, ◌≡◌, refl, Bool, true, List, [], ◌∷◌, inr}
use vthread.Config.{
  RuntimeBuilder, Setting, set_carriers, set_max_vthreads, set_max_owned_scopes, default_config,
  default_builder, apply, resolved, validate, build,
}
use vthread.Config.Validation.{IsChecked, build-IsChecked}

abbrev any_time : ℕ → Bool
any_time _ = true

-- Seventeen carriers for sixteen threads.
abbrev crowded : RuntimeBuilder
crowded = apply (set_carriers 17) (apply (set_max_vthreads 16) default_builder)

default_builds : build any_time default_builder ≡ inr default_config
unfolding build validate resolved default_builder default_config
default_builds = refl

build-IsChecked_example : IsChecked any_time (resolved crowded) (build any_time crowded)
build-IsChecked_example = build-IsChecked any_time crowded

abbrev calls : List Setting
calls = set_max_owned_scopes 3 ∷ set_max_vthreads 16 ∷ []
