-- ===== src/WaitWord/Packing.antt =====
-- The packed word implements its fields: every query reads one field, every update changes one.
use vthread.Prelude.{
  ℕ, ◌≤◌, ◌<◌, ◌≡◌, refl, Bool, true, false, Option, none, some, returns, arith, ap, ◌∙◌, ◌%◌, ◌||◌,
}
use vthread.WaitWord.{
  ResourceSelection, permit, broadcast, Phase, phase_code, max_generation, bit, resource_code,
  phase, generation, has_permit, needs_recycle, is_closed, decode_phase, decode_resource, get_bits,
  resource_low, is_some, uses_fallback_hub, resource, with_phase, with_generation, with_permit,
  with_closed, with_fallback_hub, with_resource,
}
use vthread.WaitWord.Fields.{Fields, pack}

phase_code-lt : (p : Phase) → phase_code p < 13
phase_code-lt p = ground arith

resource_code-lt : (r : Option ResourceSelection) → resource_code r < 3
resource_code-lt none = omega arith
resource_code-lt (some permit) = omega arith
resource_code-lt (some broadcast) = omega arith

bit-lt : (b : Bool) → bit b < 2
bit-lt true = omega arith
bit-lt false = omega arith

decode-phase_code : (p : Phase) → decode_phase (phase_code p) ≡ returns p
unfolding decode_phase
decode-phase_code Phase.idle = refl
decode-phase_code Phase.binding = refl
decode-phase_code Phase.active = refl
decode-phase_code Phase.claim_ready = refl
decode-phase_code Phase.selected_ready = refl
decode-phase_code Phase.claim_timed_out = refl
decode-phase_code Phase.selected_timed_out = refl
decode-phase_code Phase.claim_cancelled = refl
decode-phase_code Phase.selected_cancelled = refl
decode-phase_code Phase.claim_inherited_cancelled = refl
decode-phase_code Phase.selected_inherited_cancelled = refl
decode-phase_code Phase.claim_closed = refl
decode-phase_code Phase.selected_closed = refl

decode-resource_code :
    (r : Option ResourceSelection) → decode_resource (resource_code r) ≡ returns r
unfolding decode_resource
decode-resource_code none = refl
decode-resource_code (some permit) = refl
decode-resource_code (some broadcast) = refl

module _ (f : Fields) where
  pub record Small : Type 0 where
    pub p : phase_code f.phase < 13
    pub r : resource_code f.resource < 3
    pub c : bit f.closed < 2
    pub m : bit f.permit < 2
    pub h : bit f.fallback < 2

  pub small : Small
  small = record {
    p = phase_code-lt f.phase;
    r = resource_code-lt f.resource;
    c = bit-lt f.closed;
    m = bit-lt f.permit;
    h = bit-lt f.fallback;
  }

  pub phase-pack : phase (pack f) ≡ returns f.phase
  unfolding phase pack
  phase-pack =
      let low : (pack f).raw % 16 ≡ phase_code f.phase = omega (arith, small) in
      ap decode_phase low ∙ decode-phase_code f.phase

  pub resource-pack : resource (pack f) ≡ returns f.resource
  unfolding resource pack
  resource-pack =
      let middle : get_bits resource_low 4 (pack f).raw ≡ resource_code f.resource =
        omega (arith, small) in
      ap decode_resource middle ∙ decode-resource_code f.resource

  pub generation-pack : generation (pack f) ≡ f.generation
  unfolding generation pack
  generation-pack = omega (arith, small)

  pub has_permit-pack : has_permit (pack f) ≡ f.permit
  unfolding has_permit pack
  has_permit-pack = ground (arith, small)

  pub is_closed-pack : is_closed (pack f) ≡ f.closed
  unfolding is_closed pack
  is_closed-pack = ground (arith, small)

  pub uses_fallback_hub-pack : uses_fallback_hub (pack f) ≡ f.fallback
  unfolding uses_fallback_hub pack
  uses_fallback_hub-pack = ground (arith, small)

  pub needs_recycle-pack : needs_recycle (pack f) ≡ (f.permit || is_some f.resource)
  unfolding needs_recycle pack
  needs_recycle-pack = ground (arith, small)

  pub with_phase-pack : (p : Phase) → with_phase p (pack f) ≡ pack (record f { phase = p })
  unfolding with_phase pack
  with_phase-pack p = ground (arith, small)

  pub with_permit-pack : (b : Bool) → with_permit b (pack f) ≡ pack (record f { permit = b })
  unfolding with_permit pack
  with_permit-pack b = ground (arith, small)

  pub with_closed-pack : (b : Bool) → with_closed b (pack f) ≡ pack (record f { closed = b })
  unfolding with_closed pack
  with_closed-pack b = ground (arith, small)

  pub with_fallback_hub-pack :
      (b : Bool) → with_fallback_hub b (pack f) ≡ pack (record f { fallback = b })
  unfolding with_fallback_hub pack
  with_fallback_hub-pack b = ground (arith, small)

  pub with_resource-pack :
      (r : Option ResourceSelection) → with_resource r (pack f) ≡ pack (record f { resource = r })
  unfolding with_resource pack
  with_resource-pack r = ground (arith, small)

  pub with_generation-pack :
      (g : ℕ) → g ≤ max_generation → with_generation g (pack f) ≡ pack (record f { generation = g })
  unfolding with_generation pack
  with_generation-pack g h = ground (arith, small)
