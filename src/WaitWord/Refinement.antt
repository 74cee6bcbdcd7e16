-- ===== src/WaitWord/Refinement.antt =====
-- The operations on a wait word implement those on its fields
-- (crates/vthread/src/wait_state.rs).
use vthread.Prelude.{
  ℕ, ◌≤◌, ◌<◌, ◌^◌, ◌≡◌, refl, Bool, true, false, Option, none, some, Outcome, returns, panics,
  ◌||◌, arith, ◌>>=◌, ap, ◌∙◌, if◌then◌else◌,
}
use mathlib.Core.Option
use vthread.WaitWord.{
  ResourceSelection, WakeCause, Phase, WaitWord, max_generation, phase, generation, has_permit,
  needs_recycle, is_closed, uses_fallback_hub, resource, with_phase, idle, ready, with_generation,
  with_permit, with_closed, with_fallback_hub, with_resource, claimed, retire, publish_claim,
  published_phase, claim_phase, resource_offer, resource_take, selected_cause, is_claimed, is_some,
  cause_of, claimed_phase, is_active, refuses_offer, is_binding,
}
use vthread.WaitWord.Fields.{
  Fields, pack, claim_fields, publish_fields, retire_fields, offer_fields, take_fields,
}
use vthread.WaitWord.Packing.{
  phase-pack, resource-pack, generation-pack, has_permit-pack, is_closed-pack,
  uses_fallback_hub-pack, needs_recycle-pack, with_phase-pack, with_permit-pack, with_closed-pack,
  with_fallback_hub-pack, with_resource-pack, with_generation-pack, small,
}

-- Every query of a packed word reads its field, and none reaches an unreachable branch.
pub queries-pack :
    (f : Fields)
    → (phase (pack f) ≡ returns f.phase)
      × (generation (pack f) ≡ f.generation)
      × (has_permit (pack f) ≡ f.permit)
      × (is_closed (pack f) ≡ f.closed)
      × (resource (pack f) ≡ returns f.resource)
      × (uses_fallback_hub (pack f) ≡ f.fallback)
      × (needs_recycle (pack f) ≡ (f.permit || is_some f.resource))
      × (selected_cause (pack f) ≡ returns (cause_of f.phase))
      × (is_claimed (pack f) ≡ returns (claimed_phase f.phase))
unfolding selected_cause is_claimed
queries-pack f = (
  phase-pack f,
  generation-pack f,
  has_permit-pack f,
  is_closed-pack f,
  resource-pack f,
  uses_fallback_hub-pack f,
  needs_recycle-pack f,
  rw (phase-pack f),
  rw (phase-pack f),
)

-- Every update of a packed word sets its own field and leaves the five others.
pub updates-pack :
    (f : Fields) (p : Phase) (b : Bool) (r : Option ResourceSelection) (g : ℕ)
    → g ≤ max_generation
    → (with_phase p (pack f) ≡ pack (record f { phase = p }))
      × (with_permit b (pack f) ≡ pack (record f { permit = b }))
      × (with_closed b (pack f) ≡ pack (record f { closed = b }))
      × (with_fallback_hub b (pack f) ≡ pack (record f { fallback = b }))
      × (with_resource r (pack f) ≡ pack (record f { resource = r }))
      × (with_generation g (pack f) ≡ pack (record f { generation = g }))
updates-pack f p b r g h = (
  with_phase-pack f p,
  with_permit-pack f b,
  with_closed-pack f b,
  with_fallback_hub-pack f b,
  with_resource-pack f r,
  with_generation-pack f g h,
)

-- A word of fields whose generation is at most the maximum fits 64 bits.
pack_fits : (f : Fields) → f.generation ≤ max_generation → (pack f).raw < 2 ^ 64
unfolding pack
pack_fits f h = omega (arith, small f)

-- Claims, publications and retirements change the phase as the fields say; publishing an unclaimed
-- word panics in both views.
transitions-pack :
    (f : Fields) (cause : WakeCause)
    → (claimed cause (pack f) ≡ pack (claim_fields cause f))
      × (publish_claim (pack f) ≡ (do g ← publish_fields f; returns (pack g)))
      × (retire (pack f) ≡ pack (retire_fields f))
unfolding claimed publish_claim retire
transitions-pack f cause = (
  with_phase-pack f (claim_phase cause),
  rw (phase-pack f) (publishes (published_phase f.phase)),
  ap (with_fallback_hub false) (with_phase-pack f idle)
      ∙ with_fallback_hub-pack (record f { phase = idle }) false,
)
  where
    publishes :
        (o : Outcome Phase)
        → (do q ← o; returns (with_phase q (pack f)))
          ≡ (do g ← (do q ← o; returns (record f { phase = q })); returns (pack g))
    publishes (returns q) = ap returns (with_phase-pack f q)
    publishes panics = refl

-- A resource offer to a packed word is the offer to its fields: same refusals, same new word.
resource_offer-pack :
    (f : Fields) (selection : ResourceSelection)
    → resource_offer selection (pack f) ≡ returns (Option.map pack (offer_fields selection f))
unfolding resource_offer claimed
resource_offer-pack f selection =
    rw
      (
        phase-pack f,
        resource-pack f,
        is_closed-pack f,
        has_permit-pack f,
        with_resource-pack f (some selection),
        with_phase-pack (record f { resource = some selection }) (claim_phase ready),
        with_permit-pack (record f { resource = some selection }) true,
      )
      (ap returns (
        offers (f.closed || refuses_offer f.phase || f.permit || is_some f.resource)
          (is_active f.phase)))
  where
    offers :
        (refused active : Bool)
        → (if refused
            then none
            else some (
                if active
                then pack (record f { resource = some selection; phase = claim_phase ready })
                else pack (record f { resource = some selection; permit = true })))
          ≡ Option.map pack (
              if refused
              then none
              else if active
              then some (record f { resource = some selection; phase = claim_phase ready })
              else some (record f { resource = some selection; permit = true }))
    offers true active = refl
    offers false true = refl
    offers false false = refl

-- Taking a resource from a packed word takes it from its fields, and never from a claimed or
-- binding generation.
resource_take-pack :
    (f : Fields)
    → resource_take (pack f) ≡ returns (Option.map (λ t. (pack t.0, t.1)) (take_fields f))
unfolding resource_take
resource_take-pack f =
    rw (phase-pack f, resource-pack f)
      (ap returns (takes (is_binding f.phase || claimed_phase f.phase) f.resource))
  where
    takes :
        (busy : Bool) (r : Option ResourceSelection)
        → if◌then◌else◌ {A = Option (WaitWord × ResourceSelection)} busy none (elim r [
          | none ↦ none
          | some selection ↦ some (with_resource none (pack f), selection)
        ])
          ≡ Option.map
              (λ (t : Fields × ResourceSelection). (pack t.0, t.1))
              (if◌then◌else◌ {A = Option (Fields × ResourceSelection)} busy none (elim r [
                | none ↦ none
                | some selection ↦ some (record f { resource = none }, selection)
              ]))
    takes true r = refl
    takes false none = refl
    takes false (some selection) =
        ap (λ (w : WaitWord). some (w, selection)) (with_resource-pack f none)
