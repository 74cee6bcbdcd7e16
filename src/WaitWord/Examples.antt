-- ===== src/WaitWord/Examples.antt =====
-- Wait words of concrete fields.
use vthread.Prelude.{◌≡◌, refl, true, false, none, some, ◌||◌, returns, arith}
use vthread.WaitWord.{
  ResourceSelection, broadcast, active, claim_ready, phase, generation, has_permit, needs_recycle,
  is_closed, uses_fallback_hub, resource, with_phase, with_generation, with_permit, with_closed,
  with_fallback_hub, with_resource, selected_cause, is_claimed, is_some, cause_of, claimed_phase,
}
use vthread.WaitWord.Fields.{Fields, pack}
use vthread.WaitWord.Refinement.{queries-pack, updates-pack}

-- A wait of generation 7 that is open, active and on the fallback hub.
abbrev seventh : Fields
seventh = record {
  generation = 7;
  fallback = true;
  resource = none;
  closed = false;
  permit = false;
  phase = active;
}

seventh_word : (pack seventh).raw ≡ 3842
unfolding pack
seventh_word = refl

queries-pack_example :
    (phase (pack seventh) ≡ returns active)
    × (generation (pack seventh) ≡ 7)
    × (has_permit (pack seventh) ≡ false)
    × (is_closed (pack seventh) ≡ false)
    × (resource (pack seventh) ≡ returns none)
    × (uses_fallback_hub (pack seventh) ≡ true)
    × (needs_recycle (pack seventh) ≡ (false || is_some {A = ResourceSelection} none))
    × (selected_cause (pack seventh) ≡ returns (cause_of active))
    × (is_claimed (pack seventh) ≡ returns (claimed_phase active))
queries-pack_example = queries-pack seventh

updates-pack_example :
    (with_phase claim_ready (pack seventh) ≡ pack (record seventh { phase = claim_ready }))
    × (with_permit true (pack seventh) ≡ pack (record seventh { permit = true }))
    × (with_closed true (pack seventh) ≡ pack (record seventh { closed = true }))
    × (with_fallback_hub true (pack seventh) ≡ pack (record seventh { fallback = true }))
    × (with_resource (some broadcast) (pack seventh)
        ≡ pack (record seventh { resource = some broadcast }))
    × (with_generation 8 (pack seventh) ≡ pack (record seventh { generation = 8 }))
updates-pack_example = updates-pack seventh claim_ready true (some broadcast) 8 (omega arith)
