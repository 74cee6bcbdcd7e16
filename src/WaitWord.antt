-- ===== src/WaitWord.antt =====
-- crates/vthread/src/wait_state.rs: the 64-bit word that encodes one reusable wait generation.
-- Masks of adjacent bits are written by division and remainder: `x & 0x0f` is `x % 16`, and
-- `(x & !mask) | (v << shift)` is `put_bits low width v x`, with `low` and `width` powers of two.
pub mod Fields
pub mod Packing
pub mod Refinement
mod Examples
use vthread.Prelude.{
  ℕ, ◌+◌, ◌-◌, ◌*◌, ◌/◌, ◌%◌, ◌^◌, ◌≤◌, ◌≡◌, Bool, true, false, not, ◌||◌, Option, none, some, ltb,
  leb, ◌==◌, if◌then◌else◌, Outcome, returns, panics, ◌>>=◌,
}

-- `WakeCause` of crates/vthread/src/wait.rs.
pub data WakeCause : Type 0 where
  ready timed_out cancelled inherited_cancelled closed : WakeCause

-- `ResourceSelection` of crates/vthread/src/wait_select.rs.
pub data ResourceSelection : Type 0 where
  permit broadcast : ResourceSelection

pub data Phase : Type 0 where
  idle binding active : Phase
  claim_ready selected_ready claim_timed_out selected_timed_out : Phase
  claim_cancelled selected_cancelled : Phase
  claim_inherited_cancelled selected_inherited_cancelled : Phase
  claim_closed selected_closed : Phase

-- The discriminants.
abbrev pub phase_code : Phase → ℕ
phase_code idle = 0
phase_code binding = 1
phase_code active = 2
phase_code claim_ready = 3
phase_code selected_ready = 4
phase_code claim_timed_out = 5
phase_code selected_timed_out = 6
phase_code claim_cancelled = 7
phase_code selected_cancelled = 8
phase_code claim_inherited_cancelled = 9
phase_code selected_inherited_cancelled = 10
phase_code claim_closed = 11
phase_code selected_closed = 12

pub record WaitWord : Type 0 where
  pub raw : ℕ

abbrev pub put_bits : ℕ → ℕ → ℕ → ℕ → ℕ
put_bits low width v x = x / (low * width) * (low * width) + v * low + x % low

abbrev pub get_bits : ℕ → ℕ → ℕ → ℕ
get_bits low width x = x / low % width

-- The masks' places: the value of the lowest bit, and the number of values of the field.
abbrev pub permit_bit : ℕ
permit_bit = 2 ^ 4

abbrev pub closed_bit : ℕ
closed_bit = 2 ^ 5

abbrev pub resource_low : ℕ
resource_low = 2 ^ 6

abbrev pub fallback_bit : ℕ
fallback_bit = 2 ^ 8

abbrev pub generation_low : ℕ
generation_low = 2 ^ 9

-- `u64::MAX >> GENERATION_SHIFT`
abbrev pub max_generation : ℕ
max_generation = 2 ^ 55 - 1

unfoldable pub initial : WaitWord
initial = record { raw = 0 }

-- The `match` on the low four bits.
unfoldable pub decode_phase : ℕ → Outcome Phase
decode_phase code =
    if code == 0
    then returns idle
    else if code == 1
    then returns binding
    else if code == 2
    then returns active
    else if code == 3
    then returns claim_ready
    else if code == 4
    then returns selected_ready
    else if code == 5
    then returns claim_timed_out
    else if code == 6
    then returns selected_timed_out
    else if code == 7
    then returns claim_cancelled
    else if code == 8
    then returns selected_cancelled
    else if code == 9
    then returns claim_inherited_cancelled
    else if code == 10
    then returns selected_inherited_cancelled
    else if code == 11
    then returns claim_closed
    else if code == 12
    then returns selected_closed
    else panics

unfoldable pub phase : WaitWord → Outcome Phase
unfolding decode_phase
phase w = decode_phase (w.raw % 16)

unfoldable pub generation : WaitWord → ℕ
generation w = w.raw / generation_low

unfoldable pub has_permit : WaitWord → Bool
has_permit w = not (get_bits permit_bit 2 w.raw == 0)

unfoldable pub needs_recycle : WaitWord → Bool
needs_recycle w = not (get_bits permit_bit 2 w.raw == 0) || not (get_bits resource_low 4 w.raw == 0)

unfoldable pub is_closed : WaitWord → Bool
is_closed w = not (get_bits closed_bit 2 w.raw == 0)

unfoldable pub uses_fallback_hub : WaitWord → Bool
uses_fallback_hub w = not (get_bits fallback_bit 2 w.raw == 0)

unfoldable pub decode_resource : ℕ → Outcome (Option ResourceSelection)
decode_resource code =
    if code == 0
    then returns none
    else if code == 1
    then returns (some permit)
    else if code == 2
    then returns (some broadcast)
    else panics

unfoldable pub resource : WaitWord → Outcome (Option ResourceSelection)
unfolding decode_resource
resource w = decode_resource (get_bits resource_low 4 w.raw)

abbrev pub cause_of : Phase → Option WakeCause
cause_of selected_ready = some ready
cause_of selected_timed_out = some timed_out
cause_of selected_cancelled = some cancelled
cause_of selected_inherited_cancelled = some inherited_cancelled
cause_of selected_closed = some closed
cause_of _ = none

unfoldable pub selected_cause : WaitWord → Outcome (Option WakeCause)
selected_cause w = do p ← phase w; returns (cause_of p)

abbrev pub claimed_phase : Phase → Bool
claimed_phase claim_ready = true
claimed_phase claim_timed_out = true
claimed_phase claim_cancelled = true
claimed_phase claim_inherited_cancelled = true
claimed_phase claim_closed = true
claimed_phase _ = false

unfoldable pub is_claimed : WaitWord → Outcome Bool
is_claimed w = do p ← phase w; returns (claimed_phase p)

unfoldable pub with_phase : Phase → WaitWord → WaitWord
with_phase p w = record { raw = put_bits 1 16 (phase_code p) w.raw }

-- The shift drops what leaves the 64-bit word. The assertion of debug builds is left out.
unfoldable pub with_generation : ℕ → WaitWord → WaitWord
with_generation g w = record { raw = w.raw % generation_low + g * generation_low % 2 ^ 64 }

abbrev pub bit : Bool → ℕ
bit true = 1
bit false = 0

unfoldable pub with_permit : Bool → WaitWord → WaitWord
with_permit b w = record { raw = put_bits permit_bit 2 (bit b) w.raw }

unfoldable pub with_closed : Bool → WaitWord → WaitWord
with_closed b w = record { raw = put_bits closed_bit 2 (bit b) w.raw }

unfoldable pub with_fallback_hub : Bool → WaitWord → WaitWord
with_fallback_hub b w = record { raw = put_bits fallback_bit 2 (bit b) w.raw }

abbrev pub resource_code : Option ResourceSelection → ℕ
resource_code none = 0
resource_code (some permit) = 1
resource_code (some broadcast) = 2

unfoldable pub with_resource : Option ResourceSelection → WaitWord → WaitWord
with_resource r w = record { raw = put_bits resource_low 4 (resource_code r) w.raw }

abbrev pub claim_phase : WakeCause → Phase
claim_phase ready = claim_ready
claim_phase timed_out = claim_timed_out
claim_phase cancelled = claim_cancelled
claim_phase inherited_cancelled = claim_inherited_cancelled
claim_phase closed = claim_closed

unfoldable pub claimed : WakeCause → WaitWord → WaitWord
claimed cause w = with_phase (claim_phase cause) w

abbrev pub published_phase : Phase → Outcome Phase
published_phase claim_ready = returns selected_ready
published_phase claim_timed_out = returns selected_timed_out
published_phase claim_cancelled = returns selected_cancelled
published_phase claim_inherited_cancelled = returns selected_inherited_cancelled
published_phase claim_closed = returns selected_closed
published_phase _ = panics

unfoldable pub publish_claim : WaitWord → Outcome WaitWord
publish_claim w = do p ← phase w; q ← published_phase p; returns (with_phase q w)

unfoldable pub retire : WaitWord → WaitWord
retire w = with_fallback_hub false (with_phase idle w)

-- The test of `resource_offer`, `matches!(self.phase(), Phase::Idle | Phase::Active)` negated.
abbrev pub refuses_offer : Phase → Bool
refuses_offer idle = false
refuses_offer active = false
refuses_offer _ = true

abbrev pub is_active : Phase → Bool
is_active active = true
is_active _ = false

abbrev pub is_some : {A : Type 0} → Option A → Bool
is_some none = false
is_some (some a) = true

unfoldable pub resource_offer : ResourceSelection → WaitWord → Outcome (Option WaitWord)
resource_offer selection w = do
  p ← phase w
  r ← resource w
  let offered = with_resource (some selection) w
  returns (
      if is_closed w || refuses_offer p || has_permit w || is_some r
      then none
      else some (if is_active p then claimed ready offered else with_permit true offered))

abbrev pub is_binding : Phase → Bool
is_binding binding = true
is_binding _ = false

unfoldable pub resource_take : WaitWord → Outcome (Option (WaitWord × ResourceSelection))
resource_take w = do
  p ← phase w
  r ← resource w
  returns (
      if is_binding p || claimed_phase p
      then none
      else elim r [ none ↦ none | some selection ↦ some (with_resource none w, selection) ])
