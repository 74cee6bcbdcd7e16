-- ===== src/WaitCell/Protocol.antt =====
-- Everybody who shares a wait: its owner, and the selectors, notifiers, closers and resource holders
-- of other carriers, one exchange of the word at a time (crates/vthread/src/wait_*.rs).
use vthread.Prelude.{ℕ, Bool, true, false, ◌≡◌, Option, none, List, [], ◌∷◌, ◌++◌, returns}
use vthread.WaitWord.{WakeCause, ResourceSelection, idle}
use vthread.WaitWord.Fields.{Fields}
use vthread.WaitCell.{
  Answer, selects, binds, Attempt, exchanges, begin, bound, notify, select_current,
  select_generation, close, claim_resource, take_resource, recycle, reset_closed_gate, finish,
  finish_permit, finish_ready, finish_permit_ready, retire, publication, try_retire, publish_claim,
}

-- A call of one of the operations.
pub data Call : Type 0 where
  begins : Bool → Option Bool → Call
  notifies closes takes_resource recycles resets : Call
  selects_current : WakeCause → Call
  selects_generation : ℕ → WakeCause → Call
  offers : ResourceSelection → Call
  finishes finishes_permit finishes_permit_ready retires asks : ℕ → Call
  finishes_ready : ℕ → Option ResourceSelection → Call

unfoldable pub attempt : Call → Fields → Attempt
attempt (begins late cached) f = begin late cached f
attempt notifies f = notify f
attempt closes f = close f
attempt takes_resource f = take_resource f
attempt recycles f = recycle f
attempt resets f = reset_closed_gate f
attempt (selects_current cause) f = select_current cause f
attempt (selects_generation generation cause) f = select_generation generation cause f
attempt (offers selection) f = claim_resource selection f
attempt (finishes generation) f = finish generation f
attempt (finishes_permit generation) f = finish_permit generation f
attempt (finishes_permit_ready generation) f = finish_permit_ready generation f
attempt (retires generation) f = retire generation f
attempt (asks generation) f = publication generation f
attempt (finishes_ready generation resource) f = finish_ready generation resource f

-- A claim that its selector has still to publish, and whether the notice is in the wake queue.
pub record Claim : Type 0 where
  pub word : Fields
  pub cause : WakeCause
  pub noticed : Bool

-- The word, the claims, the binders' words between their exchange and their store, and the notices
-- that went to the wake queue, the newest first: a generation and its cause.
pub record System : Type 0 where
  pub word : Fields
  pub claims : List Claim
  pub binders : List Fields
  pub notices : List (ℕ × WakeCause)

unfoldable pub start : System
start = record {
  word = record {
    generation = 0;
    fallback = false;
    resource = none;
    closed = false;
    permit = false;
    phase = idle;
  };
  claims = [];
  binders = [];
  notices = [];
}

-- What an exchange leaves to its caller.
unfoldable pub claims_after : Answer → Fields → List Claim → List Claim
claims_after (selects cause) next claims =
    record { word = next; cause = cause; noticed = false } ∷ claims
claims_after _ next claims = claims

unfoldable pub binders_after : Answer → Fields → List Fields → List Fields
binders_after (binds generation) next binders = next ∷ binders
binders_after _ next binders = binders

pub data Step (s : System) : System → Type 0 where
  exchange :
      (call : Call) (next : Fields) (answer : Answer)
      → attempt call s.word ≡ exchanges next answer
      → Step s (record s {
        word = next;
        claims = claims_after answer next s.claims;
        binders = binders_after answer next s.binders;
      })
  -- `try_retire` is the owner's exchange that may panic.
  abandon :
      (generation : ℕ) (next : Fields) (answer : Answer)
      → try_retire generation s.word ≡ returns (exchanges next answer)
      → Step s (record s { word = next })
  bind :
      (fallback : Bool) (f : Fields) (before behind : List Fields)
      → s.binders ≡ before ++ f ∷ behind
      → Step s (record s { word = bound fallback f; binders = before ++ behind })
  enqueue :
      (c : Claim) (before behind : List Claim)
      → s.claims ≡ before ++ c ∷ behind
      → c.noticed ≡ false
      → Step s (record s {
        claims = before ++ record c { noticed = true } ∷ behind;
        notices = (c.word.generation, c.cause) ∷ s.notices;
      })
  publish :
      (c : Claim) (before behind : List Claim) (signalled : Bool) (next : Fields)
      → s.claims ≡ before ++ c ∷ behind
      → c.noticed ≡ true
      → publish_claim c.word s.word ≡ returns (signalled, next)
      → Step s (record s { word = next; claims = before ++ behind })

pub data Reachable : System → Type 0 where
  starts : Reachable start
  steps : (s t : System) → Reachable s → Step s t → Reachable t
